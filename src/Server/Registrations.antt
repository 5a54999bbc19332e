-- ===== src/Server/Registrations.antt =====
-- The apps of an Agent in push_relay/app.py: `register_device`, `register_own_device`,
-- `list_devices`, `revoke_device`, `remove_device`, `revoke_own_device` and what they share. The
-- document of an FCM token, by its hash, names the one device that has the token.
use pbxpulse_agent.Prelude.{
  ℕ, ◌+◌, ◌*◌, String, true, false, not, ◌&&◌, ◌||◌, Option, none, some, [], ◌∷◌, ◌==◌,
  if◌then◌else◌, concat, is_truthy, or_else, decimal, leb, length,
}
use pbxpulse_agent.Json
use pbxpulse_agent.Json.{Json, Items, Fields, null, bool, num, str, arr, obj, nil, cons, end, field}
use pbxpulse_agent.Devices.{is_enabled, fcm_token}
use pbxpulse_agent.Server.Store.{
  Firestore, Action, pure, ◌>>=◌, ◌>>◌, raise_if, lift, gets, run_if, exists, time, fields_or,
  merge_doc, set_doc, delete_doc, devices_path, device_path, token_path, pointer_path,
}
use pbxpulse_agent.Server.Texts.{bounded_text, optional_text, optional_identifier}
use pbxpulse_agent.Server.Usage.{day}
use pbxpulse_agent.Server.Auth.{
  Env, Request, json_body, authenticate_agent, authenticate_relay_device, has_credential,
}

abbrev pub value_or : Fields → String → Json → Json
value_or d k default = if Json.has d k then Json.get d k else default

-- The document that an app's registration writes, less the site and the key.
unfoldable pub details : ℕ → Fields → String → Fields → Fields
details now body platform rest =
    field "meaningfulEnabled" (bool (is_enabled body "meaningfulEnabled")) (
      field "activityEnabled" (bool (is_enabled body "activityEnabled")) (
        field "platform" (str platform) (
          field "appVersion" (str (optional_text (Json.get body "appVersion") 120)) (
            field "deviceModel" (str (optional_text (Json.get body "deviceModel") 120)) (
              field "deviceName" (str (optional_text (Json.get body "deviceName") 120)) (
                field "osVersion" (str (optional_text (Json.get body "osVersion") 120)) (
                  field "updatedAt" (time now) (
                    field "lastConnectedAt" (time now)
                      (field "expiresAt" (time (now + 30 * day)) rest)))))))))

unfoldable pub registration : ℕ → Fields → String → String → Fields → Fields
registration now body token platform rest =
    field "fcmToken" (str token) (details now body platform rest)

-- The document that the caller has read, or the one that is there.
abbrev pub given_or : Option Fields → Fields → Fields
given_or none found = found
given_or (some device) found = device

unfoldable pub optional_key : String → Fields
optional_key key = if is_truthy key then field "encryptionPublicKey" (str key) end else end

-- A pointer document.
unfoldable pub pointer : ℕ → String → Fields
pointer now path = field "devicePath" (str path) (field "updatedAt" (time now) end)

module _ (fs : Firestore) (env : Env) where
  open fs use {Db, get, stream}

  -- `_require_device_capacity`
  unfoldable pub require_device_capacity : String → Action Db (Unit {0})
  require_device_capacity agent_id =
      gets (λ d. length (stream d (devices_path agent_id))) >>= λ count.
      raise_if (leb env.max_devices count) 409
        (concat ("This Agent has reached its " ∷ decimal env.max_devices ∷ "-app limit" ∷ []))

  -- The pointer of a token goes if it names the device.
  unfoldable pub release_token : String → String → Action Db (Unit {0})
  release_token token path =
      gets (λ d. pointer_path (get d (token_path (env.hash token)))) >>= λ owner.
      run_if (owner == path) (delete_doc fs (token_path (env.hash token)))

  -- `_delete_device_registration`
  unfoldable pub delete_device_registration : String → String → Option Fields → Action Db (Unit {0})
  delete_device_registration agent_id device_id given =
      let path = device_path agent_id device_id in
      gets (λ d. get d path) >>= λ found.
      let token = fcm_token (given_or given (fields_or found)) in
      delete_doc fs path >> run_if (is_truthy token) (release_token token path)

  -- The last part of both registrations: another device that has the token is deleted.
  unfoldable pub claim_token : ℕ → String → String → Action Db (Unit {0})
  claim_token now token path =
      gets (λ d. pointer_path (get d (token_path (env.hash token)))) >>= λ previous.
      run_if (is_truthy previous && not (previous == path)) (delete_doc fs previous)
      >> set_doc fs (token_path (env.hash token)) (pointer now path)

  unfoldable pub claim_device : ℕ → Fields → String → String → Action Db (Unit {0})
  claim_device now doc token path = merge_doc fs path doc >> claim_token now token path

  -- The id that a registration asks for, or the hash of its token.
  unfoldable pub registered_id : Fields → String → String
  registered_id body token =
      or_else (optional_identifier (Json.get body "relayDeviceId")) (env.hash token)

  -- `register_device`
  unfoldable pub register_device : ℕ → String → Request → Action Db String
  register_device now agent_id r = authenticate_agent env fs now true agent_id r >>= λ found.
      lift (bounded_text (Json.get found.0 "fcmToken") "fcmToken" 4096) >>= λ token.
      let device_id = registered_id found.0 token in
      let path = device_path agent_id device_id in
      let key = optional_key (optional_text (Json.get found.0 "encryptionPublicKey") 100) in
      gets (λ d. exists fs d path) >>= λ known.
      run_if (not known) (require_device_capacity agent_id)
      >> (lift (bounded_text (value_or found.0 "platform" (str "android")) "platform" 32)
          >>= λ platform.
              raise_if (not (Json.has found.1 "siteId")) 500 "Internal Server Error"
              >> claim_device now
                  (registration now found.0 token platform
                    (field "siteId" (Json.get found.1 "siteId") key))
                  token path
              >> pure device_id)

  -- `register_own_device`; the id that it answers with is the argument.
  unfoldable pub register_own_device : ℕ → String → String → Request → Action Db String
  register_own_device now agent_id device_id r =
      authenticate_relay_device env fs now agent_id device_id r >>= λ found.
      lift (json_body env r) >>= λ body.
      lift (bounded_text (Json.get body "fcmToken") "fcmToken" 4096) >>= λ token.
      let path = device_path found.0 found.1 in
      let previous = fcm_token found.2 in
      run_if (is_truthy previous && not (previous == token)) (release_token previous path)
      >> (lift (bounded_text (value_or body "platform" (str "android")) "platform" 32)
          >>= λ platform.
              claim_device now (registration now body token platform end) token path
              >> pure device_id)

  -- `revoke_device`
  unfoldable pub revoke_device : ℕ → String → Request → Action Db (Unit {0})
  revoke_device now agent_id r = authenticate_agent env fs now true agent_id r >>= λ found.
      let requested = optional_identifier (Json.get found.0 "relayDeviceId") in
      let token = optional_text (Json.get found.0 "fcmToken") 120 in
      raise_if (not (is_truthy requested || is_truthy token)) 400 "Device identity is required"
      >> delete_device_registration agent_id (or_else requested (env.hash token)) none

  -- `remove_device`
  unfoldable pub remove_device : ℕ → String → Request → Action Db (Unit {0})
  remove_device now agent_id r = authenticate_agent env fs now false agent_id r >>= λ found.
      lift (bounded_text (Json.get found.0 "fcmToken") "fcmToken" 4096) >>= λ token.
      delete_device_registration agent_id (env.hash token) none

  -- The part of `revoke_own_device` with the document read; where there is none, all is done.
  unfoldable pub revoke_found : String → String → Request → Option Fields → Action Db (Unit {0})
  revoke_found agent_id device_id r none = pure tt
  revoke_found agent_id device_id r (some device) =
      raise_if (not (has_credential env fs device r)) 401 "Invalid device credential"
      >> delete_device_registration agent_id device_id (some device)

  -- `revoke_own_device`
  unfoldable pub revoke_own_device : String → String → Request → Action Db (Unit {0})
  revoke_own_device agent_id device_id r =
      gets (λ d. get d (device_path agent_id device_id)) >>= revoke_found agent_id device_id r
