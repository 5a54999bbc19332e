-- ===== src/Server/Snapshots.antt =====
-- Encrypted snapshots and the list of apps in push_relay/app.py: `publish_secure_snapshots`,
-- `read_secure_snapshot` and `list_devices`.
use text.Mathlib.Text.{is_lt}
use Prim.Native.String.{compare}
use pbxpulse_agent.Prelude.{
  ℕ, ◌+◌, ◌*◌, ◌-◌, ℤ, pos, String, Bool, true, false, Option, none, some, List, [], ◌∷◌,
  if◌then◌else◌, concat, leb, length, codes, take_text,
}
use pbxpulse_agent.Prelude.Clock.{second}
use pbxpulse_agent.Json
use pbxpulse_agent.Json.{Json, Items, Fields, null, bool, num, str, arr, obj, nil, cons, end, field}
use pbxpulse_agent.Devices.{is_enabled}
use pbxpulse_agent.Server.Store.{
  Firestore, Result, ok, refuse, Action, pure, ◌>>=◌, ◌>>◌, lift, gets, time, time_of, is_from,
  fields_or, set_doc, agent_path, device_path, devices_path,
}
use pbxpulse_agent.Server.Texts.{clean_text, bounded_identifier}
use pbxpulse_agent.Server.Usage.{usage_update, update_counted}
use pbxpulse_agent.Server.Auth.{
  Env, Request, authenticate_agent, require_replay_protected_signature, authenticate_relay_device,
}
use pbxpulse_agent.Server.Exchange.{latest_path, loss_timeout, bounded_list, list_or}

-- The answer to an app that asks for the Agent's snapshot.
pub data Available : Type 0 where
  agent_offline : Available
  unavailable : Available
  available : ℕ → Fields → Available

-- A row of the list of apps.
pub record DeviceRow : Type 0 where
  pub id : String
  pub revoke_id : String
  pub platform : String
  pub app_version : String
  pub device_model : String
  pub device_name : String
  pub os_version : String
  pub meaningful_enabled : Bool
  pub activity_enabled : Bool
  pub updated_at : String
  pub last_connected_at : String
  pub connected_now : Bool
  pub expires_at : String
  pub encryption_public_key : String

-- `int(…)`, where an error is not caught
unfoldable pub whole : Option ℤ → Result ℤ
whole none = refuse 500 "Internal Server Error"
whole (some n) = ok n

unfoldable pub check_size : String → Result (Unit {0})
check_size ciphertext =
    if leb (length (codes ciphertext)) 900000
    then ok tt
    else refuse 413 "Encrypted snapshot is too large"

-- `sort(key=…, reverse=True)`, which keeps the order of equal keys
unfoldable pub insert_row : DeviceRow → List DeviceRow → List DeviceRow
insert_row x [] = x ∷ []
insert_row x (y ∷ l) =
    let rest = insert_row x l in
    if is_lt (compare x.updated_at y.updated_at) then y ∷ rest else x ∷ y ∷ l

unfoldable pub sorted_rows : List DeviceRow → List DeviceRow
sorted_rows [] = []
sorted_rows (x ∷ l) = insert_row x (sorted_rows l)

module _ (fs : Firestore) (env : Env) where
  open fs use {Db, get, stream}

  -- `_bounded_base64`
  unfoldable pub bounded_base64 : Json → String → ℕ → Result String
  bounded_base64 value name limit = elim (clean_text value name) [
    | refuse status detail ↦ refuse status detail
    | ok text ↦
        if leb (length (codes text)) limit
        then elim (env.decoded_size text) [
          | none ↦ refuse 400 "Invalid base64 value"
          | some n ↦ ok text
        ]
        else refuse 400 (concat ("Invalid " ∷ name ∷ []))
  ]

  -- An envelope for a device that there is.
  unfoldable pub store_envelope : ℕ → String → String → Fields → Fields → Action Db (Unit {0})
  store_envelope now agent_id device_id device envelope =
      let path = device_path agent_id device_id in
      let sequence =
        if Json.has envelope "sequence" then Json.get envelope "sequence" else num (pos 0) in
      lift (clean_text (Json.get envelope "ciphertext") "ciphertext") >>= λ ciphertext.
      lift (check_size ciphertext)
      >> (lift (whole (Json.to_int sequence)) >>= λ n.
          lift (clean_text (Json.get envelope "createdAt") "createdAt") >>= λ created_at.
          lift (bounded_base64 (Json.get envelope "ephemeralPublicKey") "ephemeralPublicKey" 100)
          >>= λ key. lift (bounded_base64 (Json.get envelope "salt") "salt" 80) >>= λ salt.
              lift (bounded_base64 (Json.get envelope "nonce") "nonce" 80) >>= λ nonce.
              set_doc fs (latest_path agent_id device_id) (
                field "protocolVersion" (num (pos 1)) (
                  field "sequence" (num n) (
                    field "createdAt" (str (take_text 40 created_at)) (
                      field "ephemeralPublicKey" (str key) (
                        field "salt" (str salt) (
                          field "nonce" (str nonce) (
                            field "ciphertext" (str ciphertext)
                              (field "updatedAt" (time now) end))))))))
              >> (usage_update fs env.hash env.date env.is_date now path device "app"
                    (concat (agent_id ∷ "/" ∷ device_id ∷ []))
                    (("encryptedSnapshotsPublished", 1)
                      ∷ ("encryptedSnapshotBytes", length (codes ciphertext))
                      ∷ [])
                  >>= λ usage. update_counted fs env.hash env.date env.is_date path end usage))

  store_found : ℕ → String → String → Fields → Option Fields → Action Db ℕ
  store_found now agent_id device_id envelope none = pure 0
  store_found now agent_id device_id envelope (some device) =
      store_envelope now agent_id device_id device envelope >> pure 1

  unfoldable pub store_one : ℕ → String → Fields → Action Db ℕ
  unfolding store_found
  store_one now agent_id envelope =
      lift (bounded_identifier (Json.get envelope "deviceId") "deviceId") >>= λ device_id.
      gets (λ d. get d (device_path agent_id device_id)) >>= λ found.
      store_found now agent_id device_id envelope found

  -- How many envelopes are stored.
  unfoldable pub store_all : ℕ → String → Items → Action Db ℕ
  store_all now agent_id nil = pure 0
  store_all now agent_id (cons (obj envelope) l) =
      store_one now agent_id envelope >>= λ m. store_all now agent_id l >>= λ n. pure (m + n)
  store_all now agent_id (cons null l) = store_all now agent_id l
  store_all now agent_id (cons (bool b) l) = store_all now agent_id l
  store_all now agent_id (cons (num n) l) = store_all now agent_id l
  store_all now agent_id (cons (str s) l) = store_all now agent_id l
  store_all now agent_id (cons (arr x) l) = store_all now agent_id l

  -- `publish_secure_snapshots`
  unfoldable pub publish_secure_snapshots : ℕ → String → Request → Action Db ℕ
  publish_secure_snapshots now agent_id r =
      authenticate_agent env fs now false agent_id r >>= λ found.
      require_replay_protected_signature env fs now agent_id found.1 r
      >> (lift (bounded_list (list_or found.0 "envelopes") "Invalid secure envelopes")
          >>= λ envelopes. store_all now agent_id envelopes)

  latest : Option ℕ → Bool → Option Fields → Available
  latest none recent found = agent_offline
  latest (some seen) false found = agent_offline
  latest (some seen) true none = unavailable
  latest (some seen) true (some envelope) = available seen (Json.pop envelope "updatedAt")

  -- `read_secure_snapshot`
  unfoldable pub read_secure_snapshot : ℕ → String → String → Request → Action Db Available
  unfolding latest
  read_secure_snapshot now agent_id device_id r =
      authenticate_relay_device env fs now agent_id device_id r >>= λ found.
      let path = device_path found.0 found.1 in
      usage_update fs env.hash env.date env.is_date now path found.2 "app"
        (concat (agent_id ∷ "/" ∷ device_id ∷ [])) (("remoteSnapshotReads", 1) ∷ [])
      >>= λ usage.
          update_counted fs env.hash env.date env.is_date path
            (field "lastConnectedAt" (time now) end) usage
          >> gets (λ d.
            let seen = Json.get (fields_or (get d (agent_path agent_id))) "lastSeenAt" in
            latest (time_of seen) (is_from (now - loss_timeout) seen)
              (get d (latest_path found.0 found.1)))

  -- `_timestamp_text`
  unfoldable pub timestamp_text : Json → String
  timestamp_text v = elim (time_of v) [ none ↦ "" | some t ↦ env.iso t ]

  unfoldable pub device_row : ℕ → String → Fields → DeviceRow
  device_row now id device = record {
    id = if Json.truthy (Json.get device "accessTokenHash") then id else take_text 12 id;
    revoke_id = id;
    platform = Json.text_or device "platform" "unknown";
    app_version = Json.text_or device "appVersion" "";
    device_model = Json.text_or device "deviceModel" "";
    device_name = Json.text_or device "deviceName" "";
    os_version = Json.text_or device "osVersion" "";
    meaningful_enabled = is_enabled device "meaningfulEnabled";
    activity_enabled = is_enabled device "activityEnabled";
    updated_at = timestamp_text (Json.get device "updatedAt");
    last_connected_at = timestamp_text (Json.get device "lastConnectedAt");
    connected_now = is_from (now - 90 * second) (Json.get device "lastConnectedAt");
    expires_at = timestamp_text (Json.get device "expiresAt");
    encryption_public_key = Json.text_or device "encryptionPublicKey" "";
  }

  unfoldable pub device_rows : ℕ → List (String × Fields) → List DeviceRow
  device_rows now [] = []
  device_rows now ((id, device) ∷ l) = device_row now id device ∷ device_rows now l

  -- `list_devices`
  unfoldable pub list_devices : ℕ → String → Request → Action Db (List DeviceRow)
  list_devices now agent_id r =
      authenticate_agent env fs now false agent_id r
      >> gets (λ d. sorted_rows (device_rows now (stream d (devices_path agent_id))))
