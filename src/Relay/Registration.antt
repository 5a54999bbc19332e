-- ===== src/Relay/Registration.antt =====
-- `register_device`, `devices` and `remove_device` of pbxsense_agent/relay.py. `hash` is the
-- hexadecimal SHA-256 of a text.
pub mod Waiting
pub mod Progress
use pbxpulse_agent.Prelude.{
  ℕ, ◌+◌, String, Bool, true, false, not, ◌&&◌, ◌||◌, Option, none, some, List, [], ◌∷◌, ◌==◌, any,
  if◌then◌else◌, is_truthy, or_else, strip, take_text,
}
use pbxpulse_agent.Json
use pbxpulse_agent.Json.{Json, Items, Fields, null, bool, num, str, arr, obj, nil, cons, end, field}
use pbxpulse_agent.Relay.State.{RelayState, Reply, response, refused, failed}
use pbxpulse_agent.Relay.Outbox.{is_registration, queue, flush}
use pbxpulse_agent.Relay.Publish.{ensure_enrolled}
use pbxpulse_agent.Relay.Requests.{agent_path, ask, post}

pub record Registration : Type 0 where
  pub fcm_token : String
  pub meaningful : Bool
  pub activity : Bool
  pub platform : String
  pub app_version : String
  pub device_model : String
  pub device_name : String
  pub os_version : String
  pub relay_device_id : String
  pub encryption_public_key : String

pub record Registered : Type 0 where
  pub configured : Bool
  pub queued : Bool
  pub delivered : Bool

abbrev pub optional_field : String → String → Fields → Fields
optional_field key value rest = if is_truthy value then field key (str value) rest else rest

unfoldable pub registration_payload : Registration → Fields
registration_payload r = field "fcmToken" (str (strip r.fcm_token)) (
    field "meaningfulEnabled" (bool r.meaningful) (
      field "activityEnabled" (bool r.activity) (
        field "platform" (str (or_else (strip r.platform) "android")) (
          field "appVersion" (str (strip r.app_version)) (
            field "deviceModel" (str (strip r.device_model)) (
              field "deviceName" (str (strip r.device_name)) (
                field "osVersion" (str (strip r.os_version)) (
                  optional_field "relayDeviceId" (strip r.relay_device_id) (
                    optional_field "encryptionPublicKey" (strip r.encryption_public_key)
                      end)))))))))

-- A device with the id is among the items.
unfoldable pub lists_id : String → Items → Bool
lists_id id nil = false
lists_id id (cons (obj d) l) = Json.text_or d "id" "" == id || lists_id id l
lists_id id (cons null l) = lists_id id l
lists_id id (cons (bool b) l) = lists_id id l
lists_id id (cons (num n) l) = lists_id id l
lists_id id (cons (str s) l) = lists_id id l
lists_id id (cons (arr x) l) = lists_id id l

-- `response.get("devices", [])`, if it is a list
unfoldable pub items_of : Json → Items
items_of (arr l) = l
items_of null = nil
items_of (bool b) = nil
items_of (num n) = nil
items_of (str s) = nil
items_of (obj d) = nil

unfoldable pub is_listed : String → Reply → Bool
is_listed id (response r) = lists_id id (items_of (Json.get r "devices"))
is_listed id (refused status message) = false
is_listed id failed = false

-- `devices`: its state where no list came, or the list.
pub data DeviceList : Type 0 where
  not_enrolled unavailable : DeviceList
  available : Items → DeviceList

unfoldable pub device_list : Reply → DeviceList
device_list (response r) = available (items_of (Json.get r "devices"))
device_list (refused status message) = unavailable
device_list failed = unavailable

-- Whether a request came back with an answer.
unfoldable pub is_answered : Reply → Bool
is_answered (response r) = true
is_answered (refused status message) = false
is_answered failed = false

module _ {W : Type 0} (request : W → String → Fields → W × Reply) (hash : String → String)
    (url : String) where
  -- `_device_is_listed`
  unfoldable pub device_is_listed : String → String → W → RelayState → W × Bool
  device_is_listed token relay_device_id w s =
      let (w', reply) = request w (agent_path s.agent_id "devices/list") end in
      (w', is_listed (or_else relay_device_id (take_text 12 (hash token))) reply)

  -- The part of `register_device` after the token was queued; `at` is the clock in the log of
  -- refused items.
  unfoldable pub deliver : Registration → ℕ → W → RelayState → W × RelayState × Registered
  deliver r at w s =
      let token = strip r.fcm_token in
      let (w1, s1, enrolled) = ensure_enrolled url (ask request) w s in
      let (w2, s2) = if enrolled then flush (post request s1.agent_id) at w1 s1 else (w1, s1) in
      let accepted = enrolled && not (any (is_registration token) s2.outbox) in
      let refresh =
        accepted
        && is_truthy (strip r.relay_device_id)
        && is_truthy (strip r.encryption_public_key) in
      let s3 = if refresh then record s2 { secure_devices_refreshed_at = 0 } else s2 in
      let (w3, listed) = device_is_listed token (strip r.relay_device_id) w2 s3 in
      if accepted
      then (w3, s3, record { configured = enrolled; queued = not listed; delivered = listed })
      else (w2, s3, record { configured = enrolled; queued = true; delivered = false })

  -- `register_device`
  unfoldable pub register_device : Registration → ℕ → W → RelayState → W × RelayState × Registered
  register_device r at w s =
      let counted = record s {
        device_registration_attempt_revision = s.device_registration_attempt_revision + 1;
      } in
      let registered = deliver r at w (queue "devices" (registration_payload r) counted) in
      if is_truthy (strip r.fcm_token) then registered else (
        w,
        s,
        record {
          configured = is_truthy url && is_truthy s.agent_id;
          queued = false;
          delivered = false;
        },
      )

  -- `devices`
  unfoldable pub devices : W → RelayState → W × RelayState × DeviceList
  devices w s =
      let (w1, s1, enrolled) = ensure_enrolled url (ask request) w s in
      let (w2, reply) = request w1 (agent_path s1.agent_id "devices/list") end in
      if enrolled then (w2, s1, device_list reply) else (w1, s1, not_enrolled)

  -- `remove_device`; `prepare` is the call of `_activation_locked` at its end, whose failures are
  -- ignored.
  unfoldable pub remove_device :
      (W → RelayState → W × RelayState) → String → String → W → RelayState → W × RelayState × Bool
  remove_device prepare fcm_token relay_device_id w s =
      let token = strip fcm_token in
      let id = strip relay_device_id in
      let (w1, s1, enrolled) = ensure_enrolled url (ask request) w s in
      let (w2, reply) =
        request w1 (agent_path s1.agent_id "devices/revoke")
          (field "fcmToken" (str token) (optional_field "relayDeviceId" id end)) in
      let (w3, s3) = prepare w2 (record s1 { secure_devices_refreshed_at = 0 }) in
      if not (is_truthy token || is_truthy id)
      then (w, s, false)
      else if not enrolled
      then (w1, s1, false)
      else if is_answered reply
      then (w3, s3, true)
      else (w2, s1, false)
