-- ===== src/Tests/Server.antt =====
-- The theorems on the push relay's handlers at concrete data: one Agent, in a store in memory.
use pbxpulse_agent.Prelude.{
  pos, String, ◌≡◌, refl, true, false, Option, none, some, List, [], ◌∷◌, ◌==◌, if◌then◌else◌,
  concat, arith, Bool-cases, inl, inr, strip, ends_with, int_of_text, decimal, join, take_text,
}
use pbxpulse_agent.Prelude.Dict
use pbxpulse_agent.Prelude.Dict.{Dict}
use pbxpulse_agent.Json
use pbxpulse_agent.Json.{Json, Fields, num, str, arr, obj, nil, cons, null, end, field}
use pbxpulse_agent.Devices
use pbxpulse_agent.Devices.{fcm_token}
use pbxpulse_agent.Server.Store
use pbxpulse_agent.Server.Texts
use pbxpulse_agent.Server.Usage
use pbxpulse_agent.Server.Auth
use pbxpulse_agent.Server.Exchange
use pbxpulse_agent.Server.Registrations
use pbxpulse_agent.Server.Activations
use pbxpulse_agent.Server.Events
use pbxpulse_agent.Server.Runs
use pbxpulse_agent.Server.Store.{State, Message, Result, ok, refuse, time, device_path, token_path}
use pbxpulse_agent.Server.Memory.{memory}
use pbxpulse_agent.Server.Paths.{device_path-tag}
use pbxpulse_agent.Server.Auth.{Env, Request, Parsed, parsed}
use pbxpulse_agent.Server.Registrations.{register_device, revoke_device, remove_device}
use pbxpulse_agent.Server.Activations.{Found, Secrets, claim_activation}
use pbxpulse_agent.Server.Exchange.{heartbeat, secure_exchange}
use pbxpulse_agent.Server.Snapshots.{publish_secure_snapshots, list_devices}
use pbxpulse_agent.Server.Events.{
  Event, Delivery, delivered, publish_event, publish_new, duplicate, event_path, event_record,
}
use pbxpulse_agent.Server.Runs.{
  is_ok, Call, registers, Reaches, done, then_serves, serve, Reaches-token_at,
}
use pbxpulse_agent.Server.Tokens.{token_at, owner_at, has_owner, names_device, IsOwned}
use pbxpulse_agent.Server.Claims.{claim_activation_twice}
use pbxpulse_agent.Server.Delivery.{is_empty, told, publish_new_twice, publish_new_failed}
use pbxpulse_agent.Server.Refusals.{IsRefused, forged_requests}
use pbxpulse_agent.Server.Replay.{secure_exchange_twice}

-- The bodies of the requests below.
abbrev bodies : String → Parsed
bodies raw =
    if raw == "one"
    then parsed (obj (field "fcmToken" (str "t") (field "relayDeviceId" (str "d1") end)))
    else if raw == "two"
    then parsed (obj (field "fcmToken" (str "t") (field "relayDeviceId" (str "d2") end)))
    else if raw == "exchange"
    then parsed (obj (field "protocolVersion" (num (pos 1)) (field "sessionId" (str "s1") end)))
    else parsed (obj (field "activationSecret" (str "secret") (field "siteName" (str "Home") end)))

abbrev env : Env
env = record {
  loads = bodies;
  hash = λ s. concat ("h" ∷ s ∷ []);
  verify = λ key signature message. signature == "good";
  is_public_key = λ s. true;
  decoded_size = λ s. some 32;
  iso = λ t. "time";
  date = λ t. "2026-01-01";
  is_date = λ s. true;
  max_devices = 10;
  max_snapshot_bytes = 65536;
  max_events = 60;
  admin_token = "admin";
  enrollment_mode = "open";
  signed_existing = false;
  ticket_secret = "secret";
  mac = λ s. s;
  encode = λ s. s;
  decode = λ s. some s;
}

abbrev request : String → String → Request
request raw signature = record {
  method = "POST";
  path = "/v1/agents/a1/devices";
  raw = raw;
  size = 10;
  timestamp = "1";
  nonce = "0123456789abcdef";
  signature = signature;
  signature_v2 = signature;
  authorization = "";
  admin_header = "";
  admin_cookie = "";
}

abbrev agent : Fields
agent = field "siteId" (str "site") (field "publicKey" (str "pk") end)

abbrev start : State (Dict Fields)
start = record { db = ("agents/a1", agent) ∷ []; sent = []; event_windows = [] }

start-IsOwned : IsOwned memory env start.db
unfolding IsOwned has_owner names_device token_at owner_at Dict.get fcm_token Json.has
start-IsOwned = (
  λ p. elim (Bool-cases ("agents/a1" == p)) [
    | inl e ↦ rw e (ground arith)
    | inr e ↦ rw e (ground arith)
  ],
  λ g. elim (Bool-cases ("agents/a1" == token_path g)) [ inl e ↦ rw e refl | inr e ↦ rw e refl ],
)

abbrev fcm : List Message → Message → Option (List Delivery)
fcm sent message = some (delivered ∷ [])

bad_verifies :
    (key : Json) → Auth.verifies env key "bad" (Auth.signed_message (request "one" "bad")) ≡ false
unfolding Auth.verifies
bad_verifies (str key) = refl
bad_verifies null = refl
bad_verifies (Json.bool b) = refl
bad_verifies (num n) = refl
bad_verifies (arr l) = refl
bad_verifies (obj d) = refl

forged_requests_example :
    IsRefused start (register_device memory env 0 "a1" (request "one" "bad"))
    × IsRefused start (revoke_device memory env 0 "a1" (request "one" "bad"))
    × IsRefused start (remove_device memory env 0 "a1" (request "one" "bad"))
    × IsRefused start (list_devices memory env 0 "a1" (request "one" "bad"))
    × IsRefused start (heartbeat memory env fcm 0 "a1" (request "one" "bad"))
    × IsRefused start (secure_exchange memory env fcm 0 "a1" (request "one" "bad"))
    × IsRefused start (publish_secure_snapshots memory env 0 "a1" (request "one" "bad"))
    × IsRefused start (publish_event memory env fcm 0 0 "a1" (request "one" "bad"))
forged_requests_example =
    forged_requests memory env fcm 0 0 "a1" (request "one" "bad") start
      (λ agent_id agent is_id is_agent. bad_verifies (Json.get agent "publicKey"))

secure_exchange_twice_example :
    IsRefused
      (secure_exchange memory env fcm 5 "a1" (request "exchange" "good") start).1
      (secure_exchange memory env fcm 9 "a1" (request "one" "good"))
unfolding secure_exchange is_ok Store.bind_result Auth.authenticate_agent Texts.bounded_identifier
    Texts.clean strip Json.truthy Json.to_text Texts.is_identifier Auth.agent_body ends_with
    Auth.object_body Auth.check_agent Dict.get concat Json.get Auth.check_recent Json.has
    Json.int_text Json.is_str Json.put int_of_text decimal join take_text Auth.is_recent
    Auth.nonce_path Auth.protected_message Auth.require_replay_protected_signature
    Auth.signed_message Auth.verifies Exchange.bounded_list Exchange.deliver_commands
    Exchange.exchange Exchange.identifiers Exchange.is_protocol Exchange.record_responses
    Store.create_doc Store.merged Store.time Store.update_doc Texts.is_nonce Usage.archive_usage
    Usage.counts_of Usage.is_archivable Usage.positive Usage.update_counted Usage.usage_update
    Usage.with_usage Usage.add_counts Exchange.commands_path Dict.put Exchange.is_queued
secure_exchange_twice_example =
    secure_exchange_twice memory env fcm 5 9 "a1" (request "exchange" "good") (request "one" "good")
      start refl refl

abbrev secrets : Secrets
secrets = record {
  activation_id = "act";
  activation_secret = "secret";
  device_id = "d1";
  access_token = "token";
  site_id = "site";
  agent_id = "a1";
}

-- An activation that is open until 100.
abbrev offered : State (Dict Fields)
offered = record {
  db =
      (
        "activations/act",
        field "secretHash" (str "hsecret") (
            field "publicKey" (str "pk")
              (field "displayName" (str "PBX") (field "expiresAt" (time 100) end))),
      )
      ∷ [];
  sent = [];
  event_windows = [];
}

abbrev no_agent : Dict Fields → Json → Found
no_agent d key = none

claim_activation_twice_example :
    IsRefused
      (claim_activation memory env no_agent 5 secrets "act" (request "claim" "good") offered).1
      (claim_activation memory env no_agent 9 secrets "act" (request "claim" "good"))
unfolding claim_activation is_ok Store.bind_result Auth.json_body Auth.object_body
    Texts.bounded_text Texts.clean strip Json.truthy Json.get Json.to_text
    Activations.check_activation Dict.get Activations.activation_path concat
    Activations.is_claimable Json.has Store.is_from Store.time_of Json.put take_text
    Activations.account_fields Activations.check_key Activations.check_ticket
    Activations.claim_found Activations.claim_new Activations.claim_with
    Activations.create_relay_device Activations.is_used Activations.write_agent
    Activations.write_ticket Registrations.optional_key Registrations.require_device_capacity
    Store.create_doc Store.merged time Texts.optional_text Dict.put
claim_activation_twice_example =
    claim_activation_twice memory env no_agent 5 9 secrets secrets "act" (request "claim" "good")
      (request "claim" "good") offered refl

-- A phone with a token, which wants events.
abbrev with_phone : State (Dict Fields)
with_phone = record start {
  db = ("agents/a1/devices/d1", field "fcmToken" (str "t") end) ∷ start.db;
}

abbrev event : Event
event = record {
  id = "e1";
  signal_id = "e1";
  title = "Trunk down";
  body = "A trunk is down";
  category = "trunk";
  importance = "important";
}

publish_new_twice_example :
    publish_new memory env fcm 9 "a1"
      (str "site")
      event
      (publish_new memory env fcm 5 "a1" (str "site") event with_phone).1
    ≡ (ok duplicate, (publish_new memory env fcm 5 "a1" (str "site") event with_phone).1)
unfolding publish_new is_ok Store.bind_result Store.create_doc Dict.get event_path concat
    Json.to_text Events.notify Events.deliver Events.eligible_devices
    Devices.unique_devices_by_token Events.device_records Dict.put Devices.device_wants_event
    Json.has Json.put Events.is_reachable Json.truthy Devices.devices_by_token fcm_token
    Devices.is_enabled Devices.values Json.get Events.after_send Events.answered
    Events.event_message event_record Events.failure_count Events.remove_invalid_tokens
    Events.send_multicast Events.success_count Store.is_from Store.time_of time
publish_new_twice_example =
    publish_new_twice memory env fcm 5 9 "a1" "a1" (str "site") event event with_phone refl refl

abbrev broken : List Message → Message → Option (List Delivery)
broken sent message = none

publish_new_failed_example :
    (publish_new memory env broken 5 "a1" (str "site") event with_phone).1.sent ≡ []
    × is_ok (publish_new memory env broken 5 "a1" (str "site") event with_phone).0
      ≡ is_empty (told memory env broken 5 "a1" (str "site") event with_phone)
    × Dict.get
        (publish_new memory env broken 5 "a1" (str "site") event with_phone).1.db
        (event_path (str "site") "e1")
      ≡ (if is_empty (told memory env broken 5 "a1" (str "site") event with_phone)
          then some (event_record 5 "a1" event)
          else none)
unfolding event_path Dict.get concat Json.to_text
publish_new_failed_example =
    publish_new_failed memory env broken 5 "a1" (str "site") event with_phone refl (λ message. refl)

abbrev first_phone : State (Dict Fields)
first_phone = serve memory env (registers 0 "a1" (request "one" "good")) start

abbrev both_phones : State (Dict Fields)
both_phones = serve memory env (registers 1 "a1" (request "two" "good")) first_phone

-- Two phones register the same token, one after the other.
both_register : Reaches memory env start both_phones
unfolding Runs.is_accepted
both_register =
    then_serves first_phone (then_serves start done (registers 0 "a1" (request "one" "good")) refl)
      (registers 1 "a1" (request "two" "good")) refl

Reaches-token_at_example : device_path "a1" "d2" ≡ device_path "a1" "d2"
unfolding serve token_at is_ok fcm_token Json.has Dict.get register_device Store.bind_result
    Auth.authenticate_agent Texts.bounded_identifier Texts.clean strip Json.truthy Json.to_text
    Texts.is_identifier Auth.agent_body ends_with Auth.object_body Auth.check_agent concat
    Devices.is_enabled Json.get Json.put int_of_text take_text Auth.check_recent Auth.is_recent
    Auth.signed_message Auth.verifies Registrations.claim_device Registrations.claim_token
    Registrations.details Registrations.optional_key Registrations.pointer
    Registrations.registered_id Registrations.registration Registrations.require_device_capacity
    Store.merged time Store.update_doc Texts.bounded_text Texts.optional_identifier
    Texts.optional_text Dict.put Dict.pop
Reaches-token_at_example =
    Reaches-token_at memory env start both_phones (device_path "a1" "d2") (device_path "a1" "d2")
      both_register start-IsOwned (device_path-tag "a1" "d2") (device_path-tag "a1" "d2") refl refl
