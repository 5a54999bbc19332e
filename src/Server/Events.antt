-- ===== src/Server/Events.antt =====
-- Notifications in push_relay/app.py: `publish_event`, `_send_agent_status`,
-- `_remove_invalid_tokens` and `_device_record`. `fcm` is what `send_each_for_multicast` answers for
-- each token, after the messages sent so far, where `none` is an error. A device's `expiresAt` is a
-- time where there is one.
use pbxpulse_agent.Prelude.{
  ℕ, ◌+◌, ◌*◌, String, Bool, true, false, not, ◌&&◌, Option, none, some, List, [], ◌∷◌, ◌++◌, ◌==◌,
  if◌then◌else◌, concat, is_truthy, map, keep,
}
use pbxpulse_agent.Prelude.Clock.{second}
use pbxpulse_agent.Prelude.Dict
use pbxpulse_agent.Json
use pbxpulse_agent.Json.{Json, Items, Fields, null, bool, num, str, arr, obj, nil, cons, end, field}
use pbxpulse_agent.RateLimit.{consume_window}
use pbxpulse_agent.Devices.{is_enabled, fcm_token, device_wants_event, unique_devices_by_token}
use pbxpulse_agent.Server.Store.{
  Firestore, State, Message, Result, ok, Action, pure, raise, ◌>>=◌, ◌>>◌, raise_if, lift, gets,
  run_if, time, is_from, create_doc, delete_doc, devices_path,
}
use pbxpulse_agent.Server.Texts.{bounded_text, bounded_identifier}
use pbxpulse_agent.Server.Usage.{day}
use pbxpulse_agent.Server.Auth.{Env, Request, authenticate_agent}
use pbxpulse_agent.Server.Registrations.{delete_device_registration}

-- What FCM answers for one token: `UnregisteredError` or another failure.
pub data Delivery : Type 0 where
  delivered : Delivery
  unregistered : Delivery
  undelivered : Delivery

unfoldable pub success_count : List Delivery → ℕ
success_count [] = 0
success_count (delivered ∷ l) = success_count l + 1
success_count (unregistered ∷ l) = success_count l
success_count (undelivered ∷ l) = success_count l

unfoldable pub failure_count : List Delivery → ℕ
failure_count [] = 0
failure_count (delivered ∷ l) = failure_count l
failure_count (unregistered ∷ l) = failure_count l + 1
failure_count (undelivered ∷ l) = failure_count l + 1

-- The answer to an event.
pub data Published : Type 0 where
  ignored : Published
  duplicate : Published
  accepted : ℕ → ℕ → Published

-- `_device_record`
unfoldable pub device_records : List (String × Fields) → List Fields
device_records [] = []
device_records ((id, device) ∷ l) = Json.put device "_documentId" (str id) ∷ device_records l

-- `device.get("expiresAt", now) >= now and device.get("fcmToken")`
unfoldable pub is_reachable : ℕ → Fields → Bool
is_reachable now device =
    (if Json.has device "expiresAt" then is_from now (Json.get device "expiresAt") else true)
    && Json.truthy (Json.get device "fcmToken")

-- The event of a request, after its checks.
pub record Event : Type 0 where
  pub id : String
  pub signal_id : String
  pub title : String
  pub body : String
  pub category : String
  pub importance : String

unfoldable pub eligible_devices : ℕ → String → String → List Fields → List Fields
eligible_devices now category importance devices = unique_devices_by_token (
    keep (λ device. device_wants_event device category importance && is_reachable now device)
      devices)

-- The devices that are told about their Agent's connection.
unfoldable pub status_devices : ℕ → List Fields → List Fields
status_devices now devices =
    unique_devices_by_token
      (keep (λ device. is_enabled device "meaningfulEnabled" && is_reachable now device) devices)

unfoldable pub event_message : Event → Json → List String → Message
event_message e site_id tokens = record {
  tokens = tokens;
  title = e.title;
  body = e.body;
  payload = field "signalId" (str e.signal_id) (
      field "notificationId" (str e.id) (
        field "siteId" site_id
          (field "category" (str e.category) (field "importance" (str e.importance) end))));
}

-- The document that makes an event known.
unfoldable pub event_record : ℕ → String → Event → Fields
event_record now agent_id e = field "agentId" (str agent_id) (
    field "category" (str e.category) (
      field "importance" (str e.importance)
        (field "createdAt" (time now) (field "expiresAt" (time (now + 2 * day)) end))))

unfoldable pub event_path : Json → String → String
event_path site_id id = concat ("sites/" ∷ Json.to_text site_id ∷ "/events/" ∷ id ∷ [])

module _ (fs : Firestore) (env : Env) (fcm : List Message → Message → Option (List Delivery)) where
  open fs use {Db, get, stream}

  -- The checks of an event, in their order.
  unfoldable pub read_event : Fields → Action Db Event
  read_event d = lift (bounded_identifier (Json.get d "id") "id") >>= λ id.
      lift (
        bounded_identifier (if Json.has d "signalId" then Json.get d "signalId" else str id)
          "signalId")
      >>= λ signal_id. lift (bounded_text (Json.get d "title") "title" 256) >>= λ title.
          lift (bounded_text (Json.get d "body") "body" 2048) >>= λ body.
          lift (bounded_text (Json.get d "category") "category" 64) >>= λ category.
          lift (bounded_text (Json.get d "importance") "importance" 32) >>= λ importance.
          pure (record {
            id = id;
            signal_id = signal_id;
            title = title;
            body = body;
            category = category;
            importance = importance;
          })

  -- `_consume_window` on the window of an Agent, at a reading of the monotonic clock
  unfoldable pub consume_event : ℕ → String → Action Db Bool
  consume_event tick agent_id s =
      let (window, admitted) =
        consume_window env.max_events (3600 * second) tick
          (Dict.get_default s.event_windows agent_id []) in
      (ok admitted, record s { event_windows = Dict.put s.event_windows agent_id window })

  unfoldable pub answered :
      Message → State Db → Option (List Delivery) → Result (Option (List Delivery)) × State Db
  answered message s none = (ok none, s)
  answered message s (some answers) =
      (ok (some answers), record s { sent = s.sent ++ message ∷ [] })

  -- `send_each_for_multicast`: what it answers, or an error
  unfoldable pub send_multicast : Message → Action Db (Option (List Delivery))
  send_multicast message s = answered message s (fcm s.sent message)

  -- `_remove_invalid_tokens`; `zip(…, strict=True)` raises where the lengths differ.
  unfoldable pub remove_invalid_tokens : String → List Fields → List Delivery → Action Db (Unit {0})
  remove_invalid_tokens agent_id [] [] = pure tt
  remove_invalid_tokens agent_id [] (answer ∷ answers) = raise 500 "Internal Server Error"
  remove_invalid_tokens agent_id (device ∷ devices) [] = raise 500 "Internal Server Error"
  remove_invalid_tokens agent_id (device ∷ devices) (delivered ∷ answers) =
      remove_invalid_tokens agent_id devices answers
  remove_invalid_tokens agent_id (device ∷ devices) (undelivered ∷ answers) =
      remove_invalid_tokens agent_id devices answers
  remove_invalid_tokens agent_id (device ∷ devices) (unregistered ∷ answers) =
      let id = Json.text_or device "_documentId" "" in
      run_if (is_truthy id) (delete_device_registration fs env agent_id id (some device))
      >> remove_invalid_tokens agent_id devices answers

  -- The end of `publish_event`, after FCM has answered: an error takes the event's document back.
  unfoldable pub after_send :
      String → String → List Fields → Option (List Delivery) → Action Db Published
  after_send agent_id path devices none = delete_doc fs path >> raise 500 "Internal Server Error"
  after_send agent_id path devices (some answers) =
      remove_invalid_tokens agent_id devices answers
      >> pure (accepted (success_count answers) (failure_count answers))

  unfoldable pub deliver : String → String → Message → List Fields → Action Db Published
  deliver agent_id path message [] = pure (accepted 0 0)
  deliver agent_id path message (device ∷ devices) =
      send_multicast message >>= after_send agent_id path (device ∷ devices)

  -- The part of `publish_event` with the event's document new.
  unfoldable pub notify : ℕ → String → Json → Event → Action Db Published
  notify now agent_id site_id e =
      gets (λ d.
        eligible_devices now e.category e.importance
          (device_records (stream d (devices_path agent_id))))
      >>= λ devices.
          deliver agent_id (event_path site_id e.id)
            (event_message e site_id (map fcm_token devices)) devices

  unfoldable pub publish_new : ℕ → String → Json → Event → Action Db Published
  publish_new now agent_id site_id e =
      create_doc fs (event_path site_id e.id) (event_record now agent_id e) >>= λ new.
      if new then notify now agent_id site_id e else pure duplicate

  -- `publish_event`
  unfoldable pub publish_event : ℕ → ℕ → String → Request → Action Db Published
  publish_event now tick agent_id r = authenticate_agent env fs now false agent_id r >>= λ found.
      consume_event tick agent_id >>= λ admitted.
      raise_if (not admitted) 429 "Agent notification rate limit exceeded"
      >> (read_event found.0 >>= λ e.
          if e.category == "recommendation"
          then pure ignored
          else raise_if (not (Json.has found.1 "siteId")) 500 "Internal Server Error"
            >> publish_new now agent_id (Json.get found.1 "siteId") e)

  unfoldable pub after_status : String → List Fields → Option (List Delivery) → Action Db (Unit {0})
  after_status agent_id devices none = raise 500 "Internal Server Error"
  after_status agent_id devices (some answers) = remove_invalid_tokens agent_id devices answers

  unfoldable pub deliver_status : String → Message → List Fields → Action Db (Unit {0})
  deliver_status agent_id message [] = pure tt
  deliver_status agent_id message (device ∷ devices) =
      send_multicast message >>= after_status agent_id (device ∷ devices)

  -- `_send_agent_status`
  unfoldable pub send_agent_status : ℕ → String → String → String → Action Db (Unit {0})
  send_agent_status now agent_id title body =
      gets (λ d. status_devices now (device_records (stream d (devices_path agent_id))))
      >>= λ devices.
          deliver_status agent_id
            (record {
              tokens = map fcm_token devices;
              title = title;
              body = body;
              payload = field "kind" (str "agent_connection") (field "agentId" (str agent_id) end);
            })
            devices
