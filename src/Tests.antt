-- ===== src/Tests.antt =====
-- The theorems at concrete data: one phone that goes away and comes back, a small outbox, two
-- collections of items, and a few calls of the rate limiter.
mod Relay
mod Ami
mod Server
use pbxpulse_agent.Prelude.{
  is_truthy, take, decimal, contains, Bool, count_if, ℕ, pos, ◌+◌, ◌≤◌, String, ◌≡◌, refl, true,
  false, not, ◌&&◌, ◌||◌, none, some, List, [], ◌∷◌, ◌++◌, arith, ◌==◌, eq_iff, if◌then◌else◌, keep,
  map, All, ltb, leb, length, any_marker, replace, lower, strip, nat_eq,
}
use pbxpulse_agent.Prelude.Dict
use pbxpulse_agent.Prelude.Dict.{Dict}
use pbxpulse_agent.Prelude.Sets
use pbxpulse_agent.Snapshot.{
  AmiChannel, AmiEndpoint, AmiSnapshot, endpoint_unavailable, is_trunk, device_state_is_unavailable,
  state_is_unavailable,
}
use pbxpulse_agent.Signals.{
  TipTracker, init, observe, observe_tip, notification_ids, unavailable_phones, has_role, monitored,
}
use pbxpulse_agent.Signals.Pointwise.{reading}
use pbxpulse_agent.Signals.Episodes.{up, is_confirmed}
use pbxpulse_agent.Signals.Tracking.{next_outages, outage_id}
use pbxpulse_agent.Signals.Runs.{
  observe_run, outages_run, observe_run_lem, observe_run_out, some_after, tip_run, observe_tip_lem,
}
use pbxpulse_agent.Activity.Moment.{ActivityEvent, moment_state, make_event}
use pbxpulse_agent.Activity.Transitions.{
  ActivityTracker, voicemail_received, new_recoveries, recovered_phones, recovery_times,
  set_defaults,
}
use pbxpulse_agent.Activity.Tracker
use pbxpulse_agent.Activity.Recoveries.{after_outages}
use pbxpulse_agent.Activity.Announcements.{
  confirms_outage, announces, announced, NamesAnnounced, observe-outstanding, announces_lem,
  no_outage, AllNamed, announcements, announcements-le,
}
use pbxpulse_agent.Activity.Retention.{IsCurrent, Agrees, observe-IsCurrent}
use pbxpulse_agent.LastActive
use pbxpulse_agent.LastActive.{LastActiveTracker}
use pbxpulse_agent.LastActive.Memory.{
  is_phone, seen_healthy, is_listed_out, observe-last_active, observe-saved,
}
use pbxpulse_agent.Live.{Eq, Item, HomePayload, dict, other, by_key, keys_of, home_live_events}
use pbxpulse_agent.Live.Replay.{replay, unique, is_of_signals, replay-home_live_events}
use pbxpulse_agent.RateLimit.{consume_window, client_window}
use pbxpulse_agent.RateLimit.Sliding.{
  recent, window_after, consume_window-admitted, admitted_within, admitted,
  admitted_within-le-limit,
}
use pbxpulse_agent.RateLimit.Clients.{IsBounded, client_window-IsBounded}
use pbxpulse_agent.Json
use pbxpulse_agent.Json.{Fields, str, num, arr, obj, nil, cons, end, field}
use pbxpulse_agent.Relay.State.{RelayState, OutboxItem, Reply, response, refused}
use pbxpulse_agent.Relay.Outbox.{token_of, queue, flush_items, flush}
use pbxpulse_agent.Relay.Publish.{is_active, should_relay, signal_id, collect}
use pbxpulse_agent.Relay.Order.{
  Split, flush-Split, flush_items-HasFewRejected, registrations, others, queue-registrations,
}
use pbxpulse_agent.Relay.Dedupe.{
  ids_of, unique_ids, is_news, event_item, collect-outbox, collect_twice,
}
use pbxpulse_agent.Session
use pbxpulse_agent.Session.{Session, Response, pong, unsupported, Exchanged, result, is_due, poll}
use pbxpulse_agent.Session.Commands.{IsValid, poll-IsValid, pending_after, poll-pending}
use pbxpulse_agent.Home.Presence.{normalized, normalized_presence, person_presence}
use pbxpulse_agent.Home.Presence.Markers.{
  person_presence-endpoint_unavailable, normalized_presence-not_in_use,
}
use pbxpulse_agent.Home.Calls.{call_group_key, dedupe_call_channels}
use pbxpulse_agent.Home.Calls.Groups.{dedupe_call_channels-firsts}
use pbxpulse_agent.Prelude.Firsts.{firsts}
use pbxpulse_agent.Home.People.{
  Person, talking_extensions, is_on_call, iso_of, person_row, build_people,
}
use pbxpulse_agent.Home.People.Rows.{
  IsSorted, build_people-IsSorted, person_row-endpoint_unavailable,
}
use pbxpulse_agent.Devices.{fcm_token, unique_devices_by_token, unique_devices_by_token-firsts}
use pbxpulse_agent.Home.Feed.{activity_signals, activity_signals-firsts}

program : Unit {0}
unfolding device_state_is_unavailable state_is_unavailable endpoint_unavailable is_trunk has_role
    monitored reading Dict.from_entries Dict.put Dict.get Dict.pop unavailable_phones strip lower
    replace any_marker is_phone is_listed_out Sets.member unique keys_of normalized contains
    unique_ids ids_of should_relay is_active
program = tt

-- Phones and snapshots.
abbrev phone : String → String → AmiEndpoint
phone extension state = record {
  extension = extension;
  device_state = state;
  active_channels = pos 0;
  label = "";
  role = "phone";
  number = extension;
  presence = "";
  ip_address = "";
}

abbrev lists : List AmiEndpoint → AmiSnapshot
lists endpoints = record {
  reachable = true;
  channels = [];
  endpoints = endpoints;
  queues = [];
  recent_calls = [];
  voicemails = [];
  error = none;
}

abbrev healthy : AmiSnapshot
healthy = lists (phone "101" "Not in use" ∷ phone "102" "Not in use" ∷ [])

abbrev both_out : AmiSnapshot
both_out = lists (phone "101" "UNAVAILABLE" ∷ phone "102" "Unreachable" ∷ [])

abbrev one_out : AmiSnapshot
one_out = lists (phone "101" "UNAVAILABLE" ∷ phone "102" "Not in use" ∷ [])

-- Signals.
observe_run_example :
    (Sets.member "101" (observe (observe_run (init 30 60 "") ((one_out, 100) ∷ [])) one_out 130).1
      ≡ (true
          && is_confirmed (
              next_outages 30 "" one_out 130
                (outages_run 30 "" (λ _. up) ((one_out, 100) ∷ []))
                "101")))
    × (Dict.get
          (notification_ids
            (observe (observe_run (init 30 60 "") ((one_out, 100) ∷ [])) one_out 130).0)
          "101"
        ≡ outage_id "101" (
            next_outages 30 "" one_out 130
              (outages_run 30 "" (λ _. up) ((one_out, 100) ∷ []))
              "101"))
observe_run_example = observe_run_lem 30 60 "" ((one_out, 100) ∷ []) one_out 130 "101"

observe_run_out_example :
    Sets.member "101"
      (observe
        (observe_run
          (init 30 60 "")
          (((both_out, 5) ∷ (healthy, 90) ∷ []) ++ (one_out, 100) ∷ (both_out, 110) ∷ []))
        one_out
        130).1
    ≡ some_after 130 ((one_out, 100) ∷ (both_out, 110) ∷ (one_out, 130) ∷ [])
unfolding program
observe_run_out_example =
    observe_run_out 30 60 "" "101" ((both_out, 5) ∷ []) ((both_out, 110) ∷ []) (healthy, 90)
      (one_out, 100) (one_out, 130) refl refl ((refl, refl), ((refl, refl), ((refl, refl), tt)))

abbrev tips : TipTracker
tips = record { delay = 60; started_at = some 3 }

observe_tip_example :
    (observe_tip (tip_run tips ((one_out, 80) ∷ (both_out, 100) ∷ [])) both_out 160).1
    ≡ leb (100 + 60) 160
unfolding program
observe_tip_example =
    observe_tip_lem tips (one_out, 80) (both_out, 100) (both_out, 160) [] refl (refl, tt) refl

-- Activity.
abbrev activity : ActivityTracker
activity = record (Tracker.init 600 30 60) { outstanding_phone_outages = "101" ∷ [] }

abbrev back : List (AmiSnapshot × ℕ)
back = (healthy, 700) ∷ (healthy, 800) ∷ []

observe-outstanding_example :
    (Sets.member "101" (Tracker.observe activity healthy 700).0.outstanding_phone_outages ≡ (
      (Sets.member "101" activity.outstanding_phone_outages
        || confirms_outage activity healthy 700 "101")
      && not (announces activity healthy 700 "101")))
    × NamesAnnounced activity healthy 700
observe-outstanding_example = observe-outstanding activity healthy 700 "101"

announcements-le_example : (announcements activity "101" back ≤ 1) × AllNamed activity back
unfolding program no_outage confirms_outage moment_state Sets.of_list
announcements-le_example = announcements-le activity "101" back refl

abbrev ended : ActivityTracker
ended = record activity {
  previous = some (moment_state one_out);
  phone_recovery_started_at = ("101", 600) ∷ [];
}

announces_example :
    (Sets.member "101" ended.outstanding_phone_outages ≡ true)
    × (Sets.member "101" (moment_state healthy).monitored_extensions ≡ true)
    × (Sets.member "101" (moment_state healthy).unavailable_extensions ≡ false)
    × NamesAnnounced ended healthy 700
unfolding program announces announced new_recoveries recovered_phones Sets.inter after_outages
    Tracker.observe_outages moment_state Sets.of_list Sets.diff Dict.has recovery_times set_defaults
    Dict.set_default Dict.keep_keys
announces_example = announces_lem ended healthy 700 "101" refl

abbrev mail : ActivityEvent
mail = voicemail_received 650 1

observe-IsCurrent_example :
    All
      (λ e. Agrees (moment_state healthy) e × IsCurrent 600 700 e)
      (Tracker.observe (record ended { events = mail ∷ [] }) healthy 700).1
unfolding voicemail_received make_event
observe-IsCurrent_example =
    observe-IsCurrent (record ended { events = mail ∷ [] }) healthy 700 refl (omega arith, tt)

-- What is remembered of a phone's last activity.
abbrev memory : LastActiveTracker
memory = record { last_active = ("101", 40) ∷ []; was_available = ("101", true) ∷ []; saved = [] }

observe-last_active_example :
    (Dict.get (LastActive.observe true memory one_out 90).0.last_active "102"
      ≡ (if true && seen_healthy "102" one_out.endpoints then some 90 else none))
    × ((LastActive.observe true memory one_out 90).1
        ≡ (LastActive.observe true memory one_out 90).0.last_active)
unfolding program
observe-last_active_example = observe-last_active true memory one_out 90 "102"

observe-saved_example :
    (LastActive.observe true memory one_out 90).0.saved
    ≡ (LastActive.observe true memory one_out 90).0.last_active
unfolding program
observe-saved_example = observe-saved memory one_out 90 "101" refl refl refl

-- Live events.
abbrev text_Eq : Eq String
text_Eq = record { beq = ◌==◌; beq_iff = eq_iff }

abbrev items_before : List (Item String)
items_before = dict "a" "one" ∷ dict "b" "two" ∷ other ∷ []

abbrev items_after : List (Item String)
items_after = dict "c" "three" ∷ dict "a" "four" ∷ []

abbrev home : List (Item String) → HomePayload String
home signals = record {
  connection = "up";
  now = "quiet";
  signals = some signals;
  calls = "none";
  people = some (dict "101" "Ann" ∷ []);
  trunks = some [];
  queues = none;
}

abbrev home_after : HomePayload String
home_after = record (home items_after) { people = some (dict "102" "Bob" ∷ []) }

replay_example :
    Dict.get
      (replay
        (by_key [] items_before)
        (keep is_of_signals (home_live_events ⦃e = text_Eq⦄ (home items_before) home_after)))
      "b"
    ≡ Dict.get (by_key [] items_after) "b"
unfolding program
replay_example =
    replay-home_live_events ⦃e = text_Eq⦄ (home items_before) home_after items_before items_after
      "b" refl refl refl

-- The rate limiter.
admitted_within_example : admitted_within 60 70 (admitted 2 60 [] [] (5 ∷ 10 ∷ 20 ∷ 66 ∷ [])) ≤ 2
admitted_within_example =
    admitted_within-le-limit 2 60 (5 ∷ 10 ∷ 20 ∷ 66 ∷ []) 70
      (omega arith, (omega arith, (omega arith, (omega arith, tt))))

consume_window_example :
    (consume_window 2 60 66 (window_after 2 60 [] (5 ∷ 10 ∷ 20 ∷ []))).1
    ≡ ltb (recent 60 66 (admitted 2 60 [] [] (5 ∷ 10 ∷ 20 ∷ []))) 2
consume_window_example =
    consume_window-admitted 2 60 (5 ∷ 10 ∷ 20 ∷ []) 66
      (omega arith, (omega arith, (omega arith, (omega arith, tt))))

client_window_example :
    IsBounded 1 (client_window 1 2 60 90 (("a", 5 ∷ []) ∷ []) "b").0
    × (Dict.has
          (client_window 1 2 60 90 (("a", 5 ∷ []) ∷ []) "b").0
          (client_window 1 2 60 90 (("a", 5 ∷ []) ∷ []) "b").1
        ≡ true)
client_window_example =
    client_window-IsBounded 1 2 60 90 (("a", 5 ∷ []) ∷ []) "b"
      (record { size = omega arith; extra = λ e. absurd (omega (arith, e)) })

-- The relay.
abbrev signal : String → String → Fields
signal id title = field "id" (str id) (
    field "state" (str "active")
      (field "importance" (str "attention") (field "title" (str title) end)))

abbrev event : String → OutboxItem
event id = record { kind = "events"; payload = field "id" (str id) end }

abbrev relay : RelayState
relay = record {
  agent_id = "agt_1";
  activation = none;
  outbox = event "x" ∷ event "y" ∷ event "z" ∷ [];
  delivered = [];
  device_registration_attempt_revision = 0;
  device_registration_revision = 0;
  rejected_outbox = [];
  last_outbox_error = "";
  secure_snapshot_sequence = 0;
  secure_snapshot_fingerprint = "";
  last_heartbeat_at = 0;
  secure_devices = [];
  secure_devices_refreshed_at = 0;
}

-- A server that takes one item, refuses the next for good, and then is busy.
abbrev server : ℕ → OutboxItem → ℕ × Reply
server n item =
    if nat_eq n 0
    then (1, response end)
    else if nat_eq n 1
    then (2, refused 400 "bad")
    else (n, refused 503 "busy")

flush-Split_example : Split server 9 relay.outbox (flush server 9 0 relay).1.outbox
flush-Split_example = flush-Split server 9 0 relay

flush_items-HasFewRejected_example :
    length (flush_items server 9 relay.outbox 0 relay).1.rejected_outbox ≤ 20
flush_items-HasFewRejected_example =
    flush_items-HasFewRejected server 9 relay.outbox 0 relay (omega arith)

abbrev device : Fields
device = field "fcmToken" (str "t1") end

queue-registrations_example :
    (registrations "t1" (queue "devices" device relay).outbox ≡ 1)
    × (others (token_of device) (queue "devices" device relay).outbox
        ≡ others (token_of device) relay.outbox)
    × ((queue "devices" device relay).outbox
        ≡ others (token_of device) relay.outbox
          ++ (record { kind = "devices"; payload = device }) ∷ [])
unfolding token_of Json.has Json.get Json.to_text
queue-registrations_example = queue-registrations device relay "t1"

abbrev signals : List Fields
signals = signal "s1" "Trunk down" ∷ signal "s2" "Queue busy" ∷ []

collect-outbox_example :
    (collect signals relay).outbox
    ≡ relay.outbox ++ map event_item (keep (is_news relay.delivered) signals)
unfolding program Json.is_str Json.get signal_id Json.has Json.to_text
collect-outbox_example = collect-outbox signals relay refl

collect_twice_example :
    (collect signals (record relay { delivered = (collect signals relay).delivered })).outbox
    ≡ relay.outbox
unfolding program Json.is_str Json.get signal_id Json.has Json.to_text
collect_twice_example =
    collect_twice signals relay (record relay { delivered = (collect signals relay).delivered })
      refl refl

-- The secure session.
abbrev session : Session
session = record (Session.init true) { pending_responses = pong "c1" ∷ unsupported "c2" ∷ [] }

session-IsValid : IsValid session
unfolding Session.init
session-IsValid = record { few = omega arith; low = omega arith; high = omega arith }

-- A server that has one command and another interval.
abbrev answer : ℕ → List Response → ℕ × Exchanged
answer w sent = (
  w + 1,
  result 6 (
      field "commands"
        (arr (
          cons
            (obj (
              field "id" (str "c3")
                (field "type" (str "ping") (field "expiresAt" (num (pos 99)) end))))
            nil))
        (field "policy" (obj (field "controlExchangeSeconds" (num (pos 60)) end)) end)),
)

poll-IsValid_example : IsValid (poll answer none 5000000 0 session).1
poll-IsValid_example = poll-IsValid answer none 5000000 0 session session-IsValid

poll-pending_example :
    (poll answer none 5000000 0 session).1.pending_responses
    ≡ pending_after 5000000 (answer 0 session.pending_responses).1 session.pending_responses
unfolding is_due Session.init
poll-pending_example = poll-pending answer none 5000000 0 session session-IsValid refl refl

-- People.
abbrev hidden : AmiEndpoint
hidden = record (phone "103" "UNAVAILABLE") { presence = "Available" }

person_presence_example : person_presence hidden false ≡ ("offline", "Offline")
unfolding program
person_presence_example = person_presence-endpoint_unavailable hidden false refl

normalized_presence_example : ¬ (normalized_presence "Not in use" ≡ some ("available", "Available"))
unfolding program
normalized_presence_example = normalized_presence-not_in_use "Not in use" refl

person_row_example :
    ((person_row [] [] (("103", 60000000) ∷ []) hidden).status ≡ "unavailable")
    × ((person_row [] [] (("103", 60000000) ∷ []) hidden).presence ≡ ("offline", "Offline"))
    × ((person_row [] [] (("103", 60000000) ∷ []) hidden).last_active_at
        ≡ iso_of (Dict.get (("103", 60000000) ∷ []) "103"))
unfolding program is_on_call
person_row_example = person_row-endpoint_unavailable [] [] (("103", 60000000) ∷ []) hidden refl refl

abbrev is_shown_out : Person → Bool
is_shown_out p = p.status == "unavailable"

build_people_example :
    IsSorted (map (λ q. q.extension) (build_people (hidden ∷ one_out.endpoints) [] [] []))
    × (count_if (λ q. q.extension == "103") (build_people (hidden ∷ one_out.endpoints) [] [] [])
        ≡ count_if (λ e. not (is_trunk e) && e.extension == "103") (hidden ∷ one_out.endpoints))
    × (count_if is_shown_out (build_people (hidden ∷ one_out.endpoints) [] [] [])
        ≡ count_if
            (λ e. not (is_trunk e) && is_shown_out (person_row (talking_extensions []) [] [] e))
            (hidden ∷ one_out.endpoints))
build_people_example =
    build_people-IsSorted "103" is_shown_out (hidden ∷ one_out.endpoints) [] [] []

-- Calls.
abbrev leg : String → String → AmiChannel
leg channel linked_id = record {
  channel = channel;
  extension = "";
  caller = "";
  connected = "";
  state = "Up";
  endpoint = "";
  caller_number = "";
  connected_number = "";
  duration = "";
  unique_id = "";
  linked_id = linked_id;
}

abbrev legs : List AmiChannel
legs = leg "PJSIP/101-1" "7" ∷ leg "PJSIP/102-1" "8" ∷ leg "PJSIP/103-1" "7" ∷ []

dedupe_call_channels_example :
    map call_group_key (dedupe_call_channels legs) ≡ firsts [] (map call_group_key legs)
dedupe_call_channels_example = dedupe_call_channels-firsts legs

-- Devices.
abbrev devices : List Fields
devices = device ∷ field "fcmToken" (str "t2") end ∷ field "fcmToken" (str "") end ∷ device ∷ []

unique_devices_by_token_example :
    map fcm_token (unique_devices_by_token devices)
    ≡ firsts [] (keep is_truthy (map fcm_token devices))
unique_devices_by_token_example = unique_devices_by_token-firsts devices

activity_signals_example :
    (length (activity_signals legs 700 1 (mail ∷ [])) ≤ 5)
    × (map (λ s. s.technical) (take 1 (activity_signals legs 700 1 (mail ∷ [])))
        ≡ (("active_calls", decimal (length (firsts [] (map call_group_key legs)))) ∷ []) ∷ [])
activity_signals_example =
    activity_signals-firsts legs (leg "PJSIP/101-1" "7")
      (leg "PJSIP/102-1" "8" ∷ leg "PJSIP/103-1" "7" ∷ []) 700 1 (mail ∷ [])
