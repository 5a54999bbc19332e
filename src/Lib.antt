-- ===== src/Lib.antt =====
-- A verification library for the PBXSense Agent (pbxsense_agent/*.py) and its push relay
-- (push_relay/app.py): pure parts of the program as functions, stateful parts as functions from
-- state to state, and theorems about them.
--
-- The Agent polls a PBX through a connector, which hands over an `AmiSnapshot`. Trackers turn the
-- row of snapshots into Signals and Activity, a diff of two home payloads becomes live events for
-- the app, and `AgentRelay` publishes Signals to the push relay through a durable outbox. The push
-- relay limits the requests of the public.
--
-- Parts and files:
-- - Snapshot: the dataclasses of pbxsense_agent/pulse.py and pbxsense_agent/history.py, and the
--   readings of a device state (`_endpoint_unavailable`, `_is_active_channel`).
-- - Signals (Signals/): `EndpointAvailabilitySignalTracker` and `EndpointAggregateTipTracker` of
--   pbxsense_agent/pulse.py. `observe` is the method, one round of its loop is `observe_endpoint`,
--   and its branches are `observe_unavailable` and `observe_available`. Pointwise takes one
--   extension out of the loop, Episodes and Tracking relate it to an abstract machine of outages,
--   and Runs states the theorems over rows of snapshots.
-- - Ami (Ami/): pbxsense_agent/ami.py. Ami holds the packets, the actions and the channels, Stream
--   `_recv_through`, Queues `_queues_from_events`, Endpoints the states and roles of endpoints.
-- - CallKind: `interpreted_call_kind` of pbxsense_agent/history.py.
-- - Activity (Activity/): `_MomentState`, `_moment_state` and `ActivityTracker` of
--   pbxsense_agent/pulse.py. Transitions holds `_record_transitions` in four steps (queues, trunks,
--   phones, voicemail), Tracker holds `observe`, Recoveries, Announcements and Retention the proofs.
-- - LastActive (LastActive/): `EndpointLastActiveTracker` of pbxsense_agent/presence_history.py.
-- - Live (Live/): `home_live_events` of pbxsense_agent/live.py, and a client that replays events.
-- - RateLimit (RateLimit/): `_consume_window`, `_client_window` and `bound_public_requests` of
--   push_relay/app.py.
-- - Json, Relay (Relay/): `AgentRelay` of pbxsense_agent/relay.py. State is its state, Outbox holds
--   `_queue` and `_flush`, Publish the enrollment and `observe`, Requests `heartbeat` and
--   `secure_exchange`, Activations `activation`, Registration `register_device`, `devices` and
--   `remove_device`, Projection `_secure_snapshot_projection` and Snapshots
--   `publish_secure_snapshot`.
-- - Session (Session/): `SecureInternetRelay` of pbxsense_agent/internet_relay.py. `poll` is the
--   method; its parts are `exchange_step`, `after_exchange` and `publish_step`.
-- - Home (Home/): the home payload of pbxsense_agent/pulse.py. Presence holds `_normalized_presence`
--   and `_person_presence`, People `_build_people` and `_build_trunks`, Calls
--   `_dedupe_call_channels`, Queues `_build_queues`, Feed
--   `_activity_signals`, Names and Labels the helpers.
-- - Devices: `_device_wants_event` and `_unique_devices_by_token` of push_relay/app.py.
-- - Server (Server/): the handlers of push_relay/app.py. Store is what they use of Firestore and of
--   the web framework: a handler is an action from a state (documents, messages sent, windows) to a
--   result, which may be a refusal with a status, and a state. Texts and Auth hold the checks of
--   requests, Tickets and Activations the enrollment, Registrations the apps of an Agent, Exchange
--   the heartbeat, the exchange, pings and the sweep, Snapshots the encrypted snapshots and the list
--   of apps, Events the notifications, Usage the counters. Tokens, Ownership, Calls and Runs hold the
--   proofs on push tokens, Delivery, Refusals, Holds, Replay and Claims the other proofs, and Memory
--   is a store for the examples.
-- - Diagnostics: pbxsense_agent/diagnostics.py.
-- - Prelude: numbers, texts, lists, dicts with their order, sets as lists, and clock readings.
-- - Tests: the theorems at concrete data.
--
-- A `datetime` is a number of whole microseconds, a naive one from 1970-01-01 by the wall clock; the
-- rounding of floating-point timestamps is not modelled. `str.lower` and `str.upper` are exact for
-- tests against ASCII text; `str.isalnum` takes a character past ASCII for a letter, and so lower case leaves a
-- letter past ASCII as it is where two texts are compared. Locks serialise
-- the calls, so each call is one function. A write to disk succeeds or fails as an argument says;
-- the relay's `_save` is taken to succeed. The replies of the relay server are a parameter: a
-- function from a state of the world; an answer that is no JSON, whose `ValueError` would end the call,
-- is not among them. The numbers of JSON are whole. Loops are structural recursion
-- on the list that they run over; `recv_through` has a round for each byte, which is enough. The
-- bounds 10,000 and 2,000 of `_client_window` are arguments of `client_window`.
--
-- In the push relay, Firestore is a parameter, with the laws of its documents for one client at a
-- time; so are SHA-256, the check of a signature, HMAC, base64, `json.loads` and the answers of FCM.
-- What is random is an argument. A handler reads the clock once. A batch of writes is written as a
-- whole. An error that a handler does not catch is the status 500.
--
-- Not modelled: sockets, HTTP, files and cryptography; the rows of AMI endpoints and the other
-- connectors; the Signals and the call rows of the home payload; the usage report and the HTML pages.
pub mod Prelude
pub mod Snapshot
pub mod Signals
pub mod CallKind
pub mod Activity
pub mod LastActive
pub mod Live
pub mod RateLimit
pub mod Json
pub mod Relay
pub mod Session
pub mod Home
pub mod Devices
pub mod Diagnostics
pub mod Server
pub mod Ami
pub mod Tests
