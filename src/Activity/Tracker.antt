-- ===== src/Activity/Tracker.antt =====
-- `ActivityTracker.observe` of pbxsense_agent/pulse.py. The lock serialises the calls.

use mathlib.Core.List.{reverse}
use pbxpulse_agent.Prelude.{
  ℕ, ◌+◌, String, Bool, Option, none, some, List, [], ◌∷◌, leb, if◌then◌else◌, keep,
}
use pbxpulse_agent.Prelude.Dict
use pbxpulse_agent.Prelude.Dict.{Dict}
use pbxpulse_agent.Prelude.Sets
use pbxpulse_agent.Snapshot.{AmiSnapshot}
use pbxpulse_agent.Activity.Moment.{MomentState, ActivityEvent, moment_state, is_still_current}
use pbxpulse_agent.Activity.Transitions.{ActivityTracker, since_at_least, record_transitions}

abbrev pub init : ℕ → ℕ → ℕ → ActivityTracker
init keep_for outage recovery = record {
  keep_for = keep_for;
  phone_outage_confirmation = outage;
  phone_recovery_confirmation = recovery;
  previous = none;
  events = [];
  reported_phone_recoveries = [];
  outstanding_phone_outages = [];
  phone_outage_started_at = [];
  phone_recovery_started_at = [];
  busy_queues = [];
  recovered_trunks_waiting_for_call = [];
}

-- One unavailable extension: the start of its outage, and the outage's confirmation.
unfoldable pub observe_outage : ℕ → ActivityTracker → String → ActivityTracker
observe_outage now t x =
    let started = Dict.set_default t.phone_outage_started_at x now in
    if since_at_least t.phone_outage_confirmation (Dict.get started x) now
    then record t {
      phone_outage_started_at = started;
      reported_phone_recoveries = Dict.pop t.reported_phone_recoveries x;
      phone_recovery_started_at = Dict.pop t.phone_recovery_started_at x;
      outstanding_phone_outages = Sets.add x t.outstanding_phone_outages;
    }
    else record t { phone_outage_started_at = started }

unfoldable pub observe_outages : ℕ → ActivityTracker → List String → ActivityTracker
observe_outages now t [] = t
observe_outages now t (x ∷ l) = observe_outages now (observe_outage now t x) l

unfoldable pub record_since :
    Option MomentState → MomentState → ℕ → ActivityTracker → ActivityTracker
record_since none current now t = t
record_since (some previous) current now t = record_transitions previous current now t

-- The part of `observe` for a PBX that answered.
unfoldable pub observe_reachable : MomentState → ℕ → ActivityTracker → ActivityTracker
observe_reachable current now t =
    let out = current.unavailable_extensions in
    let started = Dict.keep_keys (λ x. Sets.member x out) t.phone_outage_started_at in
    let t' = observe_outages now (record t { phone_outage_started_at = started }) out in
    let t'' = record_since t.previous current now t' in
    record t'' {
      events = keep (λ e. is_still_current e current) t''.events;
      previous = some current;
    }

-- `observed_at >= now - keep_for`
abbrev pub is_recent : ℕ → ℕ → ℕ → Bool
is_recent keep_for now observed_at = leb now (observed_at + keep_for)

unfoldable pub expire : ℕ → ActivityTracker → ActivityTracker
expire now t = record t {
  events = keep (λ e. is_recent t.keep_for now e.observed_at) t.events;
  reported_phone_recoveries =
      Dict.keep_values (is_recent t.keep_for now) t.reported_phone_recoveries;
}

unfoldable pub observe : ActivityTracker → AmiSnapshot → ℕ → ActivityTracker × List ActivityEvent
observe t snapshot now =
    let current = moment_state snapshot in
    let seen = if snapshot.reachable then observe_reachable current now t else t in
    let after = expire now seen in (after, reverse after.events)
