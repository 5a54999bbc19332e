-- ===== src/Signals.antt =====
-- `EndpointAvailabilitySignalTracker` and `EndpointAggregateTipTracker` of pbxsense_agent/pulse.py.
-- The lock serialises the calls, so that an observation is one function from state to state.
pub mod Pointwise
pub mod Episodes
pub mod Tracking
pub mod Runs
use pbxpulse_agent.Prelude.{
  ℕ, ◌+◌, ◌<◌, String, Bool, true, false, not, ◌&&◌, Option, none, some, List, [], ◌∷◌, ◌==◌, ltb,
  leb, if◌then◌else◌, is_some, is_truthy, concat, decimal, keep, map, count_if,
}
use pbxpulse_agent.Prelude.Dict
use pbxpulse_agent.Prelude.Dict.{Dict}
use pbxpulse_agent.Prelude.Sets
use pbxpulse_agent.Snapshot.{AmiEndpoint, AmiSnapshot, endpoint_unavailable, is_trunk}

pub record EndpointSignalState : Type 0 where
  pub outage_started_at : Option ℕ
  pub recovery_started_at : Option ℕ
  pub episode_notified : Bool
  pub signal_visible : Bool
  pub notification_id : String

abbrev pub fresh : EndpointSignalState
fresh = record {
  outage_started_at = none;
  recovery_started_at = none;
  episode_notified = false;
  signal_visible = false;
  notification_id = "";
}

pub record SignalTracker : Type 0 where
  pub outage_confirmation : ℕ
  pub recovery_confirmation : ℕ
  pub role : String
  pub states : Dict EndpointSignalState

abbrev pub init : ℕ → ℕ → String → SignalTracker
init outage recovery role = record {
  outage_confirmation = outage;
  recovery_confirmation = recovery;
  role = role;
  states = [];
}

-- `now - started >= period`; the code reads it only where `started` is set.
abbrev pub elapsed : ℕ → Option ℕ → ℕ → Bool
elapsed period none now = false
elapsed period (some started) now = leb (started + period) now

unfoldable pub fresh_id : String → ℕ → String
fresh_id extension now = concat ("sig_endpoint_" ∷ extension ∷ "_unavailable_" ∷ decimal now ∷ [])

-- The start of an outage: a new one, or one that cuts a recovery short.
unfoldable pub begin_outage : ℕ → EndpointSignalState → EndpointSignalState
begin_outage now state =
    if is_some state.recovery_started_at
    then record state {
      recovery_started_at = none;
      outage_started_at = some now;
      episode_notified = false;
      signal_visible = false;
      notification_id = "";
    }
    else if is_some state.outage_started_at
    then state
    else record state { outage_started_at = some now }

unfoldable pub ensure_id : String → ℕ → EndpointSignalState → EndpointSignalState
ensure_id extension now state =
    if is_truthy state.notification_id
    then state
    else record state { notification_id = fresh_id extension now }

unfoldable pub confirm_outage : ℕ → ℕ → EndpointSignalState → EndpointSignalState
confirm_outage confirmation now state =
    if not state.episode_notified && elapsed confirmation state.outage_started_at now
    then record state { episode_notified = true; signal_visible = true }
    else state

-- The branch of `observe` for an endpoint that is unavailable.
unfoldable pub observe_unavailable : ℕ → String → ℕ → EndpointSignalState → EndpointSignalState
unfolding begin_outage ensure_id confirm_outage
observe_unavailable confirmation extension now state =
    confirm_outage confirmation now (ensure_id extension now (begin_outage now state))

-- The branch for a reachable endpoint; `none` is `self._states.pop(extension, None)`.
unfoldable pub observe_available : ℕ → ℕ → EndpointSignalState → Option EndpointSignalState
observe_available confirmation now state =
    if not state.episode_notified
    then none
    else if not (is_some state.recovery_started_at)
    then some (record state {
      outage_started_at = none;
      signal_visible = false;
      recovery_started_at = some now;
    })
    else if elapsed confirmation state.recovery_started_at now
    then none
    else some (record state { outage_started_at = none; signal_visible = false })

-- One round of the loop over `endpoints.items()`: the states and the visible extensions.
unfoldable pub observe_endpoint :
    SignalTracker
    → ℕ
    → Dict EndpointSignalState × List String
    → String
    → AmiEndpoint
    → Dict EndpointSignalState × List String
observe_endpoint t now (states, visible) extension endpoint =
    let state = Dict.get_default states extension fresh in
    if endpoint_unavailable endpoint
    then (let after = observe_unavailable t.outage_confirmation extension now state in
        (
          Dict.put states extension after,
          if after.signal_visible then Sets.add extension visible else visible,
        ))
    else (
      Dict.update states extension (observe_available t.recovery_confirmation now state),
      visible,
    )

unfoldable pub observe_all :
    SignalTracker
    → ℕ
    → Dict EndpointSignalState × List String
    → Dict AmiEndpoint
    → Dict EndpointSignalState × List String
observe_all t now acc [] = acc
observe_all t now acc ((extension, endpoint) ∷ rest) =
    observe_all t now (observe_endpoint t now acc extension endpoint) rest

-- `(endpoint.role == "trunk") == (self._role == "trunk")`
unfoldable pub has_role : String → AmiEndpoint → Bool
unfolding is_trunk
has_role role endpoint = if role == "trunk" then is_trunk endpoint else not (is_trunk endpoint)

unfoldable pub monitored : String → List AmiEndpoint → Dict AmiEndpoint
monitored role endpoints =
    Dict.from_entries [] (map (λ e. (e.extension, e)) (keep (has_role role) endpoints))

-- `observe`: the tracker afterwards, and the extensions whose Signal is to be shown.
unfoldable pub observe : SignalTracker → AmiSnapshot → ℕ → SignalTracker × List String
observe t snapshot now =
    let endpoints = monitored t.role snapshot.endpoints in
    let kept = Dict.keep_keys (Dict.has endpoints) t.states in
    let (states, visible) = observe_all t now (kept, []) endpoints in
    if snapshot.reachable then (record t { states = states }, visible) else (t, [])

-- `notification_ids`
visible_ids : Dict EndpointSignalState → Dict String
visible_ids [] = []
visible_ids ((extension, state) ∷ rest) =
    let others = visible_ids rest in
    if state.signal_visible && is_truthy state.notification_id
    then (extension, state.notification_id) ∷ others
    else others

unfoldable pub notification_ids : SignalTracker → Dict String
unfolding visible_ids
notification_ids t = visible_ids t.states

-- `EndpointAggregateTipTracker`
pub record TipTracker : Type 0 where
  pub delay : ℕ
  pub started_at : Option ℕ

unfoldable pub unavailable_phones : List AmiEndpoint → ℕ
unavailable_phones = count_if (λ e. not (is_trunk e) && endpoint_unavailable e)

-- `self._started_at = self._started_at or now`: a `datetime` is always true.
abbrev started_or : Option ℕ → ℕ → ℕ
started_or none now = now
started_or (some t) now = t

unfoldable pub observe_tip : TipTracker → AmiSnapshot → ℕ → TipTracker × Bool
observe_tip t snapshot now =
    if ltb (unavailable_phones snapshot.endpoints) 2
    then (record t { started_at = none }, false)
    else (
      record t { started_at = some (started_or t.started_at now) },
      leb (started_or t.started_at now + t.delay) now,
    )
