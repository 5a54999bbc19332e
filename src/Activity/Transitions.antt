-- ===== src/Activity/Transitions.antt =====
-- `ActivityTracker` and its `_record_transitions` of pbxsense_agent/pulse.py: the queues, the
-- trunks, the phones and the voicemail, in the order of the code.
use pbxpulse_agent.Prelude.{
  ℕ, ◌+◌, String, Bool, false, not, ◌&&◌, ◌||◌, Option, none, some, List, [], ◌∷◌, ◌++◌, leb,
  nat_eq, if◌then◌else◌, keep, length, concat, decimal, join,
}
use pbxpulse_agent.Prelude.Dict
use pbxpulse_agent.Prelude.Dict.{Dict}
use pbxpulse_agent.Prelude.Sets
use pbxpulse_agent.Activity.Moment.{
  MomentState, ActivityEvent, make_event, waiting_of, all_recovered,
}

pub record ActivityTracker : Type 0 where
  pub keep_for : ℕ
  pub phone_outage_confirmation : ℕ
  pub phone_recovery_confirmation : ℕ
  pub previous : Option MomentState
  pub events : List ActivityEvent
  pub reported_phone_recoveries : Dict ℕ
  pub outstanding_phone_outages : List String
  pub phone_outage_started_at : Dict ℕ
  pub phone_recovery_started_at : Dict ℕ
  pub busy_queues : Dict (List String)
  pub recovered_trunks_waiting_for_call : List String

abbrev pub add_event : ActivityTracker → ActivityEvent → ActivityTracker
add_event t e = record t { events = t.events ++ e ∷ [] }

-- Queues.
unfoldable pub mark_busy : List String → Dict (List String) → Dict ℕ → Dict (List String)
mark_busy keys busy [] = busy
mark_busy keys busy ((queue, waiting) ∷ l) =
    mark_busy keys (if leb 2 waiting then Dict.set_default busy queue keys else busy) l

unfoldable pub queue_cleared : ℕ → String → ℕ → ActivityEvent
queue_cleared now queue waiting =
    make_event now "pbx_queue_cleared_activity"
      (concat (queue ∷ " has cleared its waiting callers." ∷ []))
      (concat ("The queue moved from " ∷ decimal waiting ∷ " waiting caller(s) to none." ∷ []))
      "The PBX queue snapshot no longer reports callers waiting."
      (("queue", queue) ∷ ("previous_waiting_callers", decimal waiting) ∷ []) queue "activity"

unfoldable pub busy_period_completed : ℕ → String → ActivityEvent
busy_period_completed now queue =
    make_event now "busy_period_completed_without_abandonment"
      (concat (queue ∷ " cleared a busy period without an abandonment." ∷ []))
      "Waiting callers were cleared without a new abandoned queue call."
      "PBXSense observed queue pressure reach at least two callers, then return to zero."
      (("queue", queue) ∷ ("peak_confirmed_waiting", "2+") ∷ []) queue "moment"

-- `abandonment_baseline is not None and … == abandonment_baseline`
abbrev pub same_baseline : List String → Option (List String) → Bool
same_baseline keys none = false
same_baseline keys (some baseline) = Sets.same keys baseline

unfoldable pub clear_queue : MomentState → ℕ → ActivityTracker → String → ℕ → ActivityTracker
clear_queue current now t queue waiting =
    let cleared = add_event t (queue_cleared now queue waiting) in
    let popped = record cleared { busy_queues = Dict.pop t.busy_queues queue } in
    if leb waiting 0 || not (nat_eq (Dict.get_default (waiting_of current) queue 0) 0)
    then t
    else if same_baseline current.queue_abandonment_keys (Dict.get t.busy_queues queue)
    then add_event popped (busy_period_completed now queue)
    else popped

unfoldable pub clear_queues : MomentState → ℕ → ActivityTracker → Dict ℕ → ActivityTracker
clear_queues current now t [] = t
clear_queues current now t ((queue, waiting) ∷ l) =
    clear_queues current now (clear_queue current now t queue waiting) l

unfoldable pub record_queues : MomentState → MomentState → ℕ → ActivityTracker → ActivityTracker
record_queues previous current now t =
    let before = waiting_of previous in
    let marked = mark_busy previous.queue_abandonment_keys t.busy_queues before in
    let marked' = mark_busy current.queue_abandonment_keys marked (waiting_of current) in
    clear_queues current now (record t { busy_queues = marked' }) before

-- Trunks.
unfoldable pub trunk_recovery : ℕ → String → ActivityEvent
trunk_recovery now trunk =
    make_event now "trunk_recovery_successful_call"
      (concat ("Trunk " ∷ trunk ∷ " recovered and is carrying a call." ∷ []))
      "The restored trunk has confirmed its recovery with live traffic."
      "The trunk changed from unavailable to reachable and later appeared on an active call."
      (("trunk", trunk) ∷ []) trunk "moment"

unfoldable pub add_trunk_events : ℕ → ActivityTracker → List String → ActivityTracker
add_trunk_events now t [] = t
add_trunk_events now t (trunk ∷ l) = add_trunk_events now (add_event t (trunk_recovery now trunk)) l

unfoldable pub record_trunks : MomentState → MomentState → ℕ → ActivityTracker → ActivityTracker
record_trunks previous current now t =
    let recovered = Sets.diff previous.unavailable_trunks current.unavailable_trunks in
    let waiting = Sets.union recovered t.recovered_trunks_waiting_for_call in
    let successful = Sets.inter waiting current.active_trunks in
    let t' = add_trunk_events now t (Sets.sorted successful) in
    record t' { recovered_trunks_waiting_for_call = Sets.diff waiting successful }

-- Phones.
unfoldable pub set_defaults : ℕ → Dict ℕ → List String → Dict ℕ
set_defaults now d [] = d
set_defaults now d (x ∷ l) = set_defaults now (Dict.set_default d x now) l

unfoldable pub set_all : ℕ → Dict ℕ → List String → Dict ℕ
set_all now d [] = d
set_all now d (x ∷ l) = set_all now (Dict.put d x now) l

unfoldable pub pop_all : Dict ℕ → List String → Dict ℕ
pop_all d [] = d
pop_all d (x ∷ l) = pop_all (Dict.pop d x) l

-- `now - started[x] >= period`; the code reads a key that is there.
abbrev pub since_at_least : ℕ → Option ℕ → ℕ → Bool
since_at_least period none now = false
since_at_least period (some started) now = leb (started + period) now

-- The extensions that are listed again and no longer unavailable.
unfoldable pub recovered_phones : ActivityTracker → MomentState → List String
recovered_phones t current =
    Sets.inter t.outstanding_phone_outages
      (Sets.diff current.monitored_extensions current.unavailable_extensions)

unfoldable pub recovery_times : ActivityTracker → MomentState → ℕ → Dict ℕ
recovery_times t current now =
    let recovered = recovered_phones t current in
    set_defaults now (Dict.keep_keys (λ x. Sets.member x recovered) t.phone_recovery_started_at)
      recovered

unfoldable pub new_recoveries : ActivityTracker → MomentState → ℕ → List String
new_recoveries t current now =
    keep
      (λ x.
        not (Dict.has t.reported_phone_recoveries x)
        && since_at_least t.phone_recovery_confirmation (Dict.get (recovery_times t current now) x)
            now)
      (recovered_phones t current)

unfoldable pub phones_recovered : ℕ → List String → List String → ActivityEvent
phones_recovered now recovered [] =
    make_event now "pbx_phone_recovered_activity" all_recovered
      "The previously unavailable phone(s) recovered."
      "An endpoint changed from unavailable to reachable."
      (("recovered_extensions", join "," (Sets.sorted recovered))
        ∷ ("remaining_unavailable_extensions", "")
        ∷ [])
      "" "activity"
phones_recovered now recovered (x ∷ l) =
    let count = length recovered in
    make_event now "pbx_phone_recovered_activity"
      (concat (
        decimal count
        ∷ " phone"
        ∷ (if nat_eq count 1 then "" else "s")
        ∷ " came back online."
        ∷ []))
      "PBXSense saw the phone availability recover."
      "An endpoint changed from unavailable to reachable."
      (("recovered_extensions", join "," (Sets.sorted recovered))
        ∷ ("remaining_unavailable_extensions", join "," (Sets.sorted (x ∷ l)))
        ∷ [])
      "" "activity"

unfoldable pub record_phones : MomentState → ℕ → ActivityTracker → ActivityTracker
record_phones current now t =
    let times = recovery_times t current now in
    let recovered = new_recoveries t current now in
    let remaining = Sets.diff t.outstanding_phone_outages recovered in
    let recorded = record t {
      outstanding_phone_outages = remaining;
      phone_recovery_started_at = pop_all times recovered;
      reported_phone_recoveries = set_all now t.reported_phone_recoveries recovered;
    } in
    if nat_eq (length recovered) 0
    then record t { phone_recovery_started_at = times }
    else add_event recorded (phones_recovered now recovered remaining)

-- Voicemail.
unfoldable pub voicemail_received : ℕ → ℕ → ActivityEvent
voicemail_received now count =
    make_event now "pbx_voicemail_received_activity"
      (if nat_eq count 1
        then "A new voicemail arrived."
        else concat (decimal count ∷ " new voicemails arrived." ∷ []))
      "The PBX recorded new voicemail since the previous snapshot."
      "The local voicemail history contains new messages." (("new_voicemails", decimal count) ∷ [])
      "" "activity"

unfoldable pub record_voicemail : MomentState → MomentState → ℕ → ActivityTracker → ActivityTracker
record_voicemail previous current now t =
    let count = length (Sets.diff current.voicemail_keys previous.voicemail_keys) in
    if nat_eq count 0 then t else add_event t (voicemail_received now count)

unfoldable pub record_transitions :
    MomentState → MomentState → ℕ → ActivityTracker → ActivityTracker
record_transitions previous current now t = record_voicemail previous current now (
    record_phones current now
      (record_trunks previous current now (record_queues previous current now t)))
