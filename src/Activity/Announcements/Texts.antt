-- ===== src/Activity/Announcements/Texts.antt =====
-- What the events on recovered phones name: only `record_phones` adds one.
use mathlib.Core.Path.{ap₂}
use pbxpulse_agent.Prelude.{
  ℕ, String, ◌≡◌, refl, ◌∙◌, ap, sym, false, not, ◌||◌, Option, none, some, List, [], ◌∷◌, ◌++◌,
  arith, ◌==◌, eq_iff, leb, if◌then◌else◌, is_some, nat_eq, length, join, Bool-cases, inl, inr,
}
use pbxpulse_agent.Prelude.Dict
use pbxpulse_agent.Prelude.Dict.{Dict}
use pbxpulse_agent.Prelude.Sets
use pbxpulse_agent.Activity.Moment.{MomentState, ActivityEvent, waiting_of, make_event}
use pbxpulse_agent.Activity.Transitions.{
  ActivityTracker, add_event, clear_queue, clear_queues, record_queues, add_trunk_events,
  record_trunks, record_phones, phones_recovered, record_voicemail, queue_cleared,
  busy_period_completed, same_baseline, trunk_recovery, new_recoveries, voicemail_received,
  record_transitions,
}
use pbxpulse_agent.Activity.Tracker.{observe_outage, observe_outages, record_since}
use pbxpulse_agent.Activity.Recoveries.{
  record_queues-SamePhones, record_trunks-SamePhones, new_recoveries-SamePhones,
}

abbrev pub recovered_kind : String
recovered_kind = "pbx_phone_recovered_activity"

-- The extensions that an event names as recovered, as the text of its field.
abbrev pub recovered_text : ActivityEvent → String
recovered_text e = Dict.get_default e.technical "recovered_extensions" ""

-- What the events on recovered phones name, in their order.
unfoldable pub recovery_texts : List ActivityEvent → List String
recovery_texts [] = []
recovery_texts (e ∷ l) =
    let rest = recovery_texts l in
    if e.kind == recovered_kind then recovered_text e ∷ rest else rest

pub observe_outages-events :
    (now : ℕ) (t : ActivityTracker) (l : List String) → (observe_outages now t l).events ≡ t.events
unfolding observe_outages observe_outage
observe_outages-events now t [] = refl
observe_outages-events now t (x ∷ l) =
    ground (arith, observe_outages-events now (observe_outage now t x) l)

recovery_texts-append :
    (l : List ActivityEvent) (e : ActivityEvent)
    → recovery_texts (l ++ e ∷ [])
      ≡ recovery_texts l ++ (if e.kind == recovered_kind then recovered_text e ∷ [] else [])
unfolding recovery_texts
recovery_texts-append [] e = ground arith
recovery_texts-append (x ∷ l) e = ground (arith, recovery_texts-append l e)

pub append_none : (l : List String) → l ++ [] ≡ l
append_none [] = refl
append_none (x ∷ l) = ap (◌∷◌ x) (append_none l)

abbrev texts : ActivityTracker → List String
texts t = recovery_texts t.events

add_event-other :
    (t : ActivityTracker) (e : ActivityEvent)
    → e.kind == recovered_kind ≡ false
    → texts (add_event t e) ≡ texts t
add_event-other t e h = recovery_texts-append t.events e ∙ rw h (append_none (texts t))

add_event-named :
    (t : ActivityTracker) (e : ActivityEvent) (s : String)
    → e.kind ≡ recovered_kind
    → recovered_text e ≡ s
    → texts (add_event t e) ≡ texts t ++ s ∷ []
add_event-named t e s k h =
    recovery_texts-append t.events e ∙ rw ((eq_iff e.kind recovered_kind).1 k, h) refl

clear_queue-texts :
    (current : MomentState) (now : ℕ) (t : ActivityTracker) (queue : String) (waiting : ℕ)
    → texts (clear_queue current now t queue waiting) ≡ texts t
unfolding clear_queue queue_cleared busy_period_completed make_event
clear_queue-texts current now t queue waiting =
    let cleared = queue_cleared now queue waiting in
    let completed = busy_period_completed now queue in
    let one = add_event-other t cleared refl in
    let two = add_event-other (add_event t cleared) completed refl ∙ one in
    elim (Bool-cases
      (leb waiting 0 || not (nat_eq (Dict.get_default (waiting_of current) queue 0) 0))) [
        | inl e ↦ rw (e) refl
        | inr e ↦
            elim (Bool-cases
              (same_baseline current.queue_abandonment_keys (Dict.get t.busy_queues queue))) [
                | inl f ↦ rw (e, f) two
                | inr f ↦ rw (e, f) one
              ]
      ]

clear_queues-texts :
    (current : MomentState) (now : ℕ) (t : ActivityTracker) (d : Dict ℕ)
    → texts (clear_queues current now t d) ≡ texts t
unfolding clear_queues
clear_queues-texts current now t [] = refl
clear_queues-texts current now t ((queue, waiting) ∷ d) =
    clear_queues-texts current now (clear_queue current now t queue waiting) d
    ∙ clear_queue-texts current now t queue waiting

record_queues-texts :
    (previous current : MomentState) (now : ℕ) (t : ActivityTracker)
    → texts (record_queues previous current now t) ≡ texts t
unfolding record_queues
record_queues-texts previous current now t = clear_queues-texts current now _ (waiting_of previous)

add_trunk_events-texts :
    (now : ℕ) (t : ActivityTracker) (l : List String) → texts (add_trunk_events now t l) ≡ texts t
unfolding add_trunk_events trunk_recovery make_event
add_trunk_events-texts now t [] = refl
add_trunk_events-texts now t (x ∷ l) =
    add_trunk_events-texts now (add_event t (trunk_recovery now x)) l
    ∙ add_event-other t (trunk_recovery now x) refl

record_trunks-texts :
    (previous current : MomentState) (now : ℕ) (t : ActivityTracker)
    → texts (record_trunks previous current now t) ≡ texts t
unfolding record_trunks
record_trunks-texts previous current now t = add_trunk_events-texts now t _

record_voicemail-texts :
    (previous current : MomentState) (now : ℕ) (t : ActivityTracker)
    → texts (record_voicemail previous current now t) ≡ texts t
unfolding record_voicemail voicemail_received make_event
record_voicemail-texts previous current now t =
    let count = length (Sets.diff current.voicemail_keys previous.voicemail_keys) in
    elim (Bool-cases (nat_eq count 0)) [
      | inl e ↦ rw (e) refl
      | inr e ↦ rw (e) (add_event-other t (voicemail_received now count) refl)
    ]

-- What the announcement of these extensions names: one text, if there are any.
abbrev pub announcement : List String → List String
announcement [] = []
announcement (x ∷ l) = join "," (Sets.sorted (x ∷ l)) ∷ []

announcement-length :
    (l : List String)
    → announcement l ≡ (if nat_eq (length l) 0 then [] else join "," (Sets.sorted l) ∷ [])
announcement-length [] = refl
announcement-length (x ∷ l) = ground arith

phones_recovered-text :
    (now : ℕ) (l m : List String)
    → ((phones_recovered now l m).kind ≡ recovered_kind)
      × (recovered_text (phones_recovered now l m) ≡ join "," (Sets.sorted l))
unfolding phones_recovered make_event Dict.get
phones_recovered-text now l [] = (refl, refl)
phones_recovered-text now l (x ∷ m) = (refl, refl)

record_phones-texts :
    (current : MomentState) (now : ℕ) (t : ActivityTracker)
    → texts (record_phones current now t) ≡ texts t ++ announcement (new_recoveries t current now)
unfolding record_phones
record_phones-texts current now t =
    let l = new_recoveries t current now in
    let e = phones_recovered now l (Sets.diff t.outstanding_phone_outages l) in
    let (kind, text) = phones_recovered-text now l (Sets.diff t.outstanding_phone_outages l) in
    elim (Bool-cases (nat_eq (length l) 0)) [
      | inl n ↦ rw (announcement-length l, n) (sym (append_none (texts t)))
      | inr n ↦
          rw (announcement-length l, n) (add_event-named t e (join "," (Sets.sorted l)) kind text)
    ]

record_transitions-texts :
    (previous current : MomentState) (now : ℕ) (t : ActivityTracker)
    → texts (record_transitions previous current now t)
      ≡ texts t ++ announcement (new_recoveries t current now)
unfolding record_transitions
record_transitions-texts previous current now t =
    let q = record_queues previous current now t in
    let h = record_queues-SamePhones previous current now t in
    let k = record_trunks-SamePhones previous current now q in
    let u = record_trunks previous current now q in
    record_voicemail-texts previous current now _
    ∙ record_phones-texts current now u
    ∙ ap₂ (λ a b. a ++ announcement b)
        (record_trunks-texts previous current now q ∙ record_queues-texts previous current now t)
        (new_recoveries-SamePhones q u current now k ∙ new_recoveries-SamePhones t q current now h)

pub record_since-texts :
    (previous : Option MomentState) (current : MomentState) (now : ℕ) (t : ActivityTracker)
    → texts (record_since previous current now t)
      ≡ texts t ++ announcement (if is_some previous then new_recoveries t current now else [])
unfolding record_since
record_since-texts none current now t = sym (append_none (texts t))
record_since-texts (some p) current now t = record_transitions-texts p current now t
