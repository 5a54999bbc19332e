-- ===== src/Activity/Retention.antt =====
-- What the tracker keeps and shows of its events: none older than `keep_for`, the newest first, and
-- none that the PBX's present state contradicts.
use mathlib.Core.Path.{subst}
use mathlib.Core.List.{reverse, reverse-cons}
use pbxpulse_agent.Prelude.{
  ℕ, ◌+◌, ◌≤◌, String, ◌≡◌, refl, Bool, true, false, Option, none, some, List, [], ◌∷◌, arith, keep,
  All, leb, not, ◌||◌, nat_eq, length, All-append, ◌==◌, eq_iff, Bool-cases, inl, inr, sym, ◌∙◌,
  any, is_truthy, split,
}
use pbxpulse_agent.Prelude.Dict
use pbxpulse_agent.Prelude.Dict.{Dict}
use pbxpulse_agent.Prelude.Sets
use pbxpulse_agent.Snapshot.{AmiSnapshot}
use pbxpulse_agent.Activity.Recoveries.{record_queues-SamePhones, record_trunks-SamePhones}
use pbxpulse_agent.Activity.Moment.{
  MomentState, ActivityEvent, moment_state, waiting_of, is_still_current, make_event, all_recovered,
}
use pbxpulse_agent.Activity.Transitions.{
  ActivityTracker, add_event, clear_queue, clear_queues, record_queues, add_trunk_events,
  record_trunks, record_phones, phones_recovered, record_voicemail, queue_cleared,
  busy_period_completed, same_baseline, trunk_recovery, new_recoveries, voicemail_received,
  record_transitions,
}
use pbxpulse_agent.Activity.Tracker.{
  observe_outage, observe_outages, record_since, observe_reachable, expire, observe,
}

All-keep {ℓ} :
    {A : Type ℓ} (P Q : A → Type 0) (p : A → Bool) (l : List A)
    → ((a : A) → p a ≡ true → P a → Q a)
    → All P l
    → All Q (keep p l)
All-keep P Q p [] f h = tt
All-keep P Q p (x ∷ l) f h = elim (Bool-cases (p x)) [
  | inl e ↦ rw e (f x e h.0, All-keep P Q p l f h.1)
  | inr e ↦ rw e (All-keep P Q p l f h.1)
]

All-reverse {ℓ} : {A : Type ℓ} (P : A → Type 0) (l : List A) → All P l → All P (reverse l)
All-reverse P [] h = tt
All-reverse P (x ∷ l) h =
    rw reverse-cons (All-append P (reverse l) (x ∷ []) (All-reverse P l h.1) (h.0, tt))

-- What holds of every event of the present time holds of every event that the transitions add.
module _ (now : ℕ) (P : ActivityEvent → Type 0)
    (fresh : (e : ActivityEvent) → e.observed_at ≡ now → P e) where
  add_event-All :
      (t : ActivityTracker) (e : ActivityEvent)
      → e.observed_at ≡ now
      → All P t.events
      → All P (add_event t e).events
  add_event-All t e h k = All-append P t.events (e ∷ []) k (fresh e h, tt)

  clear_queue-All :
      (current : MomentState) (t : ActivityTracker) (queue : String) (waiting : ℕ)
      → All P t.events
      → All P (clear_queue current now t queue waiting).events
  unfolding clear_queue queue_cleared busy_period_completed make_event
  clear_queue-All current t queue waiting h =
      let cleared = queue_cleared now queue waiting in
      let completed = busy_period_completed now queue in
      let one = add_event-All t cleared refl h in
      let two = add_event-All (add_event t cleared) completed refl one in
      elim (Bool-cases
        (leb waiting 0 || not (nat_eq (Dict.get_default (waiting_of current) queue 0) 0))) [
          | inl e ↦ rw (e) h
          | inr e ↦
              elim (Bool-cases
                (same_baseline current.queue_abandonment_keys (Dict.get t.busy_queues queue))) [
                  | inl f ↦ rw (e, f) two
                  | inr f ↦ rw (e, f) one
                ]
        ]

  clear_queues-All :
      (current : MomentState) (t : ActivityTracker) (d : Dict ℕ)
      → All P t.events
      → All P (clear_queues current now t d).events
  unfolding clear_queues
  clear_queues-All current t [] h = h
  clear_queues-All current t ((queue, waiting) ∷ d) h =
      clear_queues-All current (clear_queue current now t queue waiting) d
        (clear_queue-All current t queue waiting h)

  add_trunk_events-All :
      (t : ActivityTracker) (l : List String)
      → All P t.events
      → All P (add_trunk_events now t l).events
  unfolding add_trunk_events trunk_recovery make_event
  add_trunk_events-All t [] h = h
  add_trunk_events-All t (x ∷ l) h =
      add_trunk_events-All (add_event t (trunk_recovery now x)) l
        (add_event-All t (trunk_recovery now x) refl h)

  phones_recovered-now : (l m : List String) → (phones_recovered now l m).observed_at ≡ now
  unfolding phones_recovered make_event
  phones_recovered-now l [] = refl
  phones_recovered-now l (x ∷ m) = refl

  record_phones-All :
      (current : MomentState) (t : ActivityTracker)
      → All P t.events
      → All P (record_phones current now t).events
  unfolding record_phones
  record_phones-All current t h =
      elim (Bool-cases (nat_eq (length (new_recoveries t current now)) 0)) [
        | inl e ↦ rw (e) h
        | inr e ↦ rw (e) (add_event-All t _ (phones_recovered-now _ _) h)
      ]

  record_voicemail-All :
      (previous current : MomentState) (t : ActivityTracker)
      → All P t.events
      → All P (record_voicemail previous current now t).events
  unfolding record_voicemail voicemail_received make_event
  record_voicemail-All previous current t h =
      let count = length (Sets.diff current.voicemail_keys previous.voicemail_keys) in
      elim (Bool-cases (nat_eq count 0)) [
        | inl e ↦ rw (e) h
        | inr e ↦ rw (e) (add_event-All t (voicemail_received now count) refl h)
      ]

  record_transitions-All :
      (previous current : MomentState) (t : ActivityTracker)
      → All P t.events
      → All P (record_transitions previous current now t).events
  unfolding record_transitions record_trunks record_queues
  record_transitions-All previous current t h = record_voicemail-All previous current _ (
      record_phones-All current _
        (add_trunk_events-All _ _ (clear_queues-All current _ (waiting_of previous) h)))

  record_since-All :
      (previous : Option MomentState) (current : MomentState) (t : ActivityTracker)
      → All P t.events
      → All P (record_since previous current now t).events
  unfolding record_since
  record_since-All none current t h = h
  record_since-All (some p) current t h = record_transitions-All p current t h

observe_outages-events :
    (now : ℕ) (t : ActivityTracker) (l : List String) → (observe_outages now t l).events ≡ t.events
unfolding observe_outages observe_outage
observe_outages-events now t [] = refl
observe_outages-events now t (x ∷ l) =
    ground (arith, observe_outages-events now (observe_outage now t x) l)

-- An event's time is not in the future, and not older than the tracker keeps events for.
abbrev pub IsCurrent : ℕ → ℕ → ActivityEvent → Type 0
IsCurrent keep_for now e = (e.observed_at ≤ now) × (now ≤ e.observed_at + keep_for)

-- Nothing in the present moment contradicts the event: a queue that was cleared has no caller
-- waiting, when all phones were back none is unavailable, and else no phone that the event names as
-- recovered is unavailable.
abbrev pub recovered_names : ActivityEvent → List String
recovered_names e =
    keep is_truthy (split b',' (Dict.get_default e.technical "recovered_extensions" ""))

abbrev pub Agrees : MomentState → ActivityEvent → Type 0
Agrees current e =
    (e.kind ≡ "pbx_queue_cleared_activity"
      → Dict.get_default (waiting_of current) (Dict.get_default e.technical "queue" "") 0 ≡ 0)
    × (e.kind ≡ "pbx_phone_recovered_activity"
        → e.title ≡ all_recovered
        → current.unavailable_extensions ≡ [])
    × (e.kind ≡ "pbx_phone_recovered_activity"
        → e.title == all_recovered ≡ false
        → (x : String) → Sets.member x (recovered_names e) ≡ true
        → Sets.member x current.unavailable_extensions ≡ false)

record_transitions-keep_for :
    (previous current : MomentState) (now : ℕ) (t : ActivityTracker)
    → (record_transitions previous current now t).keep_for ≡ t.keep_for
unfolding record_transitions record_phones record_voicemail
record_transitions-keep_for previous current now t =
    let q = record_queues previous current now t in
    let h = record_queues-SamePhones previous current now t in
    let k = record_trunks-SamePhones previous current now q in
    ground (arith, h.keep_for, k.keep_for)

observe_outages-keep_for :
    (now : ℕ) (t : ActivityTracker) (l : List String)
    → (observe_outages now t l).keep_for ≡ t.keep_for
unfolding observe_outages observe_outage
observe_outages-keep_for now t [] = refl
observe_outages-keep_for now t (x ∷ l) =
    ground (arith, observe_outages-keep_for now (observe_outage now t x) l)

record_since-keep_for :
    (previous : Option MomentState) (current : MomentState) (now : ℕ) (t : ActivityTracker)
    → (record_since previous current now t).keep_for ≡ t.keep_for
unfolding record_since
record_since-keep_for none current now t = refl
record_since-keep_for (some p) current now t = record_transitions-keep_for p current now t

pub observe_reachable-keep_for :
    (current : MomentState) (now : ℕ) (t : ActivityTracker)
    → (observe_reachable current now t).keep_for ≡ t.keep_for
unfolding observe_reachable
observe_reachable-keep_for current now t =
    record_since-keep_for t.previous current now _
    ∙ observe_outages-keep_for now _ current.unavailable_extensions

empty_of_any : (l : List String) → any (λ _. true) l ≡ false → l ≡ []
empty_of_any [] h = refl
empty_of_any (x ∷ l) h = cc

disjoint_member :
    (x : String) (s t : List String)
    → Sets.is_disjoint s t ≡ true
    → Sets.member x s ≡ true
    → Sets.member x t ≡ false
unfolding Sets.is_disjoint Sets.member
disjoint_member x [] t h m = absurd (ground arith)
disjoint_member x (y ∷ s) t h m = ground (arith, eq_iff y x, disjoint_member x s t)

kinds_differ : ("pbx_phone_recovered_activity" == "pbx_queue_cleared_activity") ≡ false
kinds_differ = refl

is_still_current-Agrees :
    (current : MomentState) (e : ActivityEvent)
    → is_still_current e current ≡ true
    → Agrees current e
unfolding is_still_current
is_still_current-Agrees current e h = (
  λ k. ground (arith, eq_iff e.kind "pbx_queue_cleared_activity"),
  λ k t. ground (
    arith,
    subst (λ s. (s == "pbx_queue_cleared_activity") ≡ false) (sym k) kinds_differ,
    eq_iff e.kind "pbx_phone_recovered_activity",
    eq_iff e.title all_recovered,
    empty_of_any current.unavailable_extensions,
  ),
  λ k t x m. ground (
    arith,
    subst (λ s. (s == "pbx_queue_cleared_activity") ≡ false) (sym k) kinds_differ,
    eq_iff e.kind "pbx_phone_recovered_activity",
    disjoint_member x (recovered_names e) current.unavailable_extensions,
  ),
)

All-and {ℓ} :
    {A : Type ℓ} (P Q : A → Type 0) (l : List A) → All P l → All Q l → All (λ a. P a × Q a) l
All-and P Q [] h k = tt
All-and P Q (x ∷ l) h k = ((h.0, k.0), All-and P Q l h.1 k.1)

All-trivial {ℓ} : {A : Type ℓ} (l : List A) → All (λ _. Unit {0}) l
All-trivial [] = tt
All-trivial (x ∷ l) = (tt, All-trivial l)

abbrev IsPast : ℕ → ActivityEvent → Type 0
IsPast now e = e.observed_at ≤ now

observe_reachable-IsPast :
    (current : MomentState) (now : ℕ) (t : ActivityTracker)
    → All (IsPast now) t.events
    → All (λ e. Agrees current e × IsPast now e) (observe_reachable current now t).events
unfolding observe_reachable
observe_reachable-IsPast current now t h =
    let out = current.unavailable_extensions in
    let d = Dict.keep_keys (λ x. Sets.member x out) t.phone_outage_started_at in
    let e = observe_outages-events now (record t { phone_outage_started_at = d }) out in
    All-keep (IsPast now) (λ e. Agrees current e × IsPast now e) (λ e. is_still_current e current) _
      (λ a k p. (is_still_current-Agrees current a k, p))
      (record_since-All now (IsPast now) (λ a p. rw p (omega arith)) t.previous current _
        (subst (All (IsPast now)) (sym e) h))

expire-IsCurrent :
    (P : ActivityEvent → Type 0) (now keep_for : ℕ) (u : ActivityTracker)
    → u.keep_for ≡ keep_for
    → All (λ e. P e × IsPast now e) u.events
    → All (λ e. P e × IsCurrent keep_for now e) (reverse (expire now u).events)
unfolding expire
expire-IsCurrent P now keep_for u same h = All-reverse _ _ (
    All-keep (λ e. P e × IsPast now e) (λ e. P e × IsCurrent keep_for now e) _ u.events
      (λ a k p. (p.0, (p.1, ground arith))) h)

observe_events :
    (t : ActivityTracker) (snapshot : AmiSnapshot) (now : ℕ)
    → snapshot.reachable ≡ true
    → (observe t snapshot now).1
      ≡ reverse (expire now (observe_reachable (moment_state snapshot) now t)).events
unfolding observe
observe_events t snapshot now up = simp (up)

-- With a clock that has not gone back behind an event, every event that an observation of a
-- reachable PBX returns is within the time that events are kept, and agrees with the present state: a
-- queue that it reports as cleared has no caller waiting, no phone is unavailable if it reports all
-- as back, and else none of the phones that it names as recovered is.
pub observe-IsCurrent :
    (t : ActivityTracker) (snapshot : AmiSnapshot) (now : ℕ)
    → snapshot.reachable ≡ true
    → All (λ e. e.observed_at ≤ now) t.events
    → All
        (λ e. Agrees (moment_state snapshot) e × IsCurrent t.keep_for now e)
        (observe t snapshot now).1
observe-IsCurrent t snapshot now up h =
    subst (All (λ e. Agrees (moment_state snapshot) e × IsCurrent t.keep_for now e))
      (sym (observe_events t snapshot now up))
      (expire-IsCurrent (Agrees (moment_state snapshot)) now t.keep_for _
        (observe_reachable-keep_for (moment_state snapshot) now t)
        (observe_reachable-IsPast (moment_state snapshot) now t h))
