-- ===== src/Activity/Recoveries.antt =====
-- Which phones the tracker still owes a recovery (`_outstanding_phone_outages`).
use pbxpulse_agent.Prelude.{
  ℕ, ◌+◌, String, ◌≡◌, refl, ◌∙◌, ap, true, false, not, ◌&&◌, ◌||◌, Option, none, some, List, [],
  ◌∷◌, arith, ◌==◌, eq_iff, leb, is_some, nat_eq, length,
}
use mathlib.Core.Path.{ap₂}
use pbxpulse_agent.Prelude.Dict
use pbxpulse_agent.Prelude.Dict.{Dict}
use pbxpulse_agent.Prelude.Sets
use pbxpulse_agent.Activity.Moment.{MomentState}
use pbxpulse_agent.Activity.Transitions.{
  ActivityTracker, since_at_least, clear_queue, clear_queues, record_queues, add_trunk_events,
  record_trunks, add_event, trunk_recovery, recovered_phones, recovery_times, new_recoveries,
  record_phones, record_voicemail, record_transitions,
}
use pbxpulse_agent.Activity.Tracker.{observe_outage, observe_outages, record_since}

-- When the current outage of an extension started, as far as the tracker knows.
abbrev pub outage_start : ActivityTracker → String → ℕ → ℕ
outage_start t x now = Dict.get_default t.phone_outage_started_at x now

-- The parts of the state that the loop over the unavailable extensions leaves alone or sets.
observe_outage-start :
    (now : ℕ) (t : ActivityTracker) (y x : String)
    → outage_start (observe_outage now t y) x now ≡ outage_start t x now
unfolding observe_outage
observe_outage-start now t y x =
    ground (arith, Dict.get-set_default t.phone_outage_started_at y x now, eq_iff y x)

observe_outage-outstanding :
    (now : ℕ) (t : ActivityTracker) (y x : String)
    → Sets.member x (observe_outage now t y).outstanding_phone_outages ≡ (
        Sets.member x t.outstanding_phone_outages
        || (y == x && leb (outage_start t x now + t.phone_outage_confirmation) now))
unfolding observe_outage
observe_outage-outstanding now t y x = ground (
  arith,
  Dict.get-set_default t.phone_outage_started_at y y now,
  eq_iff y x,
  eq_iff y y,
  Sets.member-add x y t.outstanding_phone_outages,
)

observe_outage-confirmation :
    (now : ℕ) (t : ActivityTracker) (y : String)
    → (observe_outage now t y).phone_outage_confirmation ≡ t.phone_outage_confirmation
unfolding observe_outage
observe_outage-confirmation now t y = ground arith

observe_outages-outstanding :
    (now : ℕ) (t : ActivityTracker) (l : List String) (x : String)
    → Sets.member x (observe_outages now t l).outstanding_phone_outages ≡ (
        Sets.member x t.outstanding_phone_outages
        || (Sets.member x l && leb (outage_start t x now + t.phone_outage_confirmation) now))
unfolding observe_outages Sets.member
observe_outages-outstanding now t [] x = ground arith
observe_outages-outstanding now t (y ∷ l) x = ground (
  arith,
  observe_outage-start now t y x,
  observe_outage-outstanding now t y x,
  observe_outage-confirmation now t y,
  observe_outages-outstanding now (observe_outage now t y) l x,
)

-- What the queues and the trunks leave alone.
pub record SamePhones (t u : ActivityTracker) : Type 0 where
  pub keep_for : u.keep_for ≡ t.keep_for
  outstanding : u.outstanding_phone_outages ≡ t.outstanding_phone_outages
  recovery : u.phone_recovery_started_at ≡ t.phone_recovery_started_at
  reported : u.reported_phone_recoveries ≡ t.reported_phone_recoveries
  confirmation : u.phone_recovery_confirmation ≡ t.phone_recovery_confirmation

clear_queue-SamePhones :
    (current : MomentState) (now : ℕ) (t : ActivityTracker) (queue : String) (waiting : ℕ)
    → SamePhones t (clear_queue current now t queue waiting)
unfolding clear_queue
clear_queue-SamePhones current now t queue waiting = ground arith

clear_queues-SamePhones :
    (current : MomentState) (now : ℕ) (t : ActivityTracker) (d : Dict ℕ)
    → SamePhones t (clear_queues current now t d)
unfolding clear_queues
clear_queues-SamePhones current now t [] = ground arith
clear_queues-SamePhones current now t ((queue, waiting) ∷ d) = ground (
  arith,
  clear_queue-SamePhones current now t queue waiting,
  clear_queues-SamePhones current now (clear_queue current now t queue waiting) d,
)

pub record_queues-SamePhones :
    (previous current : MomentState) (now : ℕ) (t : ActivityTracker)
    → SamePhones t (record_queues previous current now t)
unfolding record_queues
record_queues-SamePhones previous current now t =
    let h = clear_queues-SamePhones current now _ _ in
    record {
      keep_for = h.keep_for;
      outstanding = h.outstanding;
      recovery = h.recovery;
      reported = h.reported;
      confirmation = h.confirmation;
    }

add_trunk_events-SamePhones :
    (now : ℕ) (t : ActivityTracker) (l : List String) → SamePhones t (add_trunk_events now t l)
unfolding add_trunk_events
add_trunk_events-SamePhones now t [] = ground arith
add_trunk_events-SamePhones now t (x ∷ l) =
    let h = add_trunk_events-SamePhones now (add_event t (trunk_recovery now x)) l in
    record {
      keep_for = h.keep_for;
      outstanding = h.outstanding;
      recovery = h.recovery;
      reported = h.reported;
      confirmation = h.confirmation;
    }

pub record_trunks-SamePhones :
    (previous current : MomentState) (now : ℕ) (t : ActivityTracker)
    → SamePhones t (record_trunks previous current now t)
unfolding record_trunks
record_trunks-SamePhones previous current now t =
    let h = add_trunk_events-SamePhones now t _ in
    record {
      keep_for = h.keep_for;
      outstanding = h.outstanding;
      recovery = h.recovery;
      reported = h.reported;
      confirmation = h.confirmation;
    }

pub new_recoveries-SamePhones :
    (t u : ActivityTracker) (current : MomentState) (now : ℕ)
    → SamePhones t u
    → new_recoveries u current now ≡ new_recoveries t current now
unfolding new_recoveries recovery_times recovered_phones
new_recoveries-SamePhones t u current now h =
    simp (h.outstanding, h.recovery, h.reported, h.confirmation)

member-empty : (x : String) (l : List String) → nat_eq (length l) 0 ≡ true → Sets.member x l ≡ false
unfolding Sets.member
member-empty x [] h = refl
member-empty x (y ∷ l) h = absurd (ground arith)

record_phones-outstanding :
    (current : MomentState) (now : ℕ) (t : ActivityTracker) (x : String)
    → Sets.member x (record_phones current now t).outstanding_phone_outages ≡ (
        Sets.member x t.outstanding_phone_outages
        && not (Sets.member x (new_recoveries t current now)))
unfolding record_phones
record_phones-outstanding current now t x = ground (
  arith,
  member-empty x (new_recoveries t current now),
  Sets.member-diff x t.outstanding_phone_outages (new_recoveries t current now),
)

record_voicemail-outstanding :
    (previous current : MomentState) (now : ℕ) (t : ActivityTracker)
    → (record_voicemail previous current now t).outstanding_phone_outages
      ≡ t.outstanding_phone_outages
unfolding record_voicemail
record_voicemail-outstanding previous current now t = ground arith

record_transitions-outstanding :
    (previous current : MomentState) (now : ℕ) (t : ActivityTracker) (x : String)
    → Sets.member x (record_transitions previous current now t).outstanding_phone_outages ≡ (
        Sets.member x t.outstanding_phone_outages
        && not (Sets.member x (new_recoveries t current now)))
unfolding record_transitions
record_transitions-outstanding previous current now t x =
    let q = record_queues previous current now t in
    let h = record_queues-SamePhones previous current now t in
    let k = record_trunks-SamePhones previous current now q in
    let u = record_trunks previous current now q in
    ap (Sets.member x) (record_voicemail-outstanding previous current now _)
    ∙ record_phones-outstanding current now u x
    ∙ ap₂ (λ a b. Sets.member x a && not (Sets.member x b)) (k.outstanding ∙ h.outstanding)
        (new_recoveries-SamePhones q u current now k ∙ new_recoveries-SamePhones t q current now h)

-- The tracker after the loop over the unavailable extensions, where the transitions start.
unfoldable pub after_outages : MomentState → ℕ → ActivityTracker → ActivityTracker
after_outages current now t =
    let out = current.unavailable_extensions in
    observe_outages now
      (record t {
        phone_outage_started_at = Dict.keep_keys (λ x. Sets.member x out) t.phone_outage_started_at;
      })
      out

pub after_outages_lem :
    (current : MomentState) (now : ℕ) (t : ActivityTracker)
    → observe_outages now
        (record t {
          phone_outage_started_at =
              Dict.keep_keys
                (λ x. Sets.member x current.unavailable_extensions)
                t.phone_outage_started_at;
        })
        current.unavailable_extensions
      ≡ after_outages current now t
unfolding after_outages
after_outages_lem current now t = refl

pub after_outages-outstanding :
    (current : MomentState) (now : ℕ) (t : ActivityTracker) (x : String)
    → Sets.member x (after_outages current now t).outstanding_phone_outages ≡ (
        Sets.member x t.outstanding_phone_outages
        || (Sets.member x current.unavailable_extensions
            && leb (outage_start t x now + t.phone_outage_confirmation) now))
unfolding after_outages
after_outages-outstanding current now t x =
    let out = current.unavailable_extensions in
    let d = Dict.keep_keys (λ y. Sets.member y out) t.phone_outage_started_at in
    ground (
      arith,
      Dict.get-keep_keys (λ y. Sets.member y out) t.phone_outage_started_at x,
      observe_outages-outstanding now (record t { phone_outage_started_at = d }) out x,
    )

pub record_since-outstanding :
    (previous : Option MomentState) (current : MomentState) (now : ℕ) (t : ActivityTracker)
    (x : String)
    → Sets.member x (record_since previous current now t).outstanding_phone_outages ≡ (
        Sets.member x t.outstanding_phone_outages
        && not (is_some previous && Sets.member x (new_recoveries t current now)))
unfolding record_since
record_since-outstanding none current now t x = ground arith
record_since-outstanding (some p) current now t x = record_transitions-outstanding p current now t x

pub member-new_recoveries :
    (t : ActivityTracker) (current : MomentState) (now : ℕ) (x : String)
    → Sets.member x (new_recoveries t current now) ≡ true
    → (Sets.member x t.outstanding_phone_outages ≡ true)
      × (Sets.member x current.monitored_extensions ≡ true)
      × (Sets.member x current.unavailable_extensions ≡ false)
unfolding new_recoveries recovered_phones
member-new_recoveries t current now x h = ground (
  arith,
  Sets.member-keep
      (λ y.
        not (Dict.has t.reported_phone_recoveries y)
        && since_at_least t.phone_recovery_confirmation (Dict.get (recovery_times t current now) y)
            now)
      x (recovered_phones t current),
  Sets.member-inter x t.outstanding_phone_outages
      (Sets.diff current.monitored_extensions current.unavailable_extensions),
  Sets.member-diff x current.monitored_extensions current.unavailable_extensions,
)
