-- ===== src/Activity/Announcements.antt =====
-- When the tracker announces that phones are back: the events that `_record_transitions` adds for
-- them, and which extensions they name.
pub mod Texts
use mathlib.Core.Path.{ap₂}
use pbxpulse_agent.Prelude.{
  ℕ, ◌+◌, ◌≤◌, String, ◌≡◌, refl, ◌∙◌, ap, sym, Bool, true, false, not, ◌&&◌, ◌||◌, Option, none,
  some, List, [], ◌∷◌, ◌++◌, arith, ◌==◌, eq_iff, leb, if◌then◌else◌, keep, is_some, nat_eq, length,
  join, Bool-cases, inl, inr,
}
use pbxpulse_agent.Prelude.Dict
use pbxpulse_agent.Prelude.Dict.{Dict}
use pbxpulse_agent.Prelude.Sets
use pbxpulse_agent.Snapshot.{AmiSnapshot}
use pbxpulse_agent.Activity.Moment.{
  MomentState, ActivityEvent, moment_state, waiting_of, make_event, is_still_current,
}
use pbxpulse_agent.Activity.Transitions.{
  ActivityTracker, add_event, clear_queue, clear_queues, record_queues, add_trunk_events,
  record_trunks, record_phones, phones_recovered, record_voicemail, queue_cleared,
  busy_period_completed, same_baseline, trunk_recovery, new_recoveries, voicemail_received,
  record_transitions,
}
use pbxpulse_agent.Activity.Tracker.{
  observe_outage, observe_outages, record_since, observe_reachable, is_recent, expire, observe,
}
use pbxpulse_agent.Activity.Retention.{observe_reachable-keep_for}
use pbxpulse_agent.Activity.Recoveries.{
  record_queues-SamePhones, record_trunks-SamePhones, new_recoveries-SamePhones, after_outages,
  after_outages_lem, after_outages-outstanding, record_since-outstanding, member-new_recoveries,
}
use pbxpulse_agent.Activity.Announcements.Texts.{
  recovery_texts, observe_outages-events, append_none, announcement, record_since-texts,
}

-- Whether the snapshot shows an outage of the extension that is old enough to be one.
unfoldable pub confirms_outage : ActivityTracker → AmiSnapshot → ℕ → String → Bool
confirms_outage t snapshot now x =
    snapshot.reachable
    && Sets.member x (moment_state snapshot).unavailable_extensions
    && leb (Dict.get_default t.phone_outage_started_at x now + t.phone_outage_confirmation) now

-- The extensions that the observation announces to be back.
unfoldable pub announced : ActivityTracker → AmiSnapshot → ℕ → List String
announced t snapshot now =
    if snapshot.reachable && is_some t.previous
    then new_recoveries (after_outages (moment_state snapshot) now t) (moment_state snapshot) now
    else []

-- The events when the observation has recorded the transitions, before it drops those that are old or
-- no longer true.
unfoldable pub recorded_events : ActivityTracker → AmiSnapshot → ℕ → List ActivityEvent
recorded_events t snapshot now =
    let current = moment_state snapshot in
    if snapshot.reachable
    then (record_since t.previous current now (after_outages current now t)).events
    else t.events

-- The events that the observation records on recovered phones name the announced extensions, all in
-- one event, and no others; and what it keeps is taken from the recorded events.
abbrev pub NamesAnnounced : ActivityTracker → AmiSnapshot → ℕ → Type 0
NamesAnnounced t snapshot now =
    (recovery_texts (recorded_events t snapshot now)
      ≡ recovery_texts t.events ++ announcement (announced t snapshot now))
    × ((observe t snapshot now).0.events
        ≡ keep (λ e. is_recent t.keep_for now e.observed_at)
            (if snapshot.reachable
              then keep (λ e. is_still_current e (moment_state snapshot))
                  (recorded_events t snapshot now)
              else recorded_events t snapshot now))

unfoldable pub announces : ActivityTracker → AmiSnapshot → ℕ → String → Bool
announces t snapshot now x = Sets.member x (announced t snapshot now)

after_outages-events :
    (current : MomentState) (now : ℕ) (t : ActivityTracker)
    → (after_outages current now t).events ≡ t.events
unfolding after_outages
after_outages-events current now t = observe_outages-events now _ current.unavailable_extensions

texts_if :
    (b c : Bool) (l recorded : List ActivityEvent) (back : List String)
    → recovery_texts recorded ≡ recovery_texts l ++ announcement (if c then back else [])
    → recovery_texts (if b then recorded else l)
      ≡ recovery_texts l ++ announcement (if b && c then back else [])
texts_if true c l recorded back h = h
texts_if false c l recorded back h = sym (append_none (recovery_texts l))

recorded_events-texts :
    (t : ActivityTracker) (snapshot : AmiSnapshot) (now : ℕ)
    → recovery_texts (recorded_events t snapshot now)
      ≡ recovery_texts t.events ++ announcement (announced t snapshot now)
unfolding recorded_events announced
recorded_events-texts t snapshot now =
    let current = moment_state snapshot in
    let u = after_outages current now t in
    texts_if snapshot.reachable (is_some t.previous) t.events _ (new_recoveries u current now) (
      record_since-texts t.previous current now u
      ∙ ap
          (λ l.
            recovery_texts l
            ++ announcement (if is_some t.previous then new_recoveries u current now else []))
          (after_outages-events current now t))

kept_if :
    (b : Bool) (p : ActivityEvent → Bool) (now : ℕ) (t seen : ActivityTracker)
    (recorded : List ActivityEvent)
    → seen.keep_for ≡ t.keep_for
    → seen.events ≡ keep p recorded
    → keep
        (λ e. is_recent (if b then seen else t).keep_for now e.observed_at)
        (if b then seen else t).events
      ≡ keep
          (λ e. is_recent t.keep_for now e.observed_at)
          (if b
            then keep p (if b then recorded else t.events)
            else (if b then recorded else t.events))
kept_if true p now t seen recorded k h =
    ap₂ (λ n l. keep (λ e. is_recent n now e.observed_at) l) k h
kept_if false p now t seen recorded k h = refl

observe_reachable-recorded :
    (current : MomentState) (now : ℕ) (t : ActivityTracker)
    → (observe_reachable current now t).events
      ≡ keep
          (λ e. is_still_current e current)
          (record_since t.previous current now (after_outages current now t)).events
unfolding observe_reachable
observe_reachable-recorded current now t =
    ap (λ u. keep (λ e. is_still_current e current) (record_since t.previous current now u).events)
      (after_outages_lem current now t)

observe-NamesAnnounced :
    (t : ActivityTracker) (snapshot : AmiSnapshot) (now : ℕ) → NamesAnnounced t snapshot now
unfolding observe expire recorded_events
observe-NamesAnnounced t snapshot now =
    let current = moment_state snapshot in
    (
      recorded_events-texts t snapshot now,
      kept_if snapshot.reachable (λ e. is_still_current e current) now t
          (observe_reachable current now t)
          (record_since t.previous current now (after_outages current now t)).events
          (observe_reachable-keep_for current now t) (observe_reachable-recorded current now t),
    )

member_if :
    (b : Bool) (x : String) (l : List String)
    → Sets.member x (if b then l else []) ≡ (b && Sets.member x l)
unfolding Sets.member
member_if true x l = refl
member_if false x l = refl

announces-new_recoveries :
    (t : ActivityTracker) (snapshot : AmiSnapshot) (now : ℕ) (x : String)
    → announces t snapshot now x ≡ (
        (snapshot.reachable && is_some t.previous)
        && Sets.member x (
            new_recoveries
              (after_outages (moment_state snapshot) now t)
              (moment_state snapshot)
              now))
unfolding announces announced
announces-new_recoveries t snapshot now x = member_if (snapshot.reachable && is_some t.previous) x _

outstanding_after :
    (t : ActivityTracker) (snapshot : AmiSnapshot) (now : ℕ) (x : String)
    → Sets.member x (observe t snapshot now).0.outstanding_phone_outages ≡ (
        (Sets.member x t.outstanding_phone_outages || confirms_outage t snapshot now x)
        && not (announces t snapshot now x))
unfolding observe observe_reachable expire confirms_outage
outstanding_after t snapshot now x =
    let current = moment_state snapshot in
    let u = after_outages current now t in
    ground (
      arith,
      announces-new_recoveries t snapshot now x,
      after_outages_lem current now t,
      after_outages-outstanding current now t x,
      record_since-outstanding t.previous current now u x,
    )

owed_before :
    (t : ActivityTracker) (snapshot : AmiSnapshot) (now : ℕ) (x : String)
    → announces t snapshot now x ≡ true
    → (Sets.member x t.outstanding_phone_outages ≡ true)
      × (Sets.member x (moment_state snapshot).monitored_extensions ≡ true)
      × (Sets.member x (moment_state snapshot).unavailable_extensions ≡ false)
owed_before t snapshot now x h =
    let current = moment_state snapshot in
    ground (
      arith,
      announces-new_recoveries t snapshot now x,
      member-new_recoveries (after_outages current now t) current now x,
      after_outages-outstanding current now t x,
    )

-- A phone is owed a recovery after an observation exactly if it was before, or the snapshot shows a
-- confirmed outage of it, and its return is not announced just now. The event that the observation
-- records on recovered phones names exactly those whose return is announced, and there is none if
-- there are none.
pub observe-outstanding :
    (t : ActivityTracker) (snapshot : AmiSnapshot) (now : ℕ) (x : String)
    → (Sets.member x (observe t snapshot now).0.outstanding_phone_outages ≡ (
        (Sets.member x t.outstanding_phone_outages || confirms_outage t snapshot now x)
        && not (announces t snapshot now x)))
      × NamesAnnounced t snapshot now
observe-outstanding t snapshot now x =
    (outstanding_after t snapshot now x, observe-NamesAnnounced t snapshot now)

-- The return of a phone is announced only if a recovery was owed before the observation, and the
-- snapshot lists the phone and does not list it as unavailable. The event that the observation
-- records on recovered phones names exactly those whose return is announced.
pub announces_lem :
    (t : ActivityTracker) (snapshot : AmiSnapshot) (now : ℕ) (x : String)
    → announces t snapshot now x ≡ true
    → (Sets.member x t.outstanding_phone_outages ≡ true)
      × (Sets.member x (moment_state snapshot).monitored_extensions ≡ true)
      × (Sets.member x (moment_state snapshot).unavailable_extensions ≡ false)
      × NamesAnnounced t snapshot now
announces_lem t snapshot now x h =
    let (owed, listed, available) = owed_before t snapshot now x h in
    (owed, listed, available, observe-NamesAnnounced t snapshot now)

-- How many of a row of observations announce the return of a phone.
unfoldable pub announcements : ActivityTracker → String → List (AmiSnapshot × ℕ) → ℕ
announcements t x [] = 0
announcements t x ((snapshot, now) ∷ l) =
    (if announces t snapshot now x then 1 else 0) + announcements (observe t snapshot now).0 x l

-- No observation of the row confirms an outage of the phone.
unfoldable pub no_outage : ActivityTracker → String → List (AmiSnapshot × ℕ) → Bool
no_outage t x [] = true
no_outage t x ((snapshot, now) ∷ l) =
    not (confirms_outage t snapshot now x) && no_outage (observe t snapshot now).0 x l

-- Every observation of the row names what it announces.
abbrev pub AllNamed : ActivityTracker → List (AmiSnapshot × ℕ) → Type 0
AllNamed t [] = Unit
AllNamed t ((snapshot, now) ∷ l) =
    NamesAnnounced t snapshot now × AllNamed (observe t snapshot now).0 l

all_named : (t : ActivityTracker) (l : List (AmiSnapshot × ℕ)) → AllNamed t l
all_named t [] = tt
all_named t ((snapshot, now) ∷ l) =
    (observe-NamesAnnounced t snapshot now, all_named (observe t snapshot now).0 l)

counted :
    (t : ActivityTracker) (x : String) (l : List (AmiSnapshot × ℕ))
    → no_outage t x l ≡ true
    → announcements t x l ≤ (if Sets.member x t.outstanding_phone_outages then 1 else 0)
unfolding announcements no_outage
counted t x [] h = ground arith
counted t x ((snapshot, now) ∷ l) h = ground (
  arith,
  owed_before t snapshot now x,
  outstanding_after t snapshot now x,
  counted (observe t snapshot now).0 x l,
)

-- Until an outage of the phone is confirmed again, its return is announced at most once, and not at
-- all if no recovery was owed at the start. The event that an observation of the row records on
-- recovered phones names exactly those whose return the observation announces.
pub announcements-le :
    (t : ActivityTracker) (x : String) (l : List (AmiSnapshot × ℕ))
    → no_outage t x l ≡ true
    → (announcements t x l ≤ (if Sets.member x t.outstanding_phone_outages then 1 else 0))
      × AllNamed t l
announcements-le t x l h = (counted t x l h, all_named t l)
