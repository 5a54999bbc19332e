-- ===== src/Signals/Runs.antt =====
-- Runs of observations: from a new tracker on, and through one outage.
use mathlib.Core.Path.{subst₂}
use pbxpulse_agent.Prelude.{
  ℕ, ◌+◌, String, ◌≡◌, refl, ◌∙◌, Bool, true, false, ◌&&◌, ◌||◌, some, List, [], ◌∷◌, ◌++◌, ap, sym,
  arith, leb, ltb, any, All,
}
use pbxpulse_agent.Prelude.Dict
use pbxpulse_agent.Prelude.Sets
use pbxpulse_agent.Snapshot.{AmiSnapshot}
use pbxpulse_agent.Signals.{
  SignalTracker, init, observe, notification_ids, TipTracker, unavailable_phones, observe_tip,
}
use pbxpulse_agent.Signals.Pointwise.{reading}
use pbxpulse_agent.Signals.Episodes.{Outage, up, down, next_outage, is_confirmed}
use pbxpulse_agent.Signals.Tracking.{
  Tracks, next_outages, observe-Tracks, init-Tracks, outage_id, notification_ids-outage_id,
}

abbrev pub Observation : Type 0
Observation = AmiSnapshot × ℕ

unfoldable pub observe_run : SignalTracker → List Observation → SignalTracker
observe_run t [] = t
observe_run t ((snapshot, now) ∷ l) = observe_run (observe t snapshot now).0 l

observe_settings :
    (t : SignalTracker) (snapshot : AmiSnapshot) (now : ℕ)
    → ((observe t snapshot now).0.outage_confirmation ≡ t.outage_confirmation)
      × ((observe t snapshot now).0.role ≡ t.role)
unfolding observe
observe_settings t snapshot now = ground arith

-- The outages after a run, by the role and the confirmation period alone.
unfoldable pub outages_run : ℕ → String → (String → Outage) → List Observation → String → Outage
outages_run period role o [] = o
outages_run period role o ((snapshot, now) ∷ l) =
    outages_run period role (next_outages period role snapshot now o) l

-- However many snapshots a tracker has seen, it is in step with the outages.
observe_run-Tracks :
    (t : SignalTracker) (o : String → Outage) (l : List Observation)
    → Tracks t o
    → Tracks (observe_run t l) (outages_run t.outage_confirmation t.role o l)
      × ((observe_run t l).outage_confirmation ≡ t.outage_confirmation)
      × ((observe_run t l).role ≡ t.role)
unfolding observe_run outages_run
observe_run-Tracks t o [] h = (h, refl, refl)
observe_run-Tracks t o ((snapshot, now) ∷ l) h =
    let (period, role) = observe_settings t snapshot now in
    let o' = next_outages t.outage_confirmation t.role snapshot now o in
    let t' = (observe t snapshot now).0 in
    let (tracks, p, r) = observe_run-Tracks t' o' l (observe-Tracks t snapshot now o h).0 in
    (
      subst₂ (λ x y. Tracks (observe_run t' l) (outages_run x y o' l)) period role tracks,
      p ∙ period,
      r ∙ role,
    )

module _ (outage recovery : ℕ) (role : String) (l : List Observation) where
  abbrev tracker : SignalTracker
  tracker = observe_run (init outage recovery role) l

  abbrev expected : AmiSnapshot → ℕ → String → Outage
  expected snapshot now =
      next_outages outage role snapshot now (outages_run outage role (λ _. up) l)

  -- From a new tracker, after any snapshots: the next one shows the Signal of an extension exactly
  -- if the PBX answers and the extension's outage is then confirmed, and the notification ids are
  -- those of the confirmed outages, each made from the start of its outage. An outage ends with any
  -- snapshot of a PBX that answers and does not list the extension as unavailable, however short the
  -- recovery: the docstring of `observe` says that a short one does not arm another alert.
  pub observe_run_lem :
      (snapshot : AmiSnapshot) (now : ℕ) (k : String)
      → (Sets.member k (observe tracker snapshot now).1
          ≡ (snapshot.reachable && is_confirmed (expected snapshot now k)))
        × (Dict.get (notification_ids (observe tracker snapshot now).0) k
            ≡ outage_id k (expected snapshot now k))
  observe_run_lem snapshot now k =
      let o = outages_run outage role (λ _. up) l in
      let (run, period, same) =
        observe_run-Tracks (init outage recovery role) (λ _. up) l
          (init-Tracks outage recovery role) in
      let (tracks, shown) = observe-Tracks tracker snapshot now o run in
      subst₂
        (λ x y.
          (Sets.member k (observe tracker snapshot now).1
            ≡ (snapshot.reachable && is_confirmed (next_outages x y snapshot now o k)))
          × (Dict.get (notification_ids (observe tracker snapshot now).0) k
              ≡ outage_id k (next_outages x y snapshot now o k)))
        period same
        (
          shown k,
          notification_ids-outage_id (observe tracker snapshot now).0
              (next_outages tracker.outage_confirmation tracker.role snapshot now o) k tracks,
        )

-- The PBX answers in every snapshot and lists the extension as unavailable.
abbrev pub IsOut : String → String → List Observation → Type 0
IsOut role k = All (λ s. (s.0.reachable ≡ true) × (reading role s.0.endpoints k ≡ some true))

All_last {ℓ} : {A : Type ℓ} (P : A → Type 0) (l : List A) (x : A) → All P (l ++ x ∷ []) → P x
All_last P [] x h = h.0
All_last P (y ∷ l) x h = All_last P l x h.1

abbrev pub some_after : ℕ → List Observation → Bool
some_after limit = any (λ s. leb limit s.1)

next_outages_out :
    (period : ℕ) (role : String) (snapshot : AmiSnapshot) (now : ℕ) (o : String → Outage)
    (k : String)
    → snapshot.reachable ≡ true
    → reading role snapshot.endpoints k ≡ some true
    → next_outages period role snapshot now o k ≡ next_outage period now (some true) (o k)
unfolding next_outages
next_outages_out period role snapshot now o k e r = simp (e, r)

outages_run_down :
    (period : ℕ) (role : String) (o : String → Outage) (k : String) (l : List Observation)
    (since : ℕ) (confirmed : Bool)
    → o k ≡ down since confirmed
    → IsOut role k l
    → outages_run period role o l k ≡ down since (confirmed || some_after (since + period) l)
unfolding outages_run next_outage
outages_run_down period role o k [] since confirmed e h = ground arith
outages_run_down period role o k ((snapshot, now) ∷ l) since confirmed e h = ground (
  arith,
  next_outages_out period role snapshot now o k,
  outages_run_down period role (next_outages period role snapshot now o) k l since
      (confirmed || leb (since + period) now),
)

-- One outage, seen through snapshots that all list the extension as unavailable, after a time when
-- it had none: its start and its confirmation.
outages_run_out :
    (period : ℕ) (role : String) (o : String → Outage) (k : String) (first : Observation)
    (l : List Observation)
    → o k ≡ up
    → IsOut role k (first ∷ l)
    → outages_run period role o (first ∷ l) k
      ≡ down first.1 (some_after (first.1 + period) (first ∷ l))
unfolding outages_run next_outage
outages_run_out period role o k (snapshot, now) l e h = ground (
  arith,
  next_outages_out period role snapshot now o k,
  outages_run_down period role (next_outages period role snapshot now o) k l now
      (leb (now + period) now),
)

outages_run-append :
    (period : ℕ) (role : String) (o : String → Outage) (l m : List Observation)
    → outages_run period role o (l ++ m) ≡ outages_run period role (outages_run period role o l) m
unfolding outages_run
outages_run-append period role o [] m = refl
outages_run-append period role o ((snapshot, now) ∷ l) m =
    outages_run-append period role (next_outages period role snapshot now o) l m

next_outages_calm :
    (period : ℕ) (role : String) (o : String → Outage) (k : String) (calm : Observation)
    → calm.0.reachable ≡ true
    → reading role calm.0.endpoints k ≡ some false
    → outages_run period role o (calm ∷ []) k ≡ up
unfolding outages_run next_outages next_outage
next_outages_calm period role o k (snapshot, now) e r = simp (e, r)

-- A new tracker sees any snapshots, then one in which the PBX answers and the extension is
-- available (after an alert too, against the docstring of `observe`), and from then on only snapshots that list the extension as unavailable. The last of
-- them shows the extension's Signal exactly if one of them came at least the confirmation period
-- after the first.
pub observe_run_out :
    (outage recovery : ℕ) (role k : String) (before during : List Observation)
    (calm first last : Observation)
    → calm.0.reachable ≡ true
    → reading role calm.0.endpoints k ≡ some false
    → IsOut role k (first ∷ during ++ last ∷ [])
    → Sets.member k
        (observe
          (observe_run (init outage recovery role) ((before ++ calm ∷ []) ++ first ∷ during))
          last.0
          last.1).1
      ≡ some_after (first.1 + outage) (first ∷ during ++ last ∷ [])
unfolding is_confirmed outages_run
observe_run_out outage recovery role k before during calm first (snapshot, now) up_ free out =
    let o = outages_run outage role (λ _. up) (before ++ calm ∷ []) in
    let l = (before ++ calm ∷ []) ++ first ∷ during in
    let last : Observation = (snapshot, now) in
    let is_up : o k ≡ up =
      ap (λ f. f k) (outages_run-append outage role (λ _. up) before (calm ∷ []))
      ∙ next_outages_calm outage role (outages_run outage role (λ _. up) before) k calm up_ free in
    let same : next_outages outage role snapshot now (outages_run outage role (λ _. up) l) k
        ≡ outages_run outage role o (first ∷ during ++ last ∷ []) k =
      ap (λ f. next_outages outage role snapshot now f k)
        (outages_run-append outage role (λ _. up) (before ++ calm ∷ []) (first ∷ during))
      ∙ sym (ap (λ f. f k) (outages_run-append outage role o (first ∷ during) (last ∷ []))) in
    ground (
      arith,
      (observe_run_lem outage recovery role l snapshot now k).0,
      same,
      outages_run_out outage role o k first (during ++ last ∷ []) is_up out,
      All_last _ during last out.1,
    )

-- A snapshot of the tip tracker: whether at least two phones are unavailable.
abbrev pub HasTwo : Observation → Type 0
HasTwo s = ltb (unavailable_phones s.0.endpoints) 2 ≡ false

unfoldable pub tip_run : TipTracker → List Observation → TipTracker
tip_run t [] = t
tip_run t ((snapshot, now) ∷ l) = tip_run (observe_tip t snapshot now).0 l

tip_run_started :
    (t : TipTracker) (since : ℕ) (l : List Observation)
    → t.started_at ≡ some since
    → All HasTwo l
    → (tip_run t l).started_at ≡ some since × ((tip_run t l).delay ≡ t.delay)
unfolding tip_run observe_tip
tip_run_started t since [] e h = (e, refl)
tip_run_started t since ((snapshot, now) ∷ l) e h =
    ground (arith, tip_run_started (observe_tip t snapshot now).0 since l)

-- The tip waits for its delay, counted from the first of an unbroken row of snapshots with two or
-- more phones unavailable; a snapshot with fewer starts the wait again.
pub observe_tip_lem :
    (t : TipTracker) (calm first last : Observation) (l : List Observation)
    → ltb (unavailable_phones calm.0.endpoints) 2 ≡ true
    → All HasTwo (first ∷ l)
    → HasTwo last
    → (observe_tip (tip_run t (calm ∷ first ∷ l)) last.0 last.1).1 ≡ leb (first.1 + t.delay) last.1
unfolding tip_run observe_tip
observe_tip_lem t (calm, c) (s, now) (s', now') l e h h' =
    ground (arith, tip_run_started (observe_tip (observe_tip t calm c).0 s now).0 now l)
