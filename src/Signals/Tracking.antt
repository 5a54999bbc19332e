-- ===== src/Signals/Tracking.antt =====
-- A whole run of observations: the Signals shown, and the notification ids, are those of the
-- outages that are going on.
use pbxpulse_agent.Prelude.{
  ℕ, String, ◌≡◌, refl, ◌∙◌, ap, sym, true, false, ◌&&◌, Option, none, some, List, [], ◌∷◌, arith,
  eq_iff, if◌then◌else◌, is_truthy, Bool-cases, inl, inr,
}
use mathlib.Core.Path.{subst₂}
use pbxpulse_agent.Prelude.Dict
use pbxpulse_agent.Prelude.Dict.{Dict, Distinct}
use pbxpulse_agent.Prelude.Sets
use pbxpulse_agent.Snapshot.{AmiEndpoint, AmiSnapshot}
use pbxpulse_agent.Signals.{
  EndpointSignalState, SignalTracker, init, fresh_id, observe_endpoint, observe_all, monitored,
  observe, visible_ids, notification_ids,
}
use pbxpulse_agent.Signals.Pointwise.{reading, observe-react, observe_unreachable}
use pbxpulse_agent.Signals.Episodes.{
  Outage, up, down, next_outage, is_confirmed, Remembers, react-Remembers, fresh_id_truthy,
}

-- The outages of all extensions after one more snapshot; an unreachable PBX says nothing.
unfoldable pub next_outages : ℕ → String → AmiSnapshot → ℕ → (String → Outage) → String → Outage
next_outages period role snapshot now o k =
    if snapshot.reachable
    then next_outage period now (reading role snapshot.endpoints k) (o k)
    else o k

pub record Tracks (t : SignalTracker) (o : String → Outage) : Type 0 where
  pub distinct : Distinct t.states
  pub remembers : (k : String) → Remembers k (o k) (Dict.get t.states k)

observe_endpoint-Distinct :
    (t : SignalTracker) (now : ℕ) (acc : Dict EndpointSignalState × List String) (x : String)
    (e : AmiEndpoint)
    → Distinct acc.0
    → Distinct (observe_endpoint t now acc x e).0
unfolding observe_endpoint
observe_endpoint-Distinct t now (states, visible) x e h =
    grind (arith, Dict.put-Distinct, Dict.update-Distinct)

observe_all-Distinct :
    (t : SignalTracker) (now : ℕ) (acc : Dict EndpointSignalState × List String)
    (d : Dict AmiEndpoint)
    → Distinct acc.0
    → Distinct (observe_all t now acc d).0
unfolding observe_all
observe_all-Distinct t now acc [] h = h
observe_all-Distinct t now acc ((x, e) ∷ d) h =
    observe_all-Distinct t now (observe_endpoint t now acc x e) d
      (observe_endpoint-Distinct t now acc x e h)

observe-Distinct :
    (t : SignalTracker) (snapshot : AmiSnapshot) (now : ℕ)
    → Distinct t.states
    → Distinct (observe t snapshot now).0.states
unfolding observe
observe-Distinct t snapshot now h = elim (Bool-cases snapshot.reachable) [
  | inl e ↦ rw (e) (
      observe_all-Distinct t now _ (monitored t.role snapshot.endpoints)
        (Dict.keep_keys-Distinct _ t.states h))
  | inr e ↦ rw (e) h
]

pub init-Tracks :
    (outage recovery : ℕ) (role : String) → Tracks (init outage recovery role) (λ _. up)
unfolding Dict.get
init-Tracks outage recovery role = record { distinct = tt; remembers = λ k. tt }

module _ (t : SignalTracker) (snapshot : AmiSnapshot) (now : ℕ) (o : String → Outage)
    (k : String) where
  next_outages_reachable :
      snapshot.reachable ≡ true
      → next_outages t.outage_confirmation t.role snapshot now o k
        ≡ next_outage t.outage_confirmation now (reading t.role snapshot.endpoints k) (o k)
  unfolding next_outages
  next_outages_reachable e = simp (e)

  next_outages_unreachable :
      snapshot.reachable ≡ false → next_outages t.outage_confirmation t.role snapshot now o k ≡ o k
  unfolding next_outages
  next_outages_unreachable e = simp (e)

  abbrev InStep : Type 0
  InStep =
      Remembers k (next_outages t.outage_confirmation t.role snapshot now o k)
        (Dict.get (observe t snapshot now).0.states k)
      × (Sets.member k (observe t snapshot now).1 ≡ (
          snapshot.reachable
          && is_confirmed (next_outages t.outage_confirmation t.role snapshot now o k)))

  in_step_reachable : snapshot.reachable ≡ true → Remembers k (o k) (Dict.get t.states k) → InStep
  in_step_reachable e h =
      let (p, q) = observe-react t snapshot now k e in
      let (m, v) = react-Remembers t now k _ (o k) _ h in
      let n = next_outages_reachable e in
      (
        subst₂ (λ x y. Remembers k x y) (sym n) (sym p) m,
        q
            ∙ v
            ∙ ap is_confirmed (sym n)
            ∙ ap
                (λ b.
                  b && is_confirmed (next_outages t.outage_confirmation t.role snapshot now o k))
                (sym e),
      )

  in_step_unreachable :
      snapshot.reachable ≡ false → Remembers k (o k) (Dict.get t.states k) → InStep
  unfolding Sets.member
  in_step_unreachable e h =
      let p = observe_unreachable t snapshot now e in
      (
        subst₂ (λ x y. Remembers k x (Dict.get y.states k)) (sym (next_outages_unreachable e))
            (sym (ap (λ r. r.0) p)) h,
        ap (λ r. Sets.member k r.1) p
            ∙ ap
                (λ b.
                  b && is_confirmed (next_outages t.outage_confirmation t.role snapshot now o k))
                (sym e),
      )

  in_step : Remembers k (o k) (Dict.get t.states k) → InStep
  in_step h = elim (Bool-cases snapshot.reachable) [
    | inl e ↦ in_step_reachable e h
    | inr e ↦ in_step_unreachable e h
  ]

-- An observation keeps the tracker in step with the outages. It shows the Signals of the confirmed
-- ones if the PBX answered, and none if it did not.
pub observe-Tracks :
    (t : SignalTracker) (snapshot : AmiSnapshot) (now : ℕ) (o : String → Outage)
    → Tracks t o
    → Tracks (observe t snapshot now).0 (next_outages t.outage_confirmation t.role snapshot now o)
      × ((k : String)
          → Sets.member k (observe t snapshot now).1 ≡ (
              snapshot.reachable
              && is_confirmed (next_outages t.outage_confirmation t.role snapshot now o k)))
observe-Tracks t snapshot now o h = (
  record {
    distinct = observe-Distinct t snapshot now h.distinct;
    remembers = λ k. (in_step t snapshot now o k (h.remembers k)).0;
  },
  λ k. (in_step t snapshot now o k (h.remembers k)).1,
)

get-visible_ids :
    (d : Dict EndpointSignalState) (k : String)
    → Distinct d
    → Dict.get (visible_ids d) k ≡ elim (Dict.get d k) [
      | none ↦ none
      | some s ↦
          if s.signal_visible && is_truthy s.notification_id then some s.notification_id else none
    ]
unfolding Dict.get visible_ids
get-visible_ids [] k h = refl
get-visible_ids ((x, s) ∷ d) k h =
    ground (arith, eq_iff x k, Dict.has-get d x, get-visible_ids d k h.1)

-- The notification id of an extension is that of its outage, if the outage is confirmed.
abbrev pub outage_id : String → Outage → Option String
outage_id k up = none
outage_id k (down since confirmed) = if confirmed then some (fresh_id k since) else none

id_of :
    (k : String) (o : Outage) (old : Option EndpointSignalState)
    → Remembers k o old
    → (elim old [
      | none ↦ none
      | some s ↦
          if s.signal_visible && is_truthy s.notification_id then some s.notification_id else none
    ])
      ≡ outage_id k o
id_of k up none h = refl
id_of k up (some s) h = ground arith
id_of k (down since confirmed) none h = absurd h
id_of k (down since confirmed) (some s) h = ground (arith, fresh_id_truthy k since)

-- `notification_ids` names exactly the confirmed outages, each by its start.
pub notification_ids-outage_id :
    (t : SignalTracker) (o : String → Outage) (k : String)
    → Tracks t o
    → Dict.get (notification_ids t) k ≡ outage_id k (o k)
unfolding notification_ids
notification_ids-outage_id t o k h =
    get-visible_ids t.states k h.distinct ∙ id_of k (o k) (Dict.get t.states k) (h.remembers k)
