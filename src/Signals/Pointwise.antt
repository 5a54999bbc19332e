-- ===== src/Signals/Pointwise.antt =====
-- An observation treats each extension on its own (pbxsense_agent/pulse.py,
-- `EndpointAvailabilitySignalTracker.observe`): what the tracker knows of one of them afterwards
-- depends on what it knew of that one and on that one's entry in the snapshot.
use pbxpulse_agent.Prelude.{
  ℕ, String, ◌≡◌, refl, Bool, true, false, ◌&&◌, ◌||◌, Option, none, some, List, [], ◌∷◌, arith,
  ◌==◌, eq_iff, if◌then◌else◌, keep, map,
}
use pbxpulse_agent.Prelude.Dict
use pbxpulse_agent.Prelude.Dict.{Dict, Distinct}
use pbxpulse_agent.Prelude.Sets
use pbxpulse_agent.Snapshot.{AmiEndpoint, AmiSnapshot, endpoint_unavailable}
use pbxpulse_agent.Signals.{
  EndpointSignalState, SignalTracker, fresh, observe_unavailable, observe_available,
  observe_endpoint, observe_all, has_role, monitored, observe,
}

abbrev or_fresh : Option EndpointSignalState → EndpointSignalState
or_fresh none = fresh
or_fresh (some s) = s

-- The machine of one extension: `none` for "not in the snapshot", `some true` for "unavailable".
unfoldable pub react :
    SignalTracker
    → ℕ
    → String
    → Option Bool
    → Option EndpointSignalState
    → Option EndpointSignalState × Bool
react t now k none old = (none, false)
react t now k (some true) old =
    let after = observe_unavailable t.outage_confirmation k now (or_fresh old) in
    (some after, after.signal_visible)
react t now k (some false) old =
    (observe_available t.recovery_confirmation now (or_fresh old), false)

abbrev entry : Dict AmiEndpoint → String → Option Bool
entry d k = elim (Dict.get d k) [ none ↦ none | some e ↦ some (endpoint_unavailable e) ]

-- The last endpoint of the wanted role that the snapshot lists under the extension.
unfoldable pub reading : String → List AmiEndpoint → String → Option Bool
reading role [] k = none
reading role (e ∷ l) k = elim (reading role l k) [
  | some b ↦ some b
  | none ↦ if has_role role e && e.extension == k then some (endpoint_unavailable e) else none
]

module _ (t : SignalTracker) (now : ℕ) where
  observe_endpoint-states :
      (acc : Dict EndpointSignalState × List String) (x : String) (e : AmiEndpoint) (j : String)
      → Dict.get (observe_endpoint t now acc x e).0 j ≡ (
          if x == j
          then (react t now x (some (endpoint_unavailable e)) (Dict.get acc.0 x)).0
          else Dict.get acc.0 j)
  unfolding observe_endpoint react
  observe_endpoint-states (states, visible) x e j = ground (
    arith,
    Dict.get-put states x j
        (observe_unavailable t.outage_confirmation x now (or_fresh (Dict.get states x))),
    Dict.get-update states x j
        (observe_available t.recovery_confirmation now (or_fresh (Dict.get states x))),
  )

  observe_endpoint-visible :
      (acc : Dict EndpointSignalState × List String) (x : String) (e : AmiEndpoint) (j : String)
      → Sets.member j (observe_endpoint t now acc x e).1 ≡ (
          (x == j && (react t now x (some (endpoint_unavailable e)) (Dict.get acc.0 x)).1)
          || Sets.member j acc.1)
  unfolding observe_endpoint react
  observe_endpoint-visible (states, visible) x e j = ground (arith, Sets.member-add j x visible)

  after : Option Bool → String → Option EndpointSignalState → Option EndpointSignalState
  after none k old = old
  after (some b) k old = (react t now k (some b) old).0

  abbrev seen : Option Bool → String → Option EndpointSignalState → Bool → Bool
  seen none k old v = v
  seen (some b) k old v = (react t now k (some b) old).1 || v

  observe_all-states :
      (acc : Dict EndpointSignalState × List String) (d : Dict AmiEndpoint) (j : String)
      → Distinct d
      → Dict.get (observe_all t now acc d).0 j ≡ after (entry d j) j (Dict.get acc.0 j)
  unfolding observe_all Dict.get after
  observe_all-states acc [] j h = refl
  observe_all-states acc ((x, e) ∷ d) j h = ground (
    arith,
    eq_iff x j,
    Dict.has-get d x,
    observe_endpoint-states acc x e j,
    observe_all-states (observe_endpoint t now acc x e) d j h.1,
  )

  observe_all-visible :
      (acc : Dict EndpointSignalState × List String) (d : Dict AmiEndpoint) (j : String)
      → Distinct d
      → Sets.member j (observe_all t now acc d).1
        ≡ seen (entry d j) j (Dict.get acc.0 j) (Sets.member j acc.1)
  unfolding observe_all Dict.get
  observe_all-visible acc [] j h = refl
  observe_all-visible acc ((x, e) ∷ d) j h = ground (
    arith,
    eq_iff x j,
    Dict.has-get d x,
    observe_endpoint-states acc x e j,
    observe_endpoint-visible acc x e j,
    observe_all-visible (observe_endpoint t now acc x e) d j h.1,
  )

-- `monitored` holds the last listed endpoint of each extension.
abbrev later : Option Bool → Option Bool → Option Bool
later (some b) old = some b
later none old = old

entry-from_entries :
    (role : String) (d : Dict AmiEndpoint) (l : List AmiEndpoint) (k : String)
    → entry (Dict.from_entries d (map (λ e. (e.extension, e)) (keep (has_role role) l))) k
      ≡ later (reading role l k) (entry d k)
unfolding reading Dict.from_entries
entry-from_entries role d [] k = refl
entry-from_entries role d (e ∷ l) k = ground (
  arith,
  Dict.get-put d e.extension k e,
  entry-from_entries role d l k,
  entry-from_entries role (Dict.put d e.extension e) l k,
)

entry-monitored :
    (role : String) (l : List AmiEndpoint) (k : String)
    → entry (monitored role l) k ≡ reading role l k
unfolding monitored Dict.get
entry-monitored role l k = ground (arith, entry-from_entries role [] l k)

monitored-Distinct : (role : String) (l : List AmiEndpoint) → Distinct (monitored role l)
unfolding monitored
monitored-Distinct role l = Dict.from_entries-Distinct [] _ tt

-- After a reachable snapshot, what is remembered of an extension, and whether its Signal is shown,
-- is what that extension's own machine makes of the last endpoint listed under it.
pub observe-react :
    (t : SignalTracker) (snapshot : AmiSnapshot) (now : ℕ) (k : String)
    → snapshot.reachable ≡ true
    → (Dict.get (observe t snapshot now).0.states k
        ≡ (react t now k (reading t.role snapshot.endpoints k) (Dict.get t.states k)).0)
      × (Sets.member k (observe t snapshot now).1
          ≡ (react t now k (reading t.role snapshot.endpoints k) (Dict.get t.states k)).1)
unfolding observe react after Sets.member
observe-react t snapshot now k up =
    let d = monitored t.role snapshot.endpoints in
    let kept = Dict.keep_keys (Dict.has d) t.states in
    let distinct = monitored-Distinct t.role snapshot.endpoints in
    ground (
      arith,
      entry-monitored t.role snapshot.endpoints k,
      Dict.has-get d k,
      Dict.get-keep_keys (Dict.has d) t.states k,
      observe_all-states t now (kept, []) d k distinct,
      observe_all-visible t now (kept, []) d k distinct,
    )

-- An unreachable snapshot changes nothing and shows nothing.
pub observe_unreachable :
    (t : SignalTracker) (snapshot : AmiSnapshot) (now : ℕ)
    → snapshot.reachable ≡ false
    → observe t snapshot now ≡ (t, [])
unfolding observe
observe_unreachable t snapshot now down = rw down
