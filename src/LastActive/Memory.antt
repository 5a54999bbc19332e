-- ===== src/LastActive/Memory.antt =====
-- What the tracker remembers: for each phone the time of the last observation that found it
-- reachable, and on disk the time at which it was last seen before it went away.
use pbxpulse_agent.Prelude.{
  ℕ, String, ◌≡◌, refl, Bool, true, false, not, ◌&&◌, some, List, [], ◌∷◌, arith, ◌==◌, eq_iff,
  if◌then◌else◌, any,
}
use pbxpulse_agent.Prelude.Dict
use pbxpulse_agent.Prelude.Dict.{Dict}
use pbxpulse_agent.Snapshot.{AmiEndpoint, AmiSnapshot, endpoint_unavailable, is_trunk}
use pbxpulse_agent.LastActive.{
  LastActiveTracker, is_true, observe_endpoint, observe_endpoints, save, observe,
}

-- The snapshot lists a phone under the extension, and it is not unavailable.
unfoldable pub is_phone : String → AmiEndpoint → Bool
is_phone x e = not (is_trunk e) && e.extension == x

abbrev pub seen_healthy : String → List AmiEndpoint → Bool
seen_healthy x = any (λ e. is_phone x e && not (endpoint_unavailable e))

observe_endpoint-last_active :
    (now : ℕ) (acc : LastActiveTracker × Bool) (e : AmiEndpoint) (x : String)
    → Dict.get (observe_endpoint now acc e).0.last_active x ≡ (
        if is_phone x e && not (endpoint_unavailable e)
        then some now
        else Dict.get acc.0.last_active x)
unfolding observe_endpoint is_phone
observe_endpoint-last_active now (t, changed) e x =
    ground (arith, Dict.get-put t.last_active e.extension x now)

observe_endpoints-last_active :
    (now : ℕ) (acc : LastActiveTracker × Bool) (l : List AmiEndpoint) (x : String)
    → Dict.get (observe_endpoints now acc l).0.last_active x
      ≡ (if seen_healthy x l then some now else Dict.get acc.0.last_active x)
unfolding observe_endpoints
observe_endpoints-last_active now acc [] x = refl
observe_endpoints-last_active now acc (e ∷ l) x = ground (
  arith,
  observe_endpoint-last_active now acc e x,
  observe_endpoints-last_active now (observe_endpoint now acc e) l x,
)

-- An observation sets the time of exactly the phones that a reachable PBX lists as healthy, and
-- returns what it remembers, whether or not the disk takes it.
pub observe-last_active :
    (written : Bool) (t : LastActiveTracker) (snapshot : AmiSnapshot) (now : ℕ) (x : String)
    → (Dict.get (observe written t snapshot now).0.last_active x ≡ (
        if snapshot.reachable && seen_healthy x snapshot.endpoints
        then some now
        else Dict.get t.last_active x))
      × ((observe written t snapshot now).1 ≡ (observe written t snapshot now).0.last_active)
unfolding observe save
observe-last_active written t snapshot now x =
    ground (arith, observe_endpoints-last_active now (t, false) snapshot.endpoints x)

-- The first phone listed under the extension is unavailable.
unfoldable pub is_listed_out : String → List AmiEndpoint → Bool
is_listed_out x [] = false
is_listed_out x (e ∷ l) = if is_phone x e then endpoint_unavailable e else is_listed_out x l

observe_endpoint-changed :
    (now : ℕ) (acc : LastActiveTracker × Bool) (e : AmiEndpoint) (x : String)
    → is_true (Dict.get acc.0.was_available x) ≡ true
    → (is_phone x e && endpoint_unavailable e ≡ true → (observe_endpoint now acc e).1 ≡ true)
      × (is_phone x e ≡ false
          → is_true (Dict.get (observe_endpoint now acc e).0.was_available x) ≡ true)
unfolding observe_endpoint is_phone
observe_endpoint-changed now (t, changed) e x h = (
  λ k. ground (arith, eq_iff e.extension x),
  λ k. ground (
    arith,
    eq_iff e.extension x,
    Dict.get-put t.was_available e.extension x (not (endpoint_unavailable e)),
  ),
)

observe_endpoint_keeps :
    (now : ℕ) (acc : LastActiveTracker × Bool) (e : AmiEndpoint)
    → acc.1 ≡ true
    → (observe_endpoint now acc e).1 ≡ true
unfolding observe_endpoint
observe_endpoint_keeps now (t, changed) e h = ground arith

observe_endpoints_keeps :
    (now : ℕ) (acc : LastActiveTracker × Bool) (l : List AmiEndpoint)
    → acc.1 ≡ true
    → (observe_endpoints now acc l).1 ≡ true
unfolding observe_endpoints
observe_endpoints_keeps now acc [] h = h
observe_endpoints_keeps now acc (e ∷ l) h =
    observe_endpoints_keeps now (observe_endpoint now acc e) l (observe_endpoint_keeps now acc e h)

observe_endpoints-changed :
    (now : ℕ) (acc : LastActiveTracker × Bool) (l : List AmiEndpoint) (x : String)
    → is_true (Dict.get acc.0.was_available x) ≡ true
    → is_listed_out x l ≡ true
    → (observe_endpoints now acc l).1 ≡ true
unfolding observe_endpoints is_listed_out
observe_endpoints-changed now acc [] x h k = absurd (ground arith)
observe_endpoints-changed now acc (e ∷ l) x h k = ground (
  arith,
  observe_endpoint-changed now acc e x h,
  observe_endpoints_keeps now (observe_endpoint now acc e) l,
  observe_endpoints-changed now (observe_endpoint now acc e) l x,
)

-- When a reachable PBX lists a phone as unavailable that was available when last listed, and the
-- disk takes the write, the file holds all that is remembered.
pub observe-saved :
    (t : LastActiveTracker) (snapshot : AmiSnapshot) (now : ℕ) (x : String)
    → snapshot.reachable ≡ true
    → Dict.get t.was_available x ≡ some true
    → is_listed_out x snapshot.endpoints ≡ true
    → (observe true t snapshot now).0.saved ≡ (observe true t snapshot now).0.last_active
unfolding observe save
observe-saved t snapshot now x up was out =
    ground (arith, observe_endpoints-changed now (t, false) snapshot.endpoints x)
