-- ===== src/LastActive.antt =====
-- `EndpointLastActiveTracker` of pbxsense_agent/presence_history.py. The lock serialises the calls.
-- `saved` is what the file holds; whether a write succeeds is the disk's answer, an argument.
pub mod Memory
use pbxpulse_agent.Prelude.{
  ℕ, String, Bool, true, false, not, ◌&&◌, ◌||◌, Option, none, some, List, [], ◌∷◌, if◌then◌else◌,
  is_truthy,
}
use pbxpulse_agent.Prelude.Dict
use pbxpulse_agent.Prelude.Dict.{Dict}
use pbxpulse_agent.Snapshot.{AmiEndpoint, AmiSnapshot, endpoint_unavailable, is_trunk}

pub record LastActiveTracker : Type 0 where
  pub last_active : Dict ℕ
  pub was_available : Dict Bool
  pub saved : Dict ℕ

-- The constructor with `_load`: the entries of the file, less those with an empty key; an unreadable
-- file (`none`) is an empty one.
unfoldable pub init : Option (Dict ℕ) → LastActiveTracker
init none = record { last_active = []; was_available = []; saved = [] }
init (some file) = record {
  last_active = Dict.keep_keys is_truthy file;
  was_available = [];
  saved = file;
}

abbrev pub is_true : Option Bool → Bool
is_true none = false
is_true (some b) = b

-- One round of the loop: the tracker and the flag `changed`.
unfoldable pub observe_endpoint :
    ℕ → LastActiveTracker × Bool → AmiEndpoint → LastActiveTracker × Bool
observe_endpoint now (t, changed) e =
    let x = e.extension in
    let seen = Dict.put t.was_available x (not (endpoint_unavailable e)) in
    if is_trunk e
    then (t, changed)
    else if not (endpoint_unavailable e)
    then (record t { last_active = Dict.put t.last_active x now; was_available = seen }, changed)
    else (record t { was_available = seen }, changed || is_true (Dict.get t.was_available x))

unfoldable pub observe_endpoints :
    ℕ → LastActiveTracker × Bool → List AmiEndpoint → LastActiveTracker × Bool
observe_endpoints now acc [] = acc
observe_endpoints now acc (e ∷ l) = observe_endpoints now (observe_endpoint now acc e) l

-- `_save_locked`: a failed write is ignored.
unfoldable pub save : Bool → LastActiveTracker → LastActiveTracker
save written t = if written then record t { saved = t.last_active } else t

unfoldable pub observe : Bool → LastActiveTracker → AmiSnapshot → ℕ → LastActiveTracker × Dict ℕ
observe written t snapshot now =
    let (t', changed) = observe_endpoints now (t, false) snapshot.endpoints in
    let after = if changed then save written t' else t' in
    if snapshot.reachable then (after, after.last_active) else (t, t.last_active)
