-- ===== src/Home/Presence.antt =====
-- The presence of a person: `_normalized_presence` and `_person_presence` of
-- pbxsense_agent/pulse.py. A presence is a pair of a state and a label.
pub mod Markers
use pbxpulse_agent.Prelude.{
  ℕ, String, Bool, true, false, not, ◌&&◌, ◌||◌, Option, none, some, List, [], ◌∷◌, ◌==◌,
  if◌then◌else◌, is_truthy, strip, lower, lower_codes, strip_codes, replace, codes, codes_eq,
  contains, any_marker,
}
use pbxpulse_agent.Snapshot.{AmiEndpoint, state_is_unavailable}

abbrev pub Presence : Type 0
Presence = String × String

-- `raw.strip().lower().replace("_", " ").replace("-", " ")`
unfoldable pub normalized : String → List ℕ
normalized raw = replace b'-' b' ' (replace b'_' b' ' (lower (strip raw)))

-- `_device_state_is_unavailable(normalized)`
unfoldable pub normalized_unavailable : List ℕ → Bool
normalized_unavailable s = state_is_unavailable (lower_codes (strip_codes s))

-- The tests on a text that is normalized, in the order of the code.
unfoldable pub presence_of : List ℕ → Option Presence
unfolding normalized_unavailable
presence_of s =
    if normalized_unavailable s
    then some ("offline", "Offline")
    else if contains (codes "do not disturb") s || codes_eq s (codes "dnd")
    then some ("do_not_disturb", "Do not disturb")
    else if contains (codes "away") s
    then some ("away", "Away")
    else if contains (codes "ringing") s
    then some ("ringing", "Ringing")
    else if any_marker ("busy" ∷ "in use" ∷ "on hold" ∷ []) s
    then some ("busy", "Busy")
    else if any_marker ("available" ∷ "reachable" ∷ "registered" ∷ "not in use" ∷ "idle" ∷ []) s
    then some ("available", "Available")
    else if contains (codes "unknown") s
    then some ("unknown", "Unknown")
    else none

-- `_normalized_presence`
unfoldable pub normalized_presence : String → Option Presence
unfolding normalized presence_of
normalized_presence raw = if is_truthy (strip raw) then presence_of (normalized raw) else none

-- `a or b` of optional presences
unfoldable pub or_presence : Option Presence → Presence → Presence
or_presence none p = p
or_presence (some q) p = q

-- The device's presence, where the user's own does not hide it.
unfoldable pub is_pressing : Option Presence → Bool
is_pressing none = false
is_pressing (some (state, label)) = state == "offline" || state == "ringing" || state == "busy"

-- `_person_presence`
unfoldable pub person_presence : AmiEndpoint → Bool → Presence
unfolding normalized_presence is_pressing or_presence
person_presence endpoint is_talking =
    let device = normalized_presence endpoint.device_state in
    let fallback = or_presence device ("unknown", "Unknown") in
    if is_talking
    then ("on_call", "On a call")
    else if is_pressing device
    then fallback
    else or_presence (normalized_presence endpoint.presence) fallback
