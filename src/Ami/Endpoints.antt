-- ===== src/Ami/Endpoints.antt =====
-- The states and the roles of endpoints in pbxsense_agent/ami.py. A state in lower case is a row of
-- code points.
use pbxpulse_agent.Prelude.{
  ℕ, String, Bool, true, false, not, ◌&&◌, ◌||◌, List, [], ◌∷◌, ◌++◌, ◌==◌, if◌then◌else◌,
  is_truthy, strip, strip_char, lower, codes, contains, nat_eq, before_code, join, or_else,
  any_marker, any, map,
}
use pbxpulse_agent.Prelude.Dict
use pbxpulse_agent.Prelude.Dict.{Dict}
use pbxpulse_agent.Ami.{AmiEvent, value}

-- `s.startswith(marker)`
starts : List ℕ → List ℕ → Bool
starts [] s = true
starts (m ∷ marker) [] = false
starts (m ∷ marker) (c ∷ s) = nat_eq m c && starts marker s

-- `_sip_peer_device_state`
unfoldable pub sip_peer_device_state : String → String
unfolding starts
sip_peer_device_state status =
    let normalized = lower (strip status) in
    if starts (codes "ok") normalized || starts (codes "lagged") normalized
    then "Reachable"
    else if any_marker ("unreachable" ∷ "unknown" ∷ "rejected" ∷ []) normalized
    then "Unreachable"
    else status

-- `marker in state`
abbrev has_marker : String → List ℕ → Bool
has_marker marker state = contains (codes marker) state

-- `_contact_state_is_reachable`
unfoldable pub contact_state_is_reachable : List ℕ → Bool
contact_state_is_reachable state =
    (has_marker "reachable" state && not (has_marker "unreachable" state))
    || (has_marker "available" state && not (has_marker "unavailable" state))
    || has_marker "nonqualified" state
    || has_marker "created" state

-- `_contact_state_is_unreachable`
unfoldable pub contact_state_is_unreachable : List ℕ → Bool
contact_state_is_unreachable state =
    has_marker "unreachable" state || has_marker "unavailable" state || has_marker "removed" state

-- `_contact_device_state`
unfoldable pub contact_device_state : List String → String
contact_device_state [] = ""
contact_device_state (state ∷ l) =
    let normalized_states = map lower (state ∷ l) in
    if any contact_state_is_reachable normalized_states
    then "Reachable"
    else if any contact_state_is_unreachable normalized_states
    then "Unreachable"
    else state

-- The first of the fields that is not empty.
unfoldable pub first_field : Dict String → List String → String
first_field fields [] = ""
first_field fields (key ∷ l) = or_else (value fields key) (first_field fields l)

-- The endpoint and the state of a contact.
unfoldable pub contact_endpoint : Dict String → String
contact_endpoint fields =
    strip (first_field fields ("EndpointName" ∷ "Endpoint" ∷ "AOR" ∷ "ObjectName" ∷ []))

unfoldable pub contact_state : Dict String → String
contact_state fields = strip (first_field fields ("Status" ∷ "ContactStatus" ∷ "UserAgent" ∷ []))

-- `_contact_states_from_events`, with the dict of the events before
unfoldable pub add_contact_states : Dict (List String) → List AmiEvent → Dict (List String)
add_contact_states contacts [] = contacts
add_contact_states contacts (event ∷ l) =
    let endpoint = contact_endpoint event.fields in
    let state = contact_state event.fields in
    add_contact_states
      (if event.name == "ContactList" && is_truthy endpoint && is_truthy state
        then Dict.put contacts endpoint (Dict.get_default contacts endpoint [] ++ state ∷ [])
        else contacts)
      l

unfoldable pub contact_states_from_events : List AmiEvent → Dict (List String)
contact_states_from_events events = add_contact_states [] events

-- `_clean_label`: `value.split("<", 1)[0]` is the value where it has no such sign.
unfoldable pub clean_label : String → String
clean_label label = strip_char b'"' (strip (before_code b'<' label))

-- `_first_value`
unfoldable pub first_value : Dict String → List String → String
first_value fields [] = ""
first_value fields (key ∷ l) =
    let rest = first_value fields l in
    if is_truthy (strip (value fields key)) then clean_label (strip (value fields key)) else rest

abbrev pub trunk_markers : List String
trunk_markers =
    "trunk" ∷ "provider" ∷ "carrier" ∷ "sipgate" ∷ "voip" ∷ "pstn" ∷ "itsp" ∷ "cosmote" ∷ "ote"
    ∷ "vodafone" ∷ "nova" ∷ "wind" ∷ "telekom" ∷ "twilio" ∷ "flowroute" ∷ "voipms" ∷ "voip.ms"
    ∷ "didww" ∷ "telnyx" ∷ "bandwidth" ∷ "siptrunk" ∷ []

-- `_looks_like_trunk`; the name is put in lower case once more with the rest.
unfoldable pub looks_like_trunk : String → Dict String → Bool
looks_like_trunk name fields = any_marker trunk_markers (
    lower (
      join " " (
        strip name
        ∷ value fields "Description"
        ∷ value fields "Aor"
        ∷ value fields "Auths"
        ∷ value fields "OutboundAuths"
        ∷ value fields "Transport"
        ∷ [])))

-- `_endpoint_role`
unfoldable pub endpoint_role : String → Dict String → String
endpoint_role name fields = if looks_like_trunk name fields then "trunk" else "extension"
