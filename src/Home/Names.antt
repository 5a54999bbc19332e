-- ===== src/Home/Names.antt =====
-- Names and endpoints in calls: the helpers at the end of pbxsense_agent/pulse.py. The names that
-- were set by hand are a dict by extension, and so are the labels that were observed.
use pbxpulse_agent.Prelude.{
  ℕ, String, Bool, false, not, ◌&&◌, ◌||◌, List, [], ◌∷◌, ◌==◌, if◌then◌else◌, is_truthy, or_else,
  strip, lower, codes, one_of, codes_eq, contains, concat, leb, nat_eq, all_digits, count_digits,
  before_code, after_code,
}
use pbxpulse_agent.Prelude.Dict
use pbxpulse_agent.Prelude.Dict.{Dict}
use pbxpulse_agent.Snapshot.{AmiChannel}

-- `_clean_unknown`
unfoldable pub clean_unknown : String → String
clean_unknown value =
    let cleaned = strip value in
    if one_of ("" ∷ "<unknown>" ∷ "unknown" ∷ []) (lower cleaned) then "" else cleaned

-- `_endpoint_from_channel`
unfoldable pub endpoint_from_channel : String → String
endpoint_from_channel channel = before_code b'-' (after_code b'/' channel)

-- `_person_endpoint`
unfoldable pub person_endpoint : AmiChannel → String
person_endpoint channel =
    or_else channel.endpoint (or_else (endpoint_from_channel channel.channel) channel.extension)

unfoldable pub first_other : String → List String → String
first_other person_endpoint [] = ""
first_other person_endpoint (candidate ∷ l) =
    let rest = first_other person_endpoint l in
    if is_truthy candidate && not (candidate == person_endpoint) then candidate else rest

-- `_peer_endpoint`
unfoldable pub peer_endpoint : AmiChannel → String → String
peer_endpoint channel person =
    first_other person (channel.connected_number ∷ channel.extension ∷ channel.caller_number ∷ [])

-- `extension.strip().isdigit()`
is_number : String → Bool
is_number extension = is_truthy (strip extension) && all_digits (codes (strip extension))

-- `_looks_like_extension`
unfoldable pub looks_like_extension : String → String → Bool
unfolding is_number
looks_like_extension value extension =
    let normalized = lower (strip value) in
    let own = lower (strip extension) in
    if not (is_number extension) && codes_eq normalized own
    then false
    else one_of ("" ∷ []) normalized
      || codes_eq normalized own
      || codes_eq normalized (lower (concat ("pjsip/" ∷ extension ∷ [])))
      || codes_eq normalized (lower (concat ("sip/" ∷ extension ∷ [])))

-- `_extension_name`
unfoldable pub extension_name : String → Dict String → String → String
extension_name extension extension_names observed_label =
    if is_truthy observed_label && not (looks_like_extension observed_label extension)
    then observed_label
    else Dict.get_default extension_names extension extension

-- `_party_name`
unfoldable pub party_name : String → String → Dict String → Dict String → String
party_name extension fallback extension_names endpoint_labels =
    let observed_label = Dict.get_default endpoint_labels extension "" in
    let manual_name = Dict.get_default extension_names extension "" in
    if is_truthy extension
    then (if is_truthy observed_label || is_truthy manual_name
        then extension_name extension extension_names observed_label
        else extension)
    else or_else (clean_unknown fallback) "a caller"

unfoldable pub first_fallback : String → List String → String
first_fallback person_name [] = "a caller"
first_fallback person_name (fallback ∷ l) =
    let rest = first_fallback person_name l in
    let cleaned = clean_unknown fallback in
    if is_truthy cleaned && not (cleaned == person_name) then cleaned else rest

-- `_peer_name`
unfoldable pub peer_name : AmiChannel → String → Dict String → Dict String → String
peer_name channel person extension_names endpoint_labels =
    let peer = peer_endpoint channel person in
    let person_name = party_name person "" extension_names endpoint_labels in
    if is_truthy peer
    then party_name peer (or_else channel.connected channel.caller) extension_names endpoint_labels
    else first_fallback person_name (channel.connected ∷ channel.caller ∷ [])

-- `_caller_name`
unfoldable pub caller_name : AmiChannel → String
caller_name channel = or_else channel.caller (or_else channel.connected "a caller")

-- `_trunk_display_name`
unfoldable pub trunk_display_name : String → String
trunk_display_name name =
    if contains (codes "trunk") (lower name) then name else concat ("SIP trunk " ∷ name ∷ [])

begins_with_plus : List ℕ → Bool
begins_with_plus [] = false
begins_with_plus (c ∷ s) = nat_eq c b'+'

-- `_looks_like_callable_number`
unfoldable pub looks_like_callable_number : String → Bool
unfolding begins_with_plus
looks_like_callable_number value =
    let stripped = strip value in
    let digits = count_digits (codes stripped) in
    if nat_eq digits 0
    then false
    else if one_of ("s" ∷ "i" ∷ "t" ∷ "h" ∷ "e" ∷ "fax" ∷ []) (lower stripped)
    then false
    else leb 3 digits || begins_with_plus (codes stripped)

-- `_trunk_call_caller`
unfoldable pub trunk_call_caller : AmiChannel → String
trunk_call_caller channel =
    or_else (clean_unknown channel.caller_number) (
      or_else (clean_unknown channel.caller) (or_else (clean_unknown channel.connected) "A caller"))

unfoldable pub first_callable : String → List String → String
first_callable trunk_endpoint [] = ""
first_callable trunk_endpoint (candidate ∷ l) =
    let rest = first_callable trunk_endpoint l in
    let cleaned = clean_unknown candidate in
    if is_truthy cleaned && not (cleaned == trunk_endpoint) && looks_like_callable_number cleaned
    then cleaned
    else rest

-- `_trunk_call_destination`
unfoldable pub trunk_call_destination : AmiChannel → String → String
trunk_call_destination channel trunk_number =
    let trunk_endpoint = or_else channel.endpoint (endpoint_from_channel channel.channel) in
    let found =
      first_callable trunk_endpoint
        (channel.connected_number ∷ channel.extension ∷ channel.connected ∷ []) in
    or_else found (clean_unknown trunk_number)

-- `_trunk_call_title`
unfoldable pub trunk_call_title : AmiChannel → String → String
trunk_call_title channel trunk_number =
    let caller = trunk_call_caller channel in
    let destination = trunk_call_destination channel trunk_number in
    if is_truthy destination
    then concat (caller ∷ " is calling " ∷ destination ∷ "." ∷ [])
    else concat (caller ∷ " is using the SIP trunk." ∷ [])
