-- ===== src/Home/People.antt =====
-- The rows of people and trunks: `_build_people` and `_build_trunks` of pbxsense_agent/pulse.py.
pub mod Rows
pub mod Order
use Prim.Native.String.{compare}
use text.Mathlib.Text.{is_lt}
use pbxpulse_agent.Prelude.{
  ℕ, ℤ, String, Bool, true, false, not, ◌&&◌, ◌||◌, Option, none, some, List, [], ◌∷◌, ◌==◌,
  if◌then◌else◌, is_truthy, is_pos, or_else, strip, lower, codes, any_marker, concat, keep, map,
}
use pbxpulse_agent.Prelude.Clock.{isoformat}
use pbxpulse_agent.Prelude.Dict
use pbxpulse_agent.Prelude.Dict.{Dict}
use pbxpulse_agent.Prelude.Sets
use pbxpulse_agent.Json.{int_text}
use pbxpulse_agent.Snapshot.{AmiChannel, AmiEndpoint, endpoint_unavailable, is_trunk}
use pbxpulse_agent.Home.Names.{extension_name, person_endpoint, trunk_display_name}
use pbxpulse_agent.Home.Presence.{Presence, person_presence}

-- `sorted(endpoints, key=lambda item: item.extension)`, which is stable.
unfoldable pub insert_endpoint : AmiEndpoint → List AmiEndpoint → List AmiEndpoint
insert_endpoint e [] = e ∷ []
insert_endpoint e (f ∷ l) =
    let rest = insert_endpoint e l in
    if is_lt (compare f.extension e.extension) then f ∷ rest else e ∷ f ∷ l

unfoldable pub sorted_endpoints : List AmiEndpoint → List AmiEndpoint
unfolding insert_endpoint
sorted_endpoints [] = []
sorted_endpoints (e ∷ l) = insert_endpoint e (sorted_endpoints l)

pub record Person : Type 0 where
  pub name : String
  pub extension : String
  pub status : String
  pub status_text : String
  pub detail : String
  pub ip_address : String
  pub presence : Presence
  -- `none` is a missing `lastActiveAt`
  pub last_active_at : Option String

-- `talking_extensions`
unfoldable pub talking_extensions : List AmiChannel → List String
talking_extensions channels = Sets.of_list (keep is_truthy (map person_endpoint channels))

unfoldable pub is_on_call : List String → AmiEndpoint → Bool
is_on_call talking endpoint =
    Sets.member endpoint.extension talking || is_pos endpoint.active_channels

unfoldable pub iso_of : Option ℕ → Option String
iso_of none = none
iso_of (some t) = some (isoformat t)

unfoldable pub person_row : List String → Dict String → Dict ℕ → AmiEndpoint → Person
person_row talking extension_names last_active endpoint =
    let presence = person_presence endpoint (is_on_call talking endpoint) in
    let offline = presence.0 == "offline" in
    let on_call = presence.0 == "on_call" in
    record {
      name = extension_name endpoint.extension extension_names endpoint.label;
      extension = endpoint.extension;
      status = if on_call then "talking" else if offline then "unavailable" else "online";
      status_text = if on_call then "On a call" else if offline then "Unavailable" else presence.1;
      detail =
          if on_call
          then "Active now"
          else if offline
          then or_else endpoint.device_state "Not reachable"
          else or_else endpoint.device_state "Reachable";
      ip_address = endpoint.ip_address;
      presence = presence;
      last_active_at = if offline then iso_of (Dict.get last_active endpoint.extension) else none;
    }

unfoldable pub phones : List AmiEndpoint → List AmiEndpoint
phones endpoints = keep (λ e. not (is_trunk e)) (sorted_endpoints endpoints)

-- `_build_people`
unfoldable pub build_people :
    List AmiEndpoint → List AmiChannel → Dict String → Dict ℕ → List Person
unfolding phones person_row
build_people endpoints channels extension_names last_active =
    map (person_row (talking_extensions channels) extension_names last_active) (phones endpoints)

-- `_registered_trunk_detail`
unfoldable pub registered_trunk_detail : String → String
registered_trunk_detail device_state =
    let state = strip device_state in
    if not (is_truthy state)
    then "Registered and ready"
    else if any_marker ("registered" ∷ "reachable" ∷ "available" ∷ "ok" ∷ []) (lower state)
    then "Registered and ready"
    else state

pub record Trunk : Type 0 where
  pub name : String
  pub endpoint : String
  pub status_text : String
  pub detail : String
  pub active_channels : ℤ
  pub available : Bool

unfoldable pub trunk_row : Dict String → AmiEndpoint → Trunk
trunk_row extension_names endpoint =
    let unavailable = endpoint_unavailable endpoint in
    record {
      name = trunk_display_name (extension_name endpoint.extension extension_names endpoint.label);
      endpoint = endpoint.extension;
      status_text = if unavailable then "Needs attention" else "Working";
      detail =
          if unavailable
          then or_else endpoint.device_state "Not reachable"
          else if is_pos endpoint.active_channels
          then concat ("Carrying " ∷ int_text endpoint.active_channels ∷ " active channel(s)" ∷ [])
          else registered_trunk_detail endpoint.device_state;
      active_channels = endpoint.active_channels;
      available = not unavailable;
    }

-- `_build_trunks`
unfoldable pub build_trunks : List AmiEndpoint → Dict String → List Trunk
unfolding trunk_row
build_trunks endpoints extension_names =
    map (trunk_row extension_names) (keep is_trunk (sorted_endpoints endpoints))
