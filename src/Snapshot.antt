-- ===== src/Snapshot.antt =====
-- The data that a PBX connector hands over: the dataclasses of pbxsense_agent/pulse.py and
-- pbxsense_agent/history.py, and pulse.py's reading of device states. A `datetime` is a number of
-- microseconds, and `None` is `none`.
use pbxpulse_agent.Prelude.{
  ℕ, ℤ, String, Bool, Option, List, [], ◌∷◌, ◌==◌, ◌||◌, lower, strip, replace, any_marker, one_of,
  is_truthy,
}

pub record CdrCall : Type 0 where
  pub source : String
  pub destination : String
  pub disposition : String
  pub started_at : Option ℕ
  pub duration_seconds : ℤ
  pub context : String
  pub channel : String
  pub destination_channel : String
  pub last_app : String
  pub last_data : String
  pub recording_id : String

pub record VoicemailMessage : Type 0 where
  pub mailbox : String
  pub caller : String
  pub created_at : Option ℕ

pub record AmiChannel : Type 0 where
  pub channel : String
  pub extension : String
  pub caller : String
  pub connected : String
  pub state : String
  pub endpoint : String
  pub caller_number : String
  pub connected_number : String
  pub duration : String
  pub unique_id : String
  pub linked_id : String

pub record AmiEndpoint : Type 0 where
  pub extension : String
  pub device_state : String
  pub active_channels : ℤ
  pub label : String
  pub role : String
  pub number : String
  pub presence : String
  pub ip_address : String

pub record AmiQueue : Type 0 where
  pub name : String
  pub waiting_callers : ℤ
  pub longest_wait_seconds : ℤ
  pub available_members : ℤ
  pub busy_members : ℤ
  pub paused_members : ℤ
  pub total_members : ℤ

-- The fields that the modelled components read.
pub record AmiSnapshot : Type 0 where
  pub reachable : Bool
  pub channels : List AmiChannel
  pub endpoints : List AmiEndpoint
  pub queues : List AmiQueue
  pub recent_calls : List CdrCall
  pub voicemails : List VoicemailMessage
  pub error : Option String

abbrev pub unavailable_markers : List String
unavailable_markers =
    "unavailable" ∷ "unreachable" ∷ "offline" ∷ "removed" ∷ "unregistered" ∷ "not registered"
    ∷ "unknown" ∷ "rejected" ∷ []

-- `_device_state_is_unavailable`, on the lower-case code points of the text
unfoldable pub state_is_unavailable : List ℕ → Bool
state_is_unavailable s = any_marker unavailable_markers (replace b'-' b' ' (replace b'_' b' ' s))

unfoldable pub device_state_is_unavailable : String → Bool
unfolding state_is_unavailable
device_state_is_unavailable raw = state_is_unavailable (lower (strip raw))

unfoldable pub endpoint_unavailable : AmiEndpoint → Bool
unfolding device_state_is_unavailable
endpoint_unavailable endpoint = device_state_is_unavailable endpoint.device_state

unfoldable pub is_trunk : AmiEndpoint → Bool
is_trunk endpoint = endpoint.role == "trunk"

unfoldable pub is_active_channel : AmiChannel → Bool
is_active_channel channel =
    one_of ("up" ∷ "ring" ∷ "ringing" ∷ []) (lower channel.state) || is_truthy channel.connected
