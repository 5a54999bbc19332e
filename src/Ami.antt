-- ===== src/Ami.antt =====
-- The Asterisk Manager Interface of pbxsense_agent/ami.py: the fields of a packet, and the rows of
-- actions that make up a snapshot. The packets are those that `_read_packet` reads from the
-- connection, where a packet may time out, and there is none once the connection is closed.
pub mod Stream
pub mod Queues
pub mod Endpoints
use Prim.Native.Char.{Char, code}
use pbxpulse_agent.Prelude.{
  ℕ, ◌+◌, String, ◌≡◌, refl, Bool, true, false, not, ◌&&◌, ◌||◌, Option, none, some, List, [], ◌∷◌,
  ◌++◌, ◌==◌, nat_eq, if◌then◌else◌, concat, is_truthy, strip, or_else, leb,
}
use pbxpulse_agent.Prelude.Dict
use pbxpulse_agent.Prelude.Dict.{Dict}
use pbxpulse_agent.Snapshot.{AmiChannel}
use pbxpulse_agent.Home.Names.{endpoint_from_channel}

pub record AmiEvent : Type 0 where
  pub name : String
  pub fields : Dict String

-- `fields.get(key, "")`
abbrev pub value : Dict String → String → String
value fields key = Dict.get_default fields key ""

-- The parts of a line at its first colon, if it has one.
unfoldable pub cut : String → Option (String × String)
cut String.[] = none
cut (String.◌∷◌ c s) =
    let rest = cut s in
    if nat_eq (code c) b':'
    then some ("", s)
    else elim rest [ none ↦ none | some p ↦ some (String.◌∷◌ c p.0, p.1) ]

-- The characters at which `splitlines` ends a line. A line end of two characters makes an empty
-- line here, which has no colon.
unfoldable pub is_line_end : ℕ → Bool
is_line_end c =
    (leb 10 c && leb c 13)
    || (leb 28 c && leb c 30)
    || nat_eq c 0x85
    || nat_eq c 0x2028
    || nat_eq c 0x2029

push_line : Char → List String → List String
push_line c [] = String.◌∷◌ c "" ∷ []
push_line c (s ∷ l) = String.◌∷◌ c s ∷ l

unfoldable pub lines : String → List String
unfolding push_line
lines String.[] = "" ∷ []
lines (String.◌∷◌ c s) =
    let rest = lines s in if is_line_end (code c) then "" ∷ rest else push_line c rest

unfoldable pub add_line : Dict String → Option (String × String) → Dict String
add_line fields none = fields
add_line fields (some (key, text)) = Dict.put fields (strip key) (strip text)

unfoldable pub add_lines : Dict String → List String → Dict String
add_lines fields [] = fields
add_lines fields (line ∷ l) = add_lines (add_line fields (cut line)) l

-- The fields of a packet that `_read_packet` has read.
unfoldable pub packet_fields : String → Dict String
packet_fields raw = add_lines [] (lines raw)

-- What `_send_action` sends.
unfoldable pub action_text : Dict String → String
action_text [] = "\r\n"
action_text ((key, text) ∷ l) = concat (key ∷ ": " ∷ text ∷ "\r\n" ∷ action_text l ∷ [])

pub data Received : Type 0 where
  packet : String → Received
  timed_out : Received

-- What reading gives, and the packets that are still to come; `none` is an `AmiError`.
abbrev pub Reading : Type 0 → Type 0
Reading A = Option A × List Received

unfoldable pub prepend : AmiEvent → Reading (List AmiEvent) → Reading (List AmiEvent)
prepend event (none, l) = (none, l)
prepend event (some events, l) = (some (event ∷ events), l)

-- `_collect_action_events`
unfoldable pub collect_action_events : String → List Received → Reading (List AmiEvent)
collect_action_events complete_event [] = (none, [])
collect_action_events complete_event (timed_out ∷ l) = (none, l)
collect_action_events complete_event (packet raw ∷ l) =
    let fields = packet_fields raw in
    let rest = collect_action_events complete_event l in
    if value fields "Event" == complete_event
    then (some [], l)
    else if is_truthy (value fields "Event")
    then prepend (record { name = value fields "Event"; fields = fields }) rest
    else rest

-- `_collect_optional_action_events`
unfoldable pub or_nothing : Reading (List AmiEvent) → List AmiEvent × List Received
or_nothing (none, l) = ([], l)
or_nothing (some events, l) = (events, l)

unfoldable pub collect_optional_action_events :
    String → List Received → List AmiEvent × List Received
collect_optional_action_events complete_event l =
    or_nothing (collect_action_events complete_event l)

-- `_read_until_response`
unfoldable pub read_until_response : List Received → Reading (Dict String)
read_until_response [] = (none, [])
read_until_response (timed_out ∷ l) = (none, l)
read_until_response (packet raw ∷ l) =
    let rest = read_until_response l in
    if Dict.has (packet_fields raw) "Response" then (some (packet_fields raw), l) else rest

-- The answers to the optional actions of `_read_events`, after the channels.
unfoldable pub read_optional : List String → List Received → List AmiEvent
read_optional [] l = []
read_optional (complete_event ∷ actions) l =
    let (events, rest) = collect_optional_action_events complete_event l in
    events ++ read_optional actions rest

unfoldable pub with_channels : Reading (List AmiEvent) → Option (List AmiEvent)
with_channels (none, l) = none
with_channels (some channels, l) = some (
    channels
    ++ read_optional
        ("EndpointListComplete" ∷ "ContactListComplete" ∷ "QueueStatusComplete" ∷ "PeerlistComplete"
          ∷ [])
        l)

unfoldable pub after_login : Reading (Dict String) → Option (List AmiEvent)
after_login (none, l) = none
after_login (some response, l) =
    let events = with_channels (collect_action_events "CoreShowChannelsComplete" l) in
    if value response "Response" == "Success" then events else none

-- `_read_events`, from the packets after the banner; `none` is an error.
unfoldable pub read_events : List Received → Option (List AmiEvent)
read_events l = after_login (read_until_response l)

-- `_channels_from_events`
unfoldable pub channel_of : Dict String → AmiChannel
channel_of fields = record {
  channel = value fields "Channel";
  extension = or_else (value fields "Extension") (value fields "Exten");
  caller = or_else (value fields "CallerIDName") (value fields "CallerIDNum");
  connected = or_else (value fields "ConnectedLineName") (value fields "ConnectedLineNum");
  state = value fields "ChannelStateDesc";
  endpoint = endpoint_from_channel (value fields "Channel");
  caller_number = value fields "CallerIDNum";
  connected_number = value fields "ConnectedLineNum";
  duration = value fields "Duration";
  unique_id = value fields "Uniqueid";
  linked_id = value fields "Linkedid";
}

unfoldable pub channels_from_events : List AmiEvent → List AmiChannel
channels_from_events [] = []
channels_from_events (event ∷ l) =
    let rest = channels_from_events l in
    if event.name == "CoreShowChannel" then channel_of event.fields ∷ rest else rest
