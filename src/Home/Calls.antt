-- ===== src/Home/Calls.antt =====
-- The channels of one call are one call: `_dedupe_call_channels` of pbxsense_agent/pulse.py.
pub mod Groups
use pbxpulse_agent.Prelude.{
  ℕ, String, Bool, true, false, not, ◌&&◌, ◌||◌, Option, none, some, List, [], ◌∷◌, ◌++◌, ◌==◌, ltb,
  if◌then◌else◌, is_truthy, concat, join, keep, length,
}
use pbxpulse_agent.Prelude.Dict
use pbxpulse_agent.Prelude.Dict.{Dict}
use pbxpulse_agent.Prelude.Sets
use pbxpulse_agent.Snapshot.{AmiChannel}
use pbxpulse_agent.Home.Names.{clean_unknown, person_endpoint, peer_endpoint}

-- `_call_party_key`
unfoldable pub call_party_key : AmiChannel → List String
call_party_key channel =
    let person = person_endpoint channel in
    Sets.of_list (keep is_truthy (person ∷ peer_endpoint channel person ∷ []))

-- `_call_group_key`
unfoldable pub call_group_key : AmiChannel → String
call_group_key channel =
    let parties = call_party_key channel in
    if is_truthy channel.linked_id
    then concat ("linked:" ∷ channel.linked_id ∷ [])
    else if ltb 1 (length parties)
    then concat ("parties:" ∷ join "|" (Sets.sorted parties) ∷ [])
    else concat ("channel:" ∷ channel.channel ∷ [])

-- The first channel of a list that passes a test, or the default.
unfoldable pub first_or : (AmiChannel → Bool) → AmiChannel → List AmiChannel → AmiChannel
first_or p default [] = default
first_or p default (c ∷ l) = let rest = first_or p default l in if p c then c else rest

unfoldable pub is_calling : AmiChannel → Bool
is_calling channel =
    is_truthy channel.caller_number && person_endpoint channel == channel.caller_number

unfoldable pub has_caller : AmiChannel → Bool
has_caller channel = is_truthy channel.caller && is_truthy (clean_unknown channel.caller)

-- `_preferred_call_channel` of a group, which is never empty: its first channel and the others.
unfoldable pub preferred_call_channel : AmiChannel → List AmiChannel → AmiChannel
preferred_call_channel first others =
    first_or is_calling (first_or has_caller first (first ∷ others)) (first ∷ others)

-- The groups in the order of their first channels: each key with its first channel and the others.
unfoldable pub add_to :
    Dict (AmiChannel × List AmiChannel)
    → AmiChannel
    → Option (AmiChannel × List AmiChannel)
    → Dict (AmiChannel × List AmiChannel)
add_to groups channel none = groups ++ (call_group_key channel, (channel, [])) ∷ []
add_to groups channel (some (first, others)) =
    Dict.put groups (call_group_key channel) (first, others ++ channel ∷ [])

unfoldable pub add_channel :
    Dict (AmiChannel × List AmiChannel) → AmiChannel → Dict (AmiChannel × List AmiChannel)
unfolding add_to
add_channel groups channel = add_to groups channel (Dict.get groups (call_group_key channel))

unfoldable pub group_channels :
    Dict (AmiChannel × List AmiChannel) → List AmiChannel → Dict (AmiChannel × List AmiChannel)
group_channels groups [] = groups
group_channels groups (channel ∷ l) = group_channels (add_channel groups channel) l

unfoldable pub preferred_channels : Dict (AmiChannel × List AmiChannel) → List AmiChannel
preferred_channels [] = []
preferred_channels ((key, (first, others)) ∷ l) =
    preferred_call_channel first others ∷ preferred_channels l

-- `_dedupe_call_channels`
unfoldable pub dedupe_call_channels : List AmiChannel → List AmiChannel
unfolding group_channels preferred_channels
dedupe_call_channels channels = preferred_channels (group_channels [] channels)
