-- ===== src/CallKind.antt =====
-- How a completed call is read: `interpreted_call_kind` of pbxsense_agent/history.py.
use pbxpulse_agent.Prelude.{
  String, Bool, true, false, not, List, [], ◌∷◌, ◌&&◌, if◌then◌else◌, lower, upper, strip, one_of,
  any_marker, is_truthy,
}
use pbxpulse_agent.Snapshot.{CdrCall}

abbrev pub missed_dispositions : List String
missed_dispositions = "NO ANSWER" ∷ "BUSY" ∷ "FAILED" ∷ "CONGESTION" ∷ []

unfoldable pub looks_like_ivr_reached : CdrCall → Bool
looks_like_ivr_reached call =
    if is_truthy (strip call.destination_channel)
    then false
    else if any_marker ("ivr" ∷ "menu" ∷ "autoattendant" ∷ "auto-attendant" ∷ [])
        (lower call.context)
    then true
    else if one_of ("s" ∷ "i" ∷ "t" ∷ "h" ∷ []) (lower (strip call.destination))
        && one_of ("answer" ∷ "background" ∷ "backgroun" ∷ "playback" ∷ "read" ∷ "waitexten" ∷ [])
            (lower call.last_app)
    then true
    else any_marker ("ivr" ∷ "menu" ∷ []) (lower call.last_data)

pub data CallKind : Type 0 where
  missed ivr_reached answered other : CallKind

unfoldable pub interpreted_call_kind : CdrCall → CallKind
unfolding looks_like_ivr_reached
interpreted_call_kind call =
    let disposition = upper call.disposition in
    if one_of missed_dispositions disposition
    then missed
    else if not (one_of ("ANSWERED" ∷ []) disposition)
    then other
    else if looks_like_ivr_reached call
    then ivr_reached
    else answered
