-- ===== src/Home/Labels.antt =====
-- The short texts of the home payload: the helpers of pbxsense_agent/pulse.py.
use pbxpulse_agent.Prelude.{
  ℕ, ◌/◌, ◌%◌, ℤ, to_nat, String, Bool, true, false, not, ◌&&◌, ◌||◌, Option, none, some, List, [],
  ◌∷◌, ◌==◌, leb, ltb, nat_eq, if◌then◌else◌, concat, decimal, any, or_else, is_pos,
}
use pbxpulse_agent.Snapshot.{AmiChannel, AmiSnapshot}

minutes_text : ℕ → String
minutes_text minutes =
    concat (decimal minutes ∷ " minute" ∷ (if nat_eq minutes 1 then "" else "s") ∷ [])

-- `_duration_body`
unfoldable pub duration_body : ℤ → String
unfolding minutes_text
duration_body value =
    let seconds = to_nat value in
    let minutes = seconds / 60 in
    if not (is_pos value)
    then "The call connected."
    else if nat_eq minutes 0
    then concat ("The call lasted " ∷ decimal (seconds % 60) ∷ " seconds." ∷ [])
    else if nat_eq (seconds % 60) 0
    then concat ("The call lasted " ∷ minutes_text minutes ∷ "." ∷ [])
    else concat (
        "The call lasted " ∷ minutes_text minutes ∷ " " ∷ decimal (seconds % 60) ∷ " seconds." ∷ [])

pub record QuietNow : Type 0 where
  pub title : String
  pub body : String
  pub time_label : String
  pub is_active : Bool
  pub kind : String

-- `snapshot.error or default`; `None` and "" are both false.
error_or : Option String → String → String
error_or none default = default
error_or (some e) default = or_else e default

-- `_quiet_now`
unfoldable pub quiet_now : AmiSnapshot → QuietNow
unfolding error_or
quiet_now snapshot =
    if snapshot.reachable
    then record {
      title = "No calls right now.";
      body = "The PBX is reachable.";
      time_label = "Now";
      is_active = false;
      kind = "answered";
    }
    else record {
      title = "Waiting for the PBX.";
      body = error_or snapshot.error "The Agent is reconnecting.";
      time_label = "Now";
      is_active = false;
      kind = "missed";
    }

-- `_mood`; the Signals are given by their importance.
unfoldable pub mood : AmiSnapshot → List AmiChannel → List String → String
mood snapshot active_channels importances =
    if not snapshot.reachable
    then "PBXSense is trying to reach the PBX."
    else if any (λ i. i == "attention" || i == "important") importances
    then "There is something worth watching."
    else if any (λ _. true) active_channels
    then "Calls are moving."
    else "Everything looks healthy."

-- `_connection_detail`
unfoldable pub connection_detail : AmiSnapshot → String → String
unfolding error_or
connection_detail snapshot display_name =
    if snapshot.reachable
    then concat (display_name ∷ " answered the Agent snapshot request." ∷ [])
    else error_or snapshot.error "The Agent has not connected to the PBX yet."

-- `_greeting`, by the hour
unfoldable pub greeting : ℕ → String
greeting hour =
    if leb 5 hour && ltb hour 12
    then "Good morning"
    else if leb 12 hour && ltb hour 18
    then "Good afternoon"
    else "Good evening"
