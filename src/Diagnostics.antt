-- ===== src/Diagnostics.antt =====
-- The progressive checks of a connector: pbxsense_agent/diagnostics.py. The diagnostics are a JSON
-- dict; `casefold` is exact for tests against ASCII text.
use pbxpulse_agent.Prelude.{
  ℕ, String, Bool, false, not, ◌&&◌, ◌||◌, List, [], ◌∷◌, ◌++◌, if◌then◌else◌, nat_eq, leb, ◌+◌,
  codes, one_of, any,
}
use pbxpulse_agent.Json
use pbxpulse_agent.Json.{Json, Fields, null, bool, num, str, arr, obj}

abbrev pub Status : Type 0
Status = String × String

-- `value is True`
unfoldable pub is_true : Json → Bool
is_true (bool b) = b
is_true null = false
is_true (num n) = false
is_true (str s) = false
is_true (arr l) = false
is_true (obj d) = false

-- `ami_diagnostic_statuses`
unfoldable pub ami_diagnostic_statuses : Fields → String → List Status
unfolding is_true
ami_diagnostic_statuses diagnostics protocol_label =
    let tcp_connected = is_true (Json.get diagnostics "tcpConnected") in
    let banner_received = is_true (Json.get diagnostics "bannerReceived") in
    let login_accepted = is_true (Json.get diagnostics "loginAccepted") in
    let protocol_status =
      if not tcp_connected
      then "Not attempted"
      else if banner_received
      then "Detected"
      else if login_accepted
      then "Optional (login accepted)"
      else "Not detected" in
    let authentication_status =
      if not tcp_connected
      then "Not attempted"
      else if login_accepted
      then "Accepted"
      else "Rejected" in
    if not (any (Json.has diagnostics) ("tcpConnected" ∷ "bannerReceived" ∷ "loginAccepted" ∷ []))
    then []
    else ("PBX port", if tcp_connected then "Reachable" else "Unreachable")
      ∷ (protocol_label, protocol_status)
      ∷ ("Authentication", authentication_status)
      ∷ []

casefold_code : ℕ → List ℕ
casefold_code c =
    if leb b'A' c && leb c b'Z'
    then (c + 32) ∷ []
    else if nat_eq c 0x212a
    then b'k' ∷ []
    else if nat_eq c 0x17f
    then b's' ∷ []
    else if nat_eq c 0xdf || nat_eq c 0x1e9e
    then b's' ∷ b's' ∷ []
    else if nat_eq c 0xfb00
    then b'f' ∷ b'f' ∷ []
    else if nat_eq c 0xfb01
    then b'f' ∷ b'i' ∷ []
    else if nat_eq c 0xfb02
    then b'f' ∷ b'l' ∷ []
    else if nat_eq c 0xfb03
    then b'f' ∷ b'f' ∷ b'i' ∷ []
    else if nat_eq c 0xfb04
    then b'f' ∷ b'f' ∷ b'l' ∷ []
    else if nat_eq c 0xfb05 || nat_eq c 0xfb06
    then b's' ∷ b't' ∷ []
    else c ∷ []

unfoldable pub casefold : List ℕ → List ℕ
unfolding casefold_code
casefold [] = []
casefold (c ∷ s) = casefold_code c ++ casefold s

-- The three checks of FreeSWITCH.
unfoldable pub esl_diagnostic_statuses : Fields → List Status
esl_diagnostic_statuses diagnostics =
    let tcp_connected = is_true (Json.get diagnostics "tcpConnected") in
    let login_accepted = is_true (Json.get diagnostics "loginAccepted") in
    let command_accepted = is_true (Json.get diagnostics "commandAccepted") in
    ("PBX port", if tcp_connected then "Reachable" else "Unreachable")
    ∷ (
      "ESL authentication",
      if not tcp_connected
          then "Not attempted"
          else if login_accepted
          then "Accepted"
          else "Rejected",
    )
    ∷ (
      "ESL command",
      if not login_accepted
          then "Not attempted"
          else if command_accepted
          then "Accepted"
          else "Rejected",
    )
    ∷ []

-- `connector_diagnostic_statuses`
unfoldable pub connector_diagnostic_statuses : Fields → List Status
unfolding casefold esl_diagnostic_statuses
connector_diagnostic_statuses diagnostics =
    let pbx_type = casefold (codes (Json.text_or diagnostics "pbxType" "")) in
    if one_of ("asterisk" ∷ []) pbx_type
    then ami_diagnostic_statuses diagnostics "AMI protocol"
    else if one_of ("grandstream" ∷ []) pbx_type
    then ami_diagnostic_statuses diagnostics "UCM AMI protocol"
    else if one_of ("freeswitch" ∷ []) pbx_type
    then esl_diagnostic_statuses diagnostics
    else []
