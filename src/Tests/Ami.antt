-- ===== src/Tests/Ami.antt =====
-- The theorems on the Asterisk Manager Interface at concrete data.
use pbxpulse_agent.Prelude.{String, ◌≡◌, refl, List, [], ◌∷◌, strip}
use pbxpulse_agent.Prelude.Dict
use pbxpulse_agent.Ami.{AmiEvent, packet_fields, lines, is_line_end, cut, add_line, add_lines}
use pbxpulse_agent.Ami.Stream.{recv_through, through, begins, recv_through-through}

-- A packet is read by its lines.
packet_fields_lem :
    packet_fields "Event: QueueEntry\r\nQueue: sales\r\nno colon\r\n\r\n"
    ≡ ("Event", "QueueEntry") ∷ ("Queue", "sales") ∷ []
unfolding packet_fields lines is_line_end cut add_line add_lines strip Dict.put
packet_fields_lem = refl

-- Peeks of one and two bytes, with the marker across two of them.
recv_through-through_example :
    recv_through (λ n. 1) (13 ∷ 10 ∷ []) (65 ∷ 13 ∷ 10 ∷ 66 ∷ [])
    ≡ through (13 ∷ 10 ∷ []) (65 ∷ 13 ∷ 10 ∷ 66 ∷ [])
recv_through-through_example = recv_through-through (λ n. 1) (13 ∷ 10 ∷ []) (65 ∷ 13 ∷ 10 ∷ 66 ∷ [])

through_lem : through (13 ∷ 10 ∷ []) (65 ∷ 13 ∷ 10 ∷ 66 ∷ []) ≡ 65 ∷ 13 ∷ 10 ∷ []
unfolding through begins
through_lem = refl

abbrev in_queue : String → AmiEvent
in_queue name = record { name = name; fields = ("Queue", " sales ") ∷ [] }

abbrev events : List AmiEvent
events = in_queue "QueueEntry" ∷ in_queue "QueueMember" ∷ in_queue "QueueEntry" ∷ []
