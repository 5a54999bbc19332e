-- ===== src/Ami/Queues/Counts.antt =====
-- The counts of a queue's row against the events of the queue.
use pbxpulse_agent.Prelude.{ℕ, ◌≤◌, ℤ, String, Bool, ◌&&◌, Option, none, some, [], ◌==◌}
use pbxpulse_agent.Prelude.Dict
use pbxpulse_agent.Prelude.Dict.{Dict}
use pbxpulse_agent.Ami.{AmiEvent}
use pbxpulse_agent.Ami.Queues.{no_members, QueueCounts, number, queue_of}

-- An event of a kind in a queue.
abbrev pub is_event : String → String → AmiEvent → Bool
is_event name queue event = event.name == name && queue_of event == queue

-- What one event adds to a queue's entries and members.
entries_of : QueueCounts → String → ℕ
entries_of s queue = Dict.get_default s.entry_counts queue 0

total_of : QueueCounts → String → ℕ
total_of s queue = (Dict.get_default s.member_counts queue no_members).total

-- A queue without callers has no count of them.
abbrev Positive : Option ℕ → Type 0
Positive none = Unit
Positive (some n) = 1 ≤ n

-- The number of callers by the last parameters of the queue.
abbrev pub calls_of : QueueCounts → String → ℤ
calls_of s queue = number (Dict.get_default s.queue_params queue []) "Calls"
