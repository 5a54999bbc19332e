-- ===== src/Ami/Queues.antt =====
-- `_queues_from_events` of pbxsense_agent/ami.py.
pub mod Counts
use pbxpulse_agent.Prelude.{
  ℕ, ◌+◌, ◌≤◌, ℤ, pos, negsuc, to_nat, String, ◌≡◌, refl, ◌∙◌, ap, Bool, true, false, ◌&&◌, ◌||◌,
  Option, none, some, List, [], ◌∷◌, ◌++◌, ◌==◌, eq_iff, nat_eq, arith, if◌then◌else◌, is_truthy,
  strip, lower, codes, codes_eq, int_of_text, leb, count_if, Bool-cases, inl, inr,
}
use pbxpulse_agent.Prelude.Dict
use pbxpulse_agent.Prelude.Dict.{Dict}
use pbxpulse_agent.Prelude.Sets
use pbxpulse_agent.Snapshot.{AmiQueue}
use pbxpulse_agent.Ami.{AmiEvent, value}

-- `_parse_int`
abbrev int_or_zero : Option ℤ → ℤ
int_or_zero none = pos 0
int_or_zero (some n) = n

unfoldable pub parse_int : String → ℤ
parse_int raw = int_or_zero (int_of_text raw)

-- The counts of a queue's members.
pub record MemberCounts : Type 0 where
  pub available : ℕ
  pub busy : ℕ
  pub paused : ℕ
  pub total : ℕ

abbrev pub no_members : MemberCounts
no_members = record { available = 0; busy = 0; paused = 0; total = 0 }

-- The four dicts of the loop.
pub record QueueCounts : Type 0 where
  pub queue_params : Dict (Dict String)
  pub entry_counts : Dict ℕ
  pub longest_waits : Dict ℕ
  pub member_counts : Dict MemberCounts

unfoldable pub is_yes : String → Bool
is_yes s =
    codes_eq (lower (strip s)) (codes "1")
    || codes_eq (lower (strip s)) (codes "yes")
    || codes_eq (lower (strip s)) (codes "true")

-- The status is one of 2, 3, 6, 7 and 8.
unfoldable pub is_busy_status : ℤ → Bool
is_busy_status (pos n) = nat_eq n 2 || nat_eq n 3 || nat_eq n 6 || nat_eq n 7 || nat_eq n 8
is_busy_status (negsuc n) = false

unfoldable pub is_available_status : ℤ → Bool
is_available_status (pos n) = nat_eq n 1
is_available_status (negsuc n) = false

-- `fields.get(key, "0")`
abbrev pub number : Dict String → String → ℤ
number fields key = parse_int (Dict.get_default fields key "0")

unfoldable pub count_member : Dict String → MemberCounts → MemberCounts
count_member fields counts =
    let c : MemberCounts = record counts { total = counts.total + 1 } in
    if is_yes (value fields "Paused")
    then record c { paused = c.paused + 1 }
    else if is_available_status (number fields "Status")
    then record c { available = c.available + 1 }
    else if is_busy_status (number fields "Status")
    then record c { busy = c.busy + 1 }
    else c

unfoldable pub larger : ℕ → ℕ → ℕ
larger m n = if leb m n then n else m

-- One event with a queue.
unfoldable pub count_event : String → AmiEvent → QueueCounts → QueueCounts
count_event queue event s =
    if event.name == "QueueParams"
    then record s { queue_params = Dict.put s.queue_params queue event.fields }
    else if event.name == "QueueEntry"
    then record s {
      entry_counts = Dict.put s.entry_counts queue (Dict.get_default s.entry_counts queue 0 + 1);
      longest_waits =
          Dict.put s.longest_waits queue (
            larger (Dict.get_default s.longest_waits queue 0)
              (to_nat (number event.fields "Wait")));
    }
    else if event.name == "QueueMember"
    then record s {
      member_counts =
          Dict.put s.member_counts queue
            (count_member event.fields (Dict.get_default s.member_counts queue no_members));
    }
    else s

-- `fields.get("Queue", "").strip()`
unfoldable pub queue_of : AmiEvent → String
queue_of event = strip (value event.fields "Queue")

unfoldable pub count_events : QueueCounts → List AmiEvent → QueueCounts
count_events s [] = s
count_events s (event ∷ l) =
    count_events (if is_truthy (queue_of event) then count_event (queue_of event) event s else s) l

abbrev pub none_yet : QueueCounts
none_yet = record { queue_params = []; entry_counts = []; longest_waits = []; member_counts = [] }

-- The number that the parameters give, where no caller was listed.
unfoldable pub waiting_callers : QueueCounts → String → ℤ
waiting_callers s queue = elim (Dict.get s.entry_counts queue) [
  | none ↦ number (Dict.get_default s.queue_params queue []) "Calls"
  | some n ↦ pos n
]

unfoldable pub ami_queue : QueueCounts → String → AmiQueue
ami_queue s queue =
    let members = Dict.get_default s.member_counts queue no_members in
    record {
      name = queue;
      waiting_callers = waiting_callers s queue;
      longest_wait_seconds = pos (Dict.get_default s.longest_waits queue 0);
      available_members = pos members.available;
      busy_members = pos members.busy;
      paused_members = pos members.paused;
      total_members = pos members.total;
    }

unfoldable pub queue_rows : QueueCounts → List String → List AmiQueue
queue_rows s [] = []
queue_rows s (queue ∷ l) = ami_queue s queue ∷ queue_rows s l

unfoldable pub queue_names : QueueCounts → List String
queue_names s = Sets.sorted (
    Sets.of_list
      (Dict.keys s.queue_params ++ Dict.keys s.entry_counts ++ Dict.keys s.member_counts))

-- `_queues_from_events`
unfoldable pub queues_from_events : List AmiEvent → List AmiQueue
queues_from_events events = let s = count_events none_yet events in queue_rows s (queue_names s)
