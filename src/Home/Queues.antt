-- ===== src/Home/Queues.antt =====
-- The rows of the queues: `_build_queues` of pbxsense_agent/pulse.py.
use pbxpulse_agent.Prelude.{
  ℕ, ◌/◌, ◌%◌, ℤ, pos, negsuc, to_nat, String, Bool, false, List, [], ◌∷◌, ◌++◌, ltb, nat_eq,
  if◌then◌else◌, concat, decimal, join, map,
}
use text.Mathlib.Text.{is_lt}
use Prim.Native.String.{compare}
use pbxpulse_agent.Json.{int_text}
use pbxpulse_agent.Snapshot.{AmiQueue}

pub record QueueRow : Type 0 where
  pub name : String
  pub queue : String
  pub status : String
  pub status_text : String
  pub detail : String
  pub waiting_callers : ℕ
  pub longest_wait_seconds : ℕ
  pub available_members : ℕ
  pub busy_members : ℕ
  pub paused_members : ℕ
  pub total_members : ℕ

-- `_caller_label`, `_member_label`
unfoldable pub caller_label : ℕ → String
caller_label count = if nat_eq count 1 then "caller" else "callers"

unfoldable pub member_label : ℕ → String
member_label count = if nat_eq count 1 then "member" else "members"

-- `_wait_label`
unfoldable pub wait_label : ℤ → String
wait_label value =
    let seconds = to_nat value in
    if ltb seconds 60
    then concat (decimal seconds ∷ "s" ∷ [])
    else if nat_eq (seconds % 60) 0
    then concat (decimal (seconds / 60) ∷ "m" ∷ [])
    else concat (decimal (seconds / 60) ∷ "m " ∷ decimal (seconds % 60) ∷ "s" ∷ [])

abbrev is_zero : ℤ → Bool
is_zero (pos n) = nat_eq n 0
is_zero (negsuc n) = false

-- The parts of a row's detail.
unfoldable pub queue_details : AmiQueue → List String
queue_details queue =
    let waiting = to_nat queue.waiting_callers in
    let available = to_nat queue.available_members in
    (if nat_eq waiting 0
      then []
      else concat ("Longest wait " ∷ wait_label queue.longest_wait_seconds ∷ []) ∷ [])
    ++ ((if nat_eq available 0
          then "No members available"
          else concat (decimal available ∷ " " ∷ member_label available ∷ " available" ∷ []))
        ∷ [])
    ++ (if is_zero queue.busy_members
        then []
        else concat (int_text queue.busy_members ∷ " busy" ∷ []) ∷ [])
    ++ (if is_zero queue.paused_members
        then []
        else concat (int_text queue.paused_members ∷ " paused" ∷ []) ∷ [])

unfoldable pub queue_row : AmiQueue → QueueRow
queue_row queue =
    let waiting = to_nat queue.waiting_callers in
    let available = to_nat queue.available_members in
    record {
      name = queue.name;
      queue = queue.name;
      status =
          if nat_eq waiting 0
          then "ready"
          else if nat_eq available 0
          then "needs_attention"
          else "waiting";
      status_text =
          if nat_eq waiting 0
          then "No callers waiting"
          else concat (decimal waiting ∷ " " ∷ caller_label waiting ∷ " waiting" ∷ []);
      detail = join " · " (queue_details queue);
      waiting_callers = waiting;
      longest_wait_seconds = to_nat queue.longest_wait_seconds;
      available_members = available;
      busy_members = to_nat queue.busy_members;
      paused_members = to_nat queue.paused_members;
      total_members = to_nat queue.total_members;
    }

-- `sorted(queues, key=lambda item: item.name)`, which is stable.
unfoldable pub insert_queue : AmiQueue → List AmiQueue → List AmiQueue
insert_queue q [] = q ∷ []
insert_queue q (r ∷ l) =
    let rest = insert_queue q l in if is_lt (compare r.name q.name) then r ∷ rest else q ∷ r ∷ l

unfoldable pub sorted_queues : List AmiQueue → List AmiQueue
sorted_queues [] = []
sorted_queues (q ∷ l) = insert_queue q (sorted_queues l)

-- `_build_queues`
unfoldable pub build_queues : List AmiQueue → List QueueRow
unfolding insert_queue sorted_queues queue_row
build_queues queues = map queue_row (sorted_queues queues)
