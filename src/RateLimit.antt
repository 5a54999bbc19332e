-- ===== src/RateLimit.antt =====
-- The in-process rate limiter of push_relay/app.py: `_consume_window`, `_client_window` and the
-- middleware `bound_public_requests`. A clock reading is a number in some fixed unit, and a period
-- is in the same unit.
pub mod Sliding
pub mod Clients
use pbxpulse_agent.Prelude.{
  ℕ, ◌+◌, ◌*◌, String, Bool, true, false, not, ◌&&◌, ◌||◌, Option, none, some, List, [], ◌∷◌, ◌++◌,
  map, ◌==◌, leb, ltb, if◌then◌else◌, length, take, is_truthy, ends_with,
}
use pbxpulse_agent.Prelude.Dict
use pbxpulse_agent.Prelude.Dict.{Dict}

-- `while window and window[0] <= cutoff: window.popleft()`, with `cutoff = now - seconds`.
unfoldable pub drop_expired : ℕ → ℕ → List ℕ → List ℕ
drop_expired seconds now [] = []
drop_expired seconds now (t ∷ l) =
    let rest = drop_expired seconds now l in if leb (t + seconds) now then rest else t ∷ l

unfoldable pub consume_window : ℕ → ℕ → ℕ → List ℕ → List ℕ × Bool
unfolding drop_expired
consume_window limit seconds now window =
    let live = drop_expired seconds now window in
    if leb limit (length live) then (live, false) else (live ++ now ∷ [], true)

abbrev pub Windows : Type 0
Windows = Dict (List ℕ)

-- `not window or window[-1] <= now - seconds`
unfoldable pub is_idle : ℕ → ℕ → List ℕ → Bool
is_idle seconds now [] = true
is_idle seconds now (t ∷ []) = leb (t + seconds) now
is_idle seconds now (t ∷ u ∷ l) = is_idle seconds now (u ∷ l)

unfoldable pub idle_clients : ℕ → ℕ → Windows → List String
idle_clients seconds now [] = []
idle_clients seconds now ((k, w) ∷ d) =
    let rest = idle_clients seconds now d in if is_idle seconds now w then k ∷ rest else rest

unfoldable pub pop_all : Windows → List String → Windows
pop_all d [] = d
pop_all d (k ∷ l) = pop_all (Dict.pop d k) l

-- The bounds of the code are `capacity` 10,000 and `batch` 2,000: the windows afterwards, and the
-- key of the client's window. The window itself is made by the `defaultdict`.
unfoldable pub client_window : ℕ → ℕ → ℕ → ℕ → Windows → String → Windows × String
client_window capacity batch minute now d client =
    let swept = pop_all d (take batch (idle_clients minute now d)) in
    if not (Dict.has d client) && leb capacity (length d)
    then (if leb capacity (length swept)
        then (Dict.set_default swept "overflow" [], "overflow")
        else (Dict.set_default swept client [], client))
    else (Dict.set_default d client [], client)

-- The middleware's answer; `content_length` is the header's number, if it is one: `none` passes the request on, and a number is the status of a refusal.
unfoldable pub bound_public_requests :
    ℕ → ℕ → ℕ → Windows → Option ℕ → String → String → Windows × Option ℕ
bound_public_requests max_snapshot_bytes minute now d content_length path client =
    let maximum = if ends_with path "/secure/snapshots" then max_snapshot_bytes else 1024 * 1024 in
    let limit = if path == "/v1/activations" then 6 else 120 in
    let (windows, key) = client_window 10000 2000 minute now d client in
    let (window, admitted) = consume_window limit minute now (Dict.get_default windows key []) in
    let counted = Dict.put windows key window in
    let answer = if admitted then none else some 429 in
    elim content_length [
      | none ↦ (counted, answer)
      | some n ↦ if leb (maximum + 1) n then (d, some 413) else (counted, answer)
    ]
