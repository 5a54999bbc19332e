-- ===== src/RateLimit/Clients.antt =====
-- The table of windows stays bounded, whatever client names arrive.
use pbxpulse_agent.Prelude.{
  ℕ, ◌+◌, ◌≤◌, ◌<◌, String, ◌≡◌, true, not, ◌&&◌, ◌||◌, ltb, inl, inr, List, [], ◌∷◌, arith, ◌==◌,
  eq_iff, leb, if◌then◌else◌, length, take, Bool-cases,
}
use pbxpulse_agent.Prelude.Dict
use pbxpulse_agent.RateLimit.{Windows, idle_clients, pop_all, client_window}

length-put :
    (d : Windows) (k : String) (w : List ℕ)
    → length (Dict.put d k w) ≡ length d + (if Dict.has d k then 0 else 1)
unfolding Dict.put Dict.has
length-put [] k w = omega arith
length-put ((j, v) ∷ d) k w = ground (arith, length-put d k w)

length-set_default :
    (d : Windows) (k : String) (w : List ℕ)
    → length (Dict.set_default d k w) ≡ length d + (if Dict.has d k then 0 else 1)
unfolding Dict.set_default
length-set_default d k w = ground (arith, length-put d k w)

has-set_default :
    (d : Windows) (k j : String) (w : List ℕ)
    → Dict.has (Dict.set_default d k w) j ≡ (if k == j then true else Dict.has d j)
unfolding Dict.set_default
has-set_default d k j w = ground (arith, Dict.has-put d k j w, eq_iff k j)

length-pop-le : (d : Windows) (k : String) → length (Dict.pop d k) ≤ length d
unfolding Dict.pop
length-pop-le [] k = omega arith
length-pop-le ((j, v) ∷ d) k = ground (arith, length-pop-le d k)

length-pop-lt : (d : Windows) (k : String) → Dict.has d k ≡ true → length (Dict.pop d k) < length d
unfolding Dict.pop Dict.has
length-pop-lt [] k h = absurd (ground arith)
length-pop-lt ((j, v) ∷ d) k h = ground (arith, length-pop-lt d k, length-pop-le d k)

-- At most `capacity` windows, and one more for the clients that found no room.
pub record IsBounded (capacity : ℕ) (d : Windows) : Type 0 where
  pub size : length d ≤ capacity + 1
  pub extra : length d ≡ capacity + 1 → Dict.has d "overflow" ≡ true

pop-IsBounded :
    (capacity : ℕ) (d : Windows) (k : String)
    → IsBounded capacity d
    → IsBounded capacity (Dict.pop d k)
pop-IsBounded capacity d k h = record {
  size = omega (arith, h.size, length-pop-le d k);
  extra = λ e. ground (
    arith,
    h.extra,
    h.size,
    length-pop-le d k,
    length-pop-lt d k,
    Dict.has-pop d k "overflow",
    eq_iff k "overflow",
  );
}

pop_all-IsBounded :
    (capacity : ℕ) (d : Windows) (l : List String)
    → IsBounded capacity d
    → IsBounded capacity (pop_all d l)
unfolding pop_all
pop_all-IsBounded capacity d [] h = h
pop_all-IsBounded capacity d (k ∷ l) h =
    pop_all-IsBounded capacity (Dict.pop d k) l (pop-IsBounded capacity d k h)

room-IsBounded :
    (capacity : ℕ) (d : Windows) (k : String)
    → IsBounded capacity d
    → Dict.has d k || ltb (length d) capacity || k == "overflow" ≡ true
    → IsBounded capacity (Dict.set_default d k []) × (Dict.has (Dict.set_default d k []) k ≡ true)
room-IsBounded capacity d k h room = (
  record {
    size = ground (arith, h.size, h.extra, length-set_default d k [], eq_iff k "overflow");
    extra = λ e. ground (
      arith,
      h.size,
      h.extra,
      length-set_default d k [],
      has-set_default d k "overflow" [],
      eq_iff k "overflow",
    );
  },
  ground (arith, has-set_default d k k [], eq_iff k k),
)

-- Whatever the client's name and the clock, the table keeps at most `capacity` windows and the one
-- named "overflow", and the window that the client is given is in it.
pub client_window-IsBounded :
    (capacity batch minute now : ℕ) (d : Windows) (client : String)
    → IsBounded capacity d
    → IsBounded capacity (client_window capacity batch minute now d client).0
      × (Dict.has
            (client_window capacity batch minute now d client).0
            (client_window capacity batch minute now d client).1
          ≡ true)
unfolding client_window
client_window-IsBounded capacity batch minute now d client h =
    let swept = pop_all d (take batch (idle_clients minute now d)) in
    let s = pop_all-IsBounded capacity d (take batch (idle_clients minute now d)) h in
    elim (Bool-cases (not (Dict.has d client) && leb capacity (length d))) [
      | inr e ↦ rw (e) (room-IsBounded capacity d client h (ground arith))
      | inl e ↦ elim (Bool-cases (leb capacity (length swept))) [
        | inl f ↦ rw (e, f) (room-IsBounded capacity swept "overflow" s (ground arith))
        | inr f ↦ rw (e, f) (room-IsBounded capacity swept client s (ground arith))
      ]
    ]
