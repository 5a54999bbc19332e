-- ===== src/RateLimit/Sliding.antt =====
-- The limiter against its meaning: a call is admitted exactly if fewer than `limit` calls were
-- admitted in the period before it.
use pbxpulse_agent.Prelude.{
  ℕ, ◌+◌, ◌≤◌, ◌<◌, ◌≡◌, refl, ◌∙◌, sym, Bool-cases, inl, inr, Bool, true, false, ◌&&◌, List, [],
  ◌∷◌, ◌++◌, arith, leb, ltb, length, count_if, All, All-append,
}
use pbxpulse_agent.RateLimit.{drop_expired, consume_window}

-- The times in the period that ends at `now`.
abbrev pub recent : ℕ → ℕ → List ℕ → ℕ
recent seconds now = count_if (λ t. ltb now (t + seconds))

-- In the order of time, none after `last`.
abbrev IsOrdered : ℕ → List ℕ → Type 0
IsOrdered last [] = Unit
IsOrdered last (t ∷ l) = (t ≤ last) × All (λ u. t ≤ u) l × IsOrdered last l

later : (last now : ℕ) (l : List ℕ) → IsOrdered last l → last ≤ now → IsOrdered now l
later last now [] h k = tt
later last now (t ∷ l) h k = (omega arith, h.1, later last now l h.2 k)

-- A window beside all the times ever admitted, the latest first.
pub record Counts (seconds last : ℕ) (window history : List ℕ) : Type 0 where
  pub ordered : IsOrdered last window
  pub past : All (λ t. t ≤ last) history
  pub same : (now : ℕ) → last ≤ now → recent seconds now history ≡ recent seconds now window

recent-All :
    (seconds now t : ℕ) (l : List ℕ)
    → All (λ u. t ≤ u) l
    → now < t + seconds
    → recent seconds now l ≡ length l
recent-All seconds now t [] h k = refl
recent-All seconds now t (u ∷ l) h k = ground (arith, recent-All seconds now t l h.1 k)

-- In an ordered window exactly the expired times are dropped.
length-drop_expired :
    (seconds last now : ℕ) (w : List ℕ)
    → IsOrdered last w
    → length (drop_expired seconds now w) ≡ recent seconds now w
unfolding drop_expired
length-drop_expired seconds last now [] h = refl
length-drop_expired seconds last now (t ∷ l) h =
    ground (arith, length-drop_expired seconds last now l h.2, recent-All seconds now t l h.1)

drop_expired-IsOrdered :
    (seconds last now : ℕ) (w : List ℕ)
    → IsOrdered last w
    → last ≤ now
    → IsOrdered now (drop_expired seconds now w)
unfolding drop_expired
drop_expired-IsOrdered seconds last now [] h k = tt
drop_expired-IsOrdered seconds last now (t ∷ l) h k = elim (Bool-cases (leb (t + seconds) now)) [
  | inl e ↦ rw (e) (drop_expired-IsOrdered seconds last now l h.2 k)
  | inr e ↦ rw (e) (later last now (t ∷ l) h k)
]

recent-drop_expired :
    (seconds now m : ℕ) (w : List ℕ)
    → now ≤ m
    → recent seconds m (drop_expired seconds now w) ≡ recent seconds m w
unfolding drop_expired
recent-drop_expired seconds now m [] h = refl
recent-drop_expired seconds now m (t ∷ l) h = ground (arith, recent-drop_expired seconds now m l h)

recent-append :
    (seconds m : ℕ) (l : List ℕ) (t : ℕ) → recent seconds m (l ++ t ∷ []) ≡ recent seconds m (t ∷ l)
recent-append seconds m [] t = refl
recent-append seconds m (u ∷ l) t = ground (arith, recent-append seconds m l t)

All-past : (last now : ℕ) (l : List ℕ) → All (λ t. t ≤ last) l → last ≤ now → All (λ t. t ≤ now) l
All-past last now [] h k = tt
All-past last now (t ∷ l) h k = (omega arith, All-past last now l h.1 k)

append-IsOrdered : (now : ℕ) (w : List ℕ) → IsOrdered now w → IsOrdered now (w ++ now ∷ [])
append-IsOrdered now [] h = (omega arith, tt, tt)
append-IsOrdered now (t ∷ l) h =
    (h.0, All-append (λ u. t ≤ u) l (now ∷ []) h.1 (h.0, tt), append-IsOrdered now l h.2)

-- The times ever admitted, after one more call.
abbrev pub admit : ℕ → Bool → List ℕ → List ℕ
admit now true history = now ∷ history
admit now false history = history

module _ (limit seconds last now : ℕ) (window history : List ℕ)
    (counts : Counts seconds last window history) (forward : last ≤ now) where
  live_count : length (drop_expired seconds now window) ≡ recent seconds now history
  live_count =
      length-drop_expired seconds last now window counts.ordered ∙ sym (counts.same now forward)

  -- A call on a window that counts the history.
  consume_window-recent :
      (consume_window limit seconds now window).1 ≡ ltb (recent seconds now history) limit
  unfolding consume_window
  consume_window-recent = ground (arith, live_count)

  -- The window goes on counting what the history holds.
  pub consume_window-Counts :
      Counts seconds now
        (consume_window limit seconds now window).0
        (admit now (consume_window limit seconds now window).1 history)
  unfolding consume_window
  consume_window-Counts =
      let live = drop_expired seconds now window in
      let ordered = drop_expired-IsOrdered seconds last now window counts.ordered forward in
      let past = All-past last now history counts.past forward in
      elim (Bool-cases (leb limit (length live))) [
        | inl e ↦ rw (e) (record {
          ordered = ordered;
          past = past;
          same =
              λ m h. counts.same m (omega arith) ∙ sym (recent-drop_expired seconds now m window h);
        })
        | inr e ↦ rw (e) (record {
          ordered = append-IsOrdered now live ordered;
          past = (omega arith, past);
          same = λ m h. ground (
            arith,
            counts.same m,
            recent-append seconds m live now,
            recent-drop_expired seconds now m window,
          );
        })
      ]

-- How many of the times lie in the period that ends at `now`.
abbrev pub admitted_within : ℕ → ℕ → List ℕ → ℕ
admitted_within seconds now = count_if (λ t. ltb now (t + seconds) && leb t now)

-- A row of calls on one window, with all the times admitted so far.
unfoldable pub admitted : ℕ → ℕ → List ℕ → List ℕ → List ℕ → List ℕ
admitted limit seconds window history [] = history
admitted limit seconds window history (now ∷ calls) =
    let (window', done) = consume_window limit seconds now window in
    admitted limit seconds window' (admit now done history) calls

-- The clock does not go back.
abbrev pub IsForward : ℕ → List ℕ → Type 0
IsForward last [] = Unit
IsForward last (now ∷ l) = (last ≤ now) × IsForward now l

admitted_within-le :
    (seconds now m : ℕ) (l : List ℕ) → now ≤ m → admitted_within seconds m l ≤ recent seconds now l
admitted_within-le seconds now m [] h = omega arith
admitted_within-le seconds now m (t ∷ l) h = ground (arith, admitted_within-le seconds now m l h)

admit-within :
    (limit seconds now m : ℕ) (done : Bool) (history : List ℕ)
    → done ≡ ltb (recent seconds now history) limit
    → admitted_within seconds m history ≤ limit
    → admitted_within seconds m (admit now done history) ≤ limit
admit-within limit seconds now m false history h k = k
admit-within limit seconds now m true history h k =
    ground (arith, admitted_within-le seconds now m history)

admitted_bound :
    (limit seconds last : ℕ) (window history calls : List ℕ) (m : ℕ)
    → Counts seconds last window history
    → IsForward last calls
    → admitted_within seconds m history ≤ limit
    → admitted_within seconds m (admitted limit seconds window history calls) ≤ limit
unfolding admitted
admitted_bound limit seconds last window history [] m h f k = k
admitted_bound limit seconds last window history (now ∷ calls) m h f k =
    admitted_bound limit seconds now (consume_window limit seconds now window).0 _ calls m
      (consume_window-Counts limit seconds last now window history h f.0) f.1
      (admit-within limit seconds now m _ history
        (consume_window-recent limit seconds last now window history h f.0) k)

-- From an empty window, with a clock that does not go back, no period of the given length ever
-- holds more than `limit` admitted calls, wherever it ends.
pub admitted_within-le-limit :
    (limit seconds : ℕ) (calls : List ℕ) (m : ℕ)
    → IsForward 0 calls
    → admitted_within seconds m (admitted limit seconds [] [] calls) ≤ limit
admitted_within-le-limit limit seconds calls m f =
    admitted_bound limit seconds 0 [] [] calls m
      (record { ordered = tt; past = tt; same = λ _ _. refl }) f (omega arith)

-- The window after a row of calls.
unfoldable pub window_after : ℕ → ℕ → List ℕ → List ℕ → List ℕ
window_after limit seconds window [] = window
window_after limit seconds window (now ∷ calls) =
    window_after limit seconds (consume_window limit seconds now window).0 calls

after_calls :
    (limit seconds last : ℕ) (window history calls : List ℕ) (now : ℕ)
    → Counts seconds last window history
    → IsForward last (calls ++ now ∷ [])
    → (consume_window limit seconds now (window_after limit seconds window calls)).1
      ≡ ltb (recent seconds now (admitted limit seconds window history calls)) limit
unfolding window_after admitted
after_calls limit seconds last window history [] now h f =
    consume_window-recent limit seconds last now window history h f.0
after_calls limit seconds last window history (t ∷ calls) now h f =
    after_calls limit seconds t (consume_window limit seconds t window).0 _ calls now
      (consume_window-Counts limit seconds last t window history h f.0) f.1

-- After any row of calls on a window that was empty at first, with a clock that does not go back, the
-- next call is admitted exactly if fewer than `limit` calls of the row were admitted in the period
-- that ends with it.
pub consume_window-admitted :
    (limit seconds : ℕ) (calls : List ℕ) (now : ℕ)
    → IsForward 0 (calls ++ now ∷ [])
    → (consume_window limit seconds now (window_after limit seconds [] calls)).1
      ≡ ltb (recent seconds now (admitted limit seconds [] [] calls)) limit
consume_window-admitted limit seconds calls now f =
    after_calls limit seconds 0 [] [] calls now
      (record { ordered = tt; past = tt; same = λ _ _. refl }) f
