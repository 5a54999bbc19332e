-- ===== src/Ami/Stream.antt =====
-- `_recv_through` of pbxsense_agent/ami.py, which reads a socket through a marker. The socket is the
-- bytes that come until it is closed; how many of them a peek shows, at least one, is an argument
-- for each round. After a peek, `recv` takes as many of the bytes shown as it is asked for.
use mathlib.Core.List.{append-nil, append_assoc}
use pbxpulse_agent.Prelude.{
  ℕ, zero, suc, ◌+◌, ◌-◌, ◌≤◌, ◌≡◌, refl, ◌∙◌, ap, sym, Bool, true, false, ◌&&◌, Option, none, some,
  List, [], ◌∷◌, ◌++◌, nat_eq, length, length-drop, length-take_last-le, take, take_last, drop,
  arith, if◌then◌else◌, Bool-cases, inl, inr,
}

unfoldable pub begins : List ℕ → List ℕ → Bool
begins [] l = true
begins (m ∷ marker) [] = false
begins (m ∷ marker) (x ∷ l) = nat_eq m x && begins marker l

-- One further on.
abbrev further : Option ℕ → Option ℕ
further none = none
further (some i) = some (i + 1)

-- `l.find(marker)`
unfoldable pub find : List ℕ → List ℕ → Option ℕ
find marker [] = none
find marker (x ∷ l) =
    let rest = find marker l in if begins marker (x ∷ l) then some 0 else further rest

-- `chunks[-(len(marker) - 1):]`, or nothing for a marker of one byte
unfoldable pub tail_of : List ℕ → List ℕ → List ℕ
tail_of marker chunks = take_last (length marker - 1) chunks

-- A round: all the bytes through the marker where it is found at a place of the tail and the new
-- bytes, or what the later rounds give.
unfoldable pub read_found : Option ℕ → List ℕ → List ℕ → List ℕ → List ℕ → List ℕ → List ℕ
read_found none marker tail chunks available later = later
read_found (some i) marker tail chunks available later =
    chunks ++ take (i + length marker - length tail) available

-- The loop, with a number of rounds and what each peek shows.
unfoldable pub recv_loop : ℕ → (ℕ → ℕ) → List ℕ → List ℕ → List ℕ → List ℕ
recv_loop zero shown marker chunks rest = chunks
recv_loop (suc rounds) shown marker chunks [] = chunks
recv_loop (suc rounds) shown marker chunks (x ∷ rest) =
    let available = take (shown rounds + 1) (x ∷ rest) in
    let remaining = drop (shown rounds + 1) (x ∷ rest) in
    let tail = tail_of marker chunks in
    let later = recv_loop rounds shown marker (chunks ++ available) remaining in
    read_found (find marker (tail ++ available)) marker tail chunks available later

-- With a round for each byte.
unfoldable pub recv_through : (ℕ → ℕ) → List ℕ → List ℕ → List ℕ
recv_through shown marker rest = recv_loop (length rest) shown marker [] rest

-- The bytes through the first marker, or all of them.
unfoldable pub through : List ℕ → List ℕ → List ℕ
through marker [] = []
through marker (x ∷ l) =
    let rest = through marker l in if begins marker (x ∷ l) then marker else x ∷ rest

begins-append : (m l r : List ℕ) → length m ≤ length l → begins m (l ++ r) ≡ begins m l
unfolding begins
begins-append [] l r h = refl
begins-append (a ∷ m) [] r h = absurd (ground arith)
begins-append (a ∷ m) (x ∷ l) r h = ap (λ b. nat_eq a x && b) (begins-append m l r (ground arith))

begins-le : (m l : List ℕ) → begins m l ≡ true → length m ≤ length l
unfolding begins
begins-le [] l h = ground arith
begins-le (a ∷ m) [] h = absurd (ground arith)
begins-le (a ∷ m) (x ∷ l) h = ground (arith, begins-le m l (ground arith))

begins-take : (m l : List ℕ) → begins m l ≡ true → take (length m) l ≡ m
unfolding begins
begins-take [] l h = refl
begins-take (a ∷ m) [] h = absurd (ground arith)
begins-take (a ∷ m) (x ∷ l) h =
    let same : a ≡ x = ground arith in rw (begins-take m l (ground arith), sym same) refl

take-drop : (n : ℕ) (l : List ℕ) → take n l ++ drop n l ≡ l
take-drop zero l = refl
take-drop (suc n) [] = refl
take-drop (suc n) (x ∷ l) = ap (λ r. x ∷ r) (take-drop n l)

take-append : (n : ℕ) (a b : List ℕ) → length a ≤ n → take n (a ++ b) ≡ a ++ take (n - length a) b
take-append n [] b h = ap (λ k. take k b) (ground arith)
take-append zero (x ∷ a) b h = absurd (ground arith)
take-append (suc n) (x ∷ a) b h =
    ap (λ r. x ∷ r) (take-append n a b (ground arith))
    ∙ ap (λ k. x ∷ (a ++ take k b)) (ground arith)

take-append_short : (n : ℕ) (a b : List ℕ) → n ≤ length a → take n (a ++ b) ≡ take n a
take-append_short zero a b h = refl
take-append_short (suc n) [] b h = absurd (ground arith)
take-append_short (suc n) (x ∷ a) b h = ap (λ r. x ∷ r) (take-append_short n a b (ground arith))

further-some : (o : Option ℕ) (i : ℕ) → further o ≡ some i → (j : ℕ) × (o ≡ some j) × (i ≡ j + 1)
further-some none i h = absurd (ground arith)
further-some (some j) i h = (j, refl, ground (arith, h))

further-none : (o : Option ℕ) → further o ≡ none → o ≡ none
further-none none h = refl
further-none (some i) h = absurd (ground arith)

-- A place that is not the first.
find-later :
    (marker l : List ℕ) (x i : ℕ)
    → begins marker (x ∷ l) ≡ false
    → find marker (x ∷ l) ≡ some i
    → (j : ℕ) × (find marker l ≡ some j) × (i ≡ j + 1)
unfolding find
find-later marker l x i e h =
    further-some (find marker l) i
      (sym (ap (λ b. if b then some 0 else further (find marker l)) e) ∙ h)

find-first :
    (marker l : List ℕ) (x i : ℕ)
    → begins marker (x ∷ l) ≡ true
    → find marker (x ∷ l) ≡ some i
    → i ≡ 0
unfolding find
find-first marker l x i e h =
    ground (arith, sym (ap (λ b. if b then some 0 else further (find marker l)) e) ∙ h)

-- A place of the marker leaves room for it.
find-le : (marker l : List ℕ) (i : ℕ) → find marker l ≡ some i → i + length marker ≤ length l
find-le marker [] i h = absurd (unfold find in ground (arith, h))
find-le marker (x ∷ l) i h = elim (Bool-cases (begins marker (x ∷ l))) [
  | inl e ↦ ground (arith, find-first marker l x i e h, begins-le marker (x ∷ l) e)
  | inr e ↦
      let (j, place, next) = find-later marker l x i e h in
      ground (arith, next, find-le marker l j place)
]

-- Where the marker is found, reading through it ends there, whatever comes after.
find-through :
    (marker l r : List ℕ) (i : ℕ)
    → find marker l ≡ some i
    → through marker (l ++ r) ≡ take (i + length marker) l
unfolding through
find-through marker [] r i h = absurd (unfold find in ground (arith, h))
find-through marker (x ∷ l) r i h = elim (Bool-cases (begins marker (x ∷ l))) [
  | inl e ↦
      rw (begins-append marker (x ∷ l) r (begins-le marker (x ∷ l) e), e)
        (sym (begins-take marker (x ∷ l) e)
          ∙ ap (λ k. take k (x ∷ l)) (ground (arith, find-first marker l x i e h)))
  | inr e ↦
      let (j, place, next) = find-later marker l x i e h in
      rw (begins-append marker (x ∷ l) r (ground (arith, find-le marker l j place)), e)
        (let same : suc (j + length marker) ≡ i + length marker = ground (arith, next) in
          ap (λ s. x ∷ s) (find-through marker l r j place) ∙ ap (λ k. take k (x ∷ l)) same)
]

-- No place at all.
find-none :
    (marker l : List ℕ) (x : ℕ)
    → find marker (x ∷ l) ≡ none
    → (begins marker (x ∷ l) ≡ false) × (find marker l ≡ none)
unfolding find
find-none marker l x h = elim (Bool-cases (begins marker (x ∷ l))) [
  | inl e ↦
      absurd (ground (arith, sym (ap (λ b. if b then some 0 else further (find marker l)) e) ∙ h))
  | inr e ↦ (
    e,
    further-none (find marker l)
        (sym (ap (λ b. if b then some 0 else further (find marker l)) e) ∙ h),
  )
]

none-through : (marker l : List ℕ) → find marker l ≡ none → through marker l ≡ l
unfolding through
none-through marker [] h = refl
none-through marker (x ∷ l) h =
    let (e, later) = find-none marker l x h in rw e (ap (λ r. x ∷ r) (none-through marker l later))

-- The marker does not begin so early that it would end before what comes after.
skip-through :
    (marker l s : List ℕ) (n : ℕ)
    → find marker l ≡ none
    → n ≤ length l - (length marker - 1)
    → through marker (l ++ s) ≡ take n l ++ through marker (drop n l ++ s)
unfolding through
skip-through marker l s zero h le = refl
skip-through marker [] s (suc n) h le = refl
skip-through marker (x ∷ l) s (suc n) h le =
    let (e, later) = find-none marker l x h in
    rw (begins-append marker (x ∷ l) s (ground arith), e)
      (ap (λ r. x ∷ r) (skip-through marker l s n later (ground arith)))

skip-find :
    (marker l s : List ℕ) (n : ℕ)
    → find marker l ≡ none
    → n ≤ length l - (length marker - 1)
    → find marker (drop n l ++ s) ≡ none
    → find marker (l ++ s) ≡ none
unfolding find
skip-find marker l s zero h le k = k
skip-find marker [] s (suc n) h le k = k
skip-find marker (x ∷ l) s (suc n) h le k =
    let (e, later) = find-none marker l x h in
    rw (begins-append marker (x ∷ l) s (ground arith), e)
      (ap (λ o. further o) (skip-find marker l s n later (ground arith) k))

-- A round that finds the marker.
found-through :
    (marker chunks available later : List ℕ) (i : ℕ)
    → find marker chunks ≡ none
    → find marker (tail_of marker chunks ++ available) ≡ some i
    → through marker (chunks ++ (available ++ later))
      ≡ chunks ++ take (i + length marker - length (tail_of marker chunks)) available
unfolding tail_of
found-through marker chunks available later i h e =
    let n = length chunks - (length marker - 1) in
    let tail = tail_of marker chunks in
    let short : length tail ≤ i + length marker =
      ground (arith, length-take_last-le (length marker - 1) chunks) in
    let part = take (i + length marker - length tail) available in
    skip-through marker chunks (available ++ later) n h (ground arith)
    ∙ ap (λ r. take n chunks ++ r)
        (ap (through marker) (sym (append_assoc tail available later))
          ∙ find-through marker (tail ++ available) later i e
          ∙ take-append (i + length marker) tail available short)
    ∙ sym (append_assoc (take n chunks) tail part)
    ∙ ap (λ r. r ++ part) (take-drop n chunks)

round-through :
    (marker chunks available remaining later : List ℕ) (o : Option ℕ)
    → find marker chunks ≡ none
    → find marker (tail_of marker chunks ++ available) ≡ o
    → (find marker (chunks ++ available) ≡ none
        → later ≡ through marker (chunks ++ available ++ remaining))
    → read_found o marker (tail_of marker chunks) chunks available later
      ≡ through marker (chunks ++ (available ++ remaining))
unfolding read_found tail_of
round-through marker chunks available remaining later none h e k =
    k (skip-find marker chunks available (length chunks - (length marker - 1)) h (ground arith) e)
    ∙ ap (through marker) (append_assoc chunks available remaining)
round-through marker chunks available remaining later (some i) h e k =
    sym (found-through marker chunks available remaining i h e)

-- The loop reads through the marker, if it has a round for each byte.
recv_loop-through :
    (rounds : ℕ) (shown : ℕ → ℕ) (marker chunks rest : List ℕ)
    → find marker chunks ≡ none
    → length rest ≤ rounds
    → recv_loop rounds shown marker chunks rest ≡ through marker (chunks ++ rest)
unfolding recv_loop
recv_loop-through zero shown marker chunks [] h le =
    sym (ap (through marker) (append-nil chunks) ∙ none-through marker chunks h)
recv_loop-through zero shown marker chunks (x ∷ rest) h le = absurd (ground arith)
recv_loop-through (suc rounds) shown marker chunks [] h le =
    sym (ap (through marker) (append-nil chunks) ∙ none-through marker chunks h)
recv_loop-through (suc rounds) shown marker chunks (x ∷ rest) h le =
    let available = take (shown rounds + 1) (x ∷ rest) in
    let remaining = drop (shown rounds + 1) (x ∷ rest) in
    let fewer : length remaining ≤ rounds =
      ground (arith, length-drop (shown rounds + 1) (x ∷ rest), le) in
    round-through marker chunks available remaining
      (recv_loop rounds shown marker (chunks ++ available) remaining)
      (find marker (tail_of marker chunks ++ available)) h refl
      (λ k. recv_loop-through rounds shown marker (chunks ++ available) remaining k fewer)
    ∙ ap (λ r. through marker (chunks ++ r)) (take-drop (shown rounds + 1) (x ∷ rest))

-- However the bytes arrive, and however many of them each peek shows, what is read is the part of
-- the stream through the first marker, or all of it where there is none: nothing of the next packet
-- is taken, and no marker is missed at the border of two peeks.
pub recv_through-through :
    (shown : ℕ → ℕ) (marker rest : List ℕ) → recv_through shown marker rest ≡ through marker rest
unfolding recv_through
recv_through-through shown marker rest =
    recv_loop-through (length rest) shown marker [] rest (unfold find in refl) (ground arith)
