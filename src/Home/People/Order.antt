-- ===== src/Home/People/Order.antt =====
-- The order of texts by `<` of Python: by code points, from the first on.
use Prim.Native.Nat.{Ordering, compare as compare_ℕ}
use Prim.Native.Char.{Char, code}
use Prim.Native.String.{compare, then}
use Prim.Native.String.compare
use text.Mathlib.Text.{is_lt}
use pbxpulse_agent.Prelude.{
  ℕ, String, ◌≡◌, ◌∙◌, ap, Bool, true, false, not, ◌&&◌, ◌||◌, arith, ltb, nat_eq,
}

-- `s <= t`
abbrev pub text_le : String → String → Bool
text_le s t = not (is_lt (compare t s))

lt_then :
    (m n : ℕ) (o : Ordering) → is_lt (then (compare_ℕ m n) o) ≡ (ltb m n || (nat_eq m n && is_lt o))
lt_then m n o = ground arith

lt_cons :
    (c d : Char) (s t : String)
    → is_lt (compare (String.◌∷◌ c s) (String.◌∷◌ d t))
      ≡ (ltb (code c) (code d) || (nat_eq (code c) (code d) && is_lt (compare s t)))
lt_cons c d s t = ap is_lt (compare.cons-cons c d s t) ∙ lt_then (code c) (code d) (compare s t)

empty_le : (u : String) → text_le "" u ≡ true
empty_le String.[] = ap (λ o. not (is_lt o)) compare.nil-nil
empty_le (String.◌∷◌ e u) = ap (λ o. not (is_lt o)) (compare.cons-nil e u)

cons_le : (c : Char) (s : String) → text_le (String.◌∷◌ c s) "" ≡ false
cons_le c s = ap (λ o. not (is_lt o)) (compare.nil-cons c s)

pub text_le_trans : (s t u : String) → text_le s t ≡ true → text_le t u ≡ true → text_le s u ≡ true
text_le_trans String.[] t u h k = empty_le u
text_le_trans (String.◌∷◌ c s) String.[] u h k = absurd (ground (arith, cons_le c s))
text_le_trans (String.◌∷◌ c s) (String.◌∷◌ d t) String.[] h k = absurd (ground (arith, cons_le d t))
text_le_trans (String.◌∷◌ c s) (String.◌∷◌ d t) (String.◌∷◌ e u) h k =
    ground (arith, lt_cons d c t s, lt_cons e d u t, lt_cons e c u s, text_le_trans s t u)

-- A text that is before another is not after it.
pub lt_le : (s t : String) → is_lt (compare s t) ≡ true → text_le s t ≡ true
lt_le String.[] t h = empty_le t
lt_le (String.◌∷◌ c s) String.[] h = absurd (ground (arith, compare.cons-nil c s))
lt_le (String.◌∷◌ c s) (String.◌∷◌ d t) h =
    ground (arith, lt_cons c d s t, lt_cons d c t s, lt_le s t)
