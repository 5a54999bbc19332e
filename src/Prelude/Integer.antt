-- ===== src/Prelude/Integer.antt =====
-- Python's `int` of a text: decimal digits with single underscores between them, a sign, and space
-- around it. Digits past ASCII are not read.
use Prim.Native.Nat.{ℕ, zero, suc, ◌+◌, ◌-◌, ◌*◌}
use Prim.Native.String.{String}
use mathlib.Core.Path.{◌≡◌, refl}
use mathlib.Core.Bool.{Bool, true, false, ◌&&◌}
use mathlib.Core.Option.{Option, none, some}
use mathlib.Core.List.{List, [], ◌∷◌}
use pbxpulse_agent.Prelude.Tests.{leb, ◌==◌, if◌then◌else◌, ℤ, pos, negsuc}
use pbxpulse_agent.Prelude.Text.{codes, strip}

-- The digits, after a number and either a digit or not.
digits : ℕ → Bool → List ℕ → Option ℕ
digits n after_digit [] = if after_digit then some n else none
digits n after_digit (c ∷ s) =
    let with_digit = digits (n * 10 + (c - b'0')) true s in
    let with_mark = digits n false s in
    if leb b'0' c && leb c b'9'
    then with_digit
    else if c == b'_' && after_digit
    then with_mark
    else none

negated : ℕ → ℤ
negated zero = pos 0
negated (suc n) = negsuc n

signed : List ℕ → Option ℤ
signed [] = none
signed (c ∷ s) =
    if c == b'-'
    then elim (digits 0 false s) [ some n ↦ some (negated n) | none ↦ none ]
    else if c == b'+'
    then elim (digits 0 false s) [ some n ↦ some (pos n) | none ↦ none ]
    else elim (digits 0 false (c ∷ s)) [ some n ↦ some (pos n) | none ↦ none ]

-- `int(s)`, where `none` is a `ValueError`
unfoldable pub int_of_text : String → Option ℤ
unfolding digits negated signed
int_of_text s = signed (codes (strip s))

int_of_text_lem :
    (int_of_text " -1_0 " ≡ some (negsuc 9))
    × (int_of_text "300" ≡ some (pos 300))
    × (int_of_text "1__0" ≡ none)
unfolding int_of_text strip
int_of_text_lem = (refl, refl, refl)
