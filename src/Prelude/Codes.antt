-- ===== src/Prelude/Codes.antt =====
-- String methods on lists of code points, for a text that was already put in lower case, and the
-- tests on the characters of a text.
use Prim.Native.Nat.{ℕ, suc}
use Prim.Native.Char.{code}
use Prim.Native.String.{String}
use mathlib.Core.Bool.{Bool, true, ◌&&◌}
use mathlib.Core.List.{List, [], ◌∷◌, ◌++◌}
use pbxpulse_agent.Prelude.Tests.{leb, ◌==◌, if◌then◌else◌}
use pbxpulse_agent.Prelude.Text.{is_space, lower_code}

unfoldable pub lstrip_codes : List ℕ → List ℕ
lstrip_codes [] = []
lstrip_codes (c ∷ s) = let rest = lstrip_codes s in if is_space c then rest else c ∷ s

unfoldable pub push_code : ℕ → List ℕ → List ℕ
push_code c [] = if is_space c then [] else c ∷ []
push_code c (d ∷ s) = c ∷ d ∷ s

unfoldable pub rstrip_codes : List ℕ → List ℕ
rstrip_codes [] = []
rstrip_codes (c ∷ s) = push_code c (rstrip_codes s)

-- `s.strip()`
unfoldable pub strip_codes : List ℕ → List ℕ
unfolding lstrip_codes push_code rstrip_codes is_space
strip_codes s = rstrip_codes (lstrip_codes s)

-- `s.lower()`
unfoldable pub lower_codes : List ℕ → List ℕ
unfolding lower_code
lower_codes [] = []
lower_codes (c ∷ s) = lower_code c ++ lower_codes s

-- `str.isdigit` of an ASCII character
is_digit : ℕ → Bool
is_digit c = leb b'0' c && leb c b'9'

-- `s.isdigit()`
unfoldable pub all_digits : List ℕ → Bool
unfolding is_digit
all_digits [] = true
all_digits (c ∷ s) = is_digit c && all_digits s

-- How many digits a text has.
unfoldable pub count_digits : List ℕ → ℕ
unfolding is_digit
count_digits [] = 0
count_digits (c ∷ s) = if is_digit c then suc (count_digits s) else count_digits s

-- `s.split(sep, 1)[0]`
unfoldable pub before_code : ℕ → String → String
before_code sep String.[] = ""
before_code sep (String.◌∷◌ c s) =
    let rest = before_code sep s in if code c == sep then "" else String.◌∷◌ c rest

-- `s.split(sep, 1)[1]`, where `sep` is in the text; "" where it is not.
unfoldable pub after_code : ℕ → String → String
after_code sep String.[] = ""
after_code sep (String.◌∷◌ c s) = let rest = after_code sep s in if code c == sep then s else rest
