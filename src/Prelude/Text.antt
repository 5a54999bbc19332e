-- ===== src/Prelude/Text.antt =====
-- Python's `str` as native text, and the string methods that the program uses.
use Prim.Native.Nat.{ℕ, zero, suc, ◌+◌, ◌-◌, ◌/◌, ◌%◌}
use Prim.Native.Char.{Char, code}
use Prim.Native.String.{String, ◌++◌ as append}
use mathlib.Core.Path.{◌≡◌, refl}
use mathlib.Core.Bool.{Bool, true, false, ◌&&◌, ◌||◌}
use mathlib.Core.List.{List, [], ◌∷◌, ◌++◌, reverse}
use text.Mathlib.TextLemmas.{cons-append}
use text.Mathlib.Text.{◌==◌ as str_eq}
use pbxpulse_agent.Prelude.Tests.{ltb, leb, ◌==◌, if◌then◌else◌}
use pbxpulse_agent.Prelude.Lists.{any}

-- The code points of a text.
abbrev pub codes : String → List ℕ
codes String.[] = []
codes (String.◌∷◌ c s) = code c ∷ codes s

-- `bool(s)`
abbrev pub is_truthy : String → Bool
is_truthy String.[] = false
is_truthy (String.◌∷◌ c s) = true

-- `s or t`
abbrev pub or_else : String → String → String
or_else String.[] t = t
or_else (String.◌∷◌ c s) t = String.◌∷◌ c s

-- An f-string: its parts, one after the other.
unfoldable pub concat : List String → String
concat [] = ""
concat (s ∷ l) = append s (concat l)

-- `sep.join(l)`
unfoldable pub join : String → List String → String
join sep [] = ""
join sep (s ∷ []) = s
join sep (s ∷ t ∷ l) = append s (append sep (join sep (t ∷ l)))

-- `str.isspace` of one character
unfoldable pub is_space : ℕ → Bool
is_space c =
    (leb 9 c && leb c 13)
    || (leb 28 c && leb c 32)
    || c == 0x85
    || c == 0xa0
    || c == 0x1680
    || (leb 0x2000 c && leb c 0x200a)
    || c == 0x2028
    || c == 0x2029
    || c == 0x202f
    || c == 0x205f
    || c == 0x3000

lstrip : String → String
lstrip String.[] = ""
lstrip (String.◌∷◌ c s) = let rest = lstrip s in if is_space (code c) then rest else String.◌∷◌ c s

push_stripped : Char → String → String
push_stripped c String.[] = if is_space (code c) then "" else String.◌∷◌ c ""
push_stripped c (String.◌∷◌ d s) = String.◌∷◌ c (String.◌∷◌ d s)

rstrip : String → String
rstrip String.[] = ""
rstrip (String.◌∷◌ c s) = push_stripped c (rstrip s)

-- `s.strip()`
unfoldable pub strip : String → String
unfolding is_space lstrip push_stripped rstrip
strip s = rstrip (lstrip s)

-- `str.lower` of one character, as far as a test against an ASCII text can see it: U+212A and
-- U+0130 are the only other characters with an ASCII letter in their lower case.
unfoldable pub lower_code : ℕ → List ℕ
lower_code c =
    if leb b'A' c && leb c b'Z'
    then (c + 32) ∷ []
    else if c == 0x212a
    then b'k' ∷ []
    else if c == 0x130
    then b'i' ∷ 0x307 ∷ []
    else c ∷ []

-- `s.lower()`, as code points
unfoldable pub lower : String → List ℕ
unfolding lower_code
lower String.[] = []
lower (String.◌∷◌ c s) = lower_code (code c) ++ lower s

-- `str.upper` of one character, as far as a test against an ASCII text can see it.
upper_code : ℕ → List ℕ
upper_code c =
    if leb b'a' c && leb c b'z'
    then (c - 32) ∷ []
    else if c == 0x131
    then b'I' ∷ []
    else if c == 0x17f
    then b'S' ∷ []
    else if c == 0xdf
    then b'S' ∷ b'S' ∷ []
    else if c == 0xfb00
    then b'F' ∷ b'F' ∷ []
    else if c == 0xfb01
    then b'F' ∷ b'I' ∷ []
    else if c == 0xfb02
    then b'F' ∷ b'L' ∷ []
    else if c == 0xfb03
    then b'F' ∷ b'F' ∷ b'I' ∷ []
    else if c == 0xfb04
    then b'F' ∷ b'F' ∷ b'L' ∷ []
    else if c == 0xfb05 || c == 0xfb06
    then b'S' ∷ b'T' ∷ []
    else c ∷ []

-- `s.upper()`, as code points
unfoldable pub upper : String → List ℕ
unfolding upper_code
upper String.[] = []
upper (String.◌∷◌ c s) = upper_code (code c) ++ upper s

-- `s.replace(a, b)` for single characters
unfoldable pub replace : ℕ → ℕ → List ℕ → List ℕ
replace a b [] = []
replace a b (c ∷ s) = (if c == a then b else c) ∷ replace a b s

-- `s == t`, on code points
unfoldable pub codes_eq : List ℕ → List ℕ → Bool
codes_eq [] [] = true
codes_eq [] (d ∷ t) = false
codes_eq (c ∷ s) [] = false
codes_eq (c ∷ s) (d ∷ t) = c == d && codes_eq s t

unfoldable pub begins_with : List ℕ → List ℕ → Bool
begins_with [] s = true
begins_with (m ∷ ms) [] = false
begins_with (m ∷ ms) (c ∷ s) = m == c && begins_with ms s

-- `s.endswith(t)`
unfoldable pub ends_with : String → String → Bool
unfolding begins_with
ends_with s t = begins_with (reverse (codes t)) (reverse (codes s))

-- `marker in s`
unfoldable pub contains : List ℕ → List ℕ → Bool
unfolding begins_with
contains m [] = begins_with m []
contains m (c ∷ s) = begins_with m (c ∷ s) || contains m s

-- `any(marker in s for marker in markers)`
unfoldable pub any_marker : List String → List ℕ → Bool
unfolding contains
any_marker markers s = any (λ m. contains (codes m) s) markers

-- `s in {…}`, on code points
unfoldable pub one_of : List String → List ℕ → Bool
unfolding codes_eq
one_of options s = any (λ o. codes_eq s (codes o)) options

digit : ℕ → String
digit n =
    if n == 0
    then "0"
    else if n == 1
    then "1"
    else if n == 2
    then "2"
    else if n == 3
    then "3"
    else if n == 4
    then "4"
    else if n == 5
    then "5"
    else if n == 6
    then "6"
    else if n == 7
    then "7"
    else if n == 8
    then "8"
    else "9"

decimal_go : ℕ → ℕ → String
decimal_go zero n = ""
decimal_go (suc fuel) n =
    let rest = decimal_go fuel (n / 10) in
    if ltb n 10 then digit n else append rest (digit (n % 10))

-- `str(n)`: a number has fewer digits than its value plus one.
unfoldable pub decimal : ℕ → String
unfolding digit decimal_go
decimal n = decimal_go (n + 1) n

-- `s[:n]`
unfoldable pub take_text : ℕ → String → String
take_text zero s = ""
take_text (suc n) String.[] = ""
take_text (suc n) (String.◌∷◌ c s) = String.◌∷◌ c (take_text n s)

-- The n-th character of a text, or the default.
nth_char : String → ℕ → Char → Char
nth_char String.[] n c = c
nth_char (String.◌∷◌ d s) zero c = d
nth_char (String.◌∷◌ d s) (suc n) c = nth_char s n c

lower_char : Char → Char
lower_char c =
    if leb b'A' (code c) && leb (code c) b'Z'
    then nth_char "abcdefghijklmnopqrstuvwxyz" (code c - b'A') c
    else c

-- `str.isalnum` of an ASCII character; any other character counts as a letter.
is_alnum : ℕ → Bool
is_alnum c =
    (leb b'0' c && leb c b'9')
    || (leb b'A' c && leb c b'Z')
    || (leb b'a' c && leb c b'z')
    || leb 128 c

underscored : String → String
underscored String.[] = ""
underscored (String.◌∷◌ c s) =
    String.◌∷◌ (if is_alnum (code c) then c else nth_char "_" 0 c) (underscored s)

lower_text : String → String
lower_text String.[] = ""
lower_text (String.◌∷◌ c s) = String.◌∷◌ (lower_char c) (lower_text s)

upper_char : Char → Char
upper_char c =
    if leb b'a' (code c) && leb (code c) b'z'
    then nth_char "ABCDEFGHIJKLMNOPQRSTUVWXYZ" (code c - b'a') c
    else c

-- `s.upper()` of a text of ASCII characters
unfoldable pub upper_text : String → String
unfolding nth_char upper_char
upper_text String.[] = ""
upper_text (String.◌∷◌ c s) = String.◌∷◌ (upper_char c) (upper_text s)

lstrip_char : ℕ → String → String
lstrip_char a String.[] = ""
lstrip_char a (String.◌∷◌ c s) =
    let rest = lstrip_char a s in if code c == a then rest else String.◌∷◌ c s

push_unless : ℕ → Char → String → String
push_unless a c String.[] = if code c == a then "" else String.◌∷◌ c ""
push_unless a c (String.◌∷◌ d s) = String.◌∷◌ c (String.◌∷◌ d s)

rstrip_char : ℕ → String → String
rstrip_char a String.[] = ""
rstrip_char a (String.◌∷◌ c s) = push_unless a c (rstrip_char a s)

-- `s.strip(a)` for a single character
unfoldable pub strip_char : ℕ → String → String
unfolding lstrip_char push_unless rstrip_char
strip_char a s = rstrip_char a (lstrip_char a s)

-- `_safe_id`: letters and digits in lower case, all else an underscore, none at the ends.
unfoldable pub safe_id : String → String
unfolding nth_char lower_char is_alnum underscored lower_text strip_char
safe_id raw = lower_text (strip_char b'_' (underscored raw))

safe_id_lem : safe_id " Main Queue-2!" ≡ "main_queue_2"
unfolding safe_id
safe_id_lem = refl

-- The part before the first separator, and the parts after it.
push_char : Char → List String → List String
push_char c [] = String.◌∷◌ c "" ∷ []
push_char c (s ∷ l) = String.◌∷◌ c s ∷ l

-- `s.split(sep)` for a single character
unfoldable pub split : ℕ → String → List String
unfolding push_char
split sep String.[] = "" ∷ []
split sep (String.◌∷◌ c s) =
    let rest = split sep s in if code c == sep then "" ∷ rest else push_char c rest

pub is_truthy-append : (s t : String) → is_truthy s ≡ true → is_truthy (append s t) ≡ true
is_truthy-append String.[] t h = cc
is_truthy-append (String.◌∷◌ c s) t h = rw cons-append

strip_lem : (str_eq (strip "  a b\n") "a b") ≡ true
unfolding strip
strip_lem = refl

split_lem : split b',' "12,,3" ≡ "12" ∷ "" ∷ "3" ∷ []
unfolding split
split_lem = refl

decimal_lem : decimal 1090 ≡ "1090"
unfolding decimal
decimal_lem = refl

any_marker_lem :
    any_marker ("not registered" ∷ []) (replace b'_' b' ' (lower "NOT_Registered")) ≡ true
unfolding any_marker lower replace
any_marker_lem = refl
