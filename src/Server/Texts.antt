-- ===== src/Server/Texts.antt =====
-- The checks on the values of a request: the helpers `_clean_text`, `_bounded_text`,
-- `_optional_text`, `_bounded_identifier` and `_optional_identifier` of push_relay/app.py.
use pbxpulse_agent.Prelude.{
  ℕ, String, Bool, true, false, not, ◌&&◌, ◌||◌, List, [], ◌∷◌, if◌then◌else◌, concat, is_truthy,
  strip, codes, length, leb, take_text, nat_eq,
}
use pbxpulse_agent.Json
use pbxpulse_agent.Json.{Json, Fields}
use pbxpulse_agent.Server.Store.{Result, ok, refuse}

-- `str(value or "").strip()`
unfoldable pub clean : Json → String
clean value = strip (if Json.truthy value then Json.to_text value else "")

-- `_clean_text`
unfoldable pub clean_text : Json → String → Result String
unfolding clean
clean_text value name =
    if is_truthy (clean value)
    then ok (clean value)
    else refuse 400 (concat (name ∷ " is required" ∷ []))

abbrev text_length : String → ℕ
text_length s = length (codes s)

-- `_bounded_text`
unfoldable pub bounded_text : Json → String → ℕ → Result String
bounded_text value name limit =
    if not (is_truthy (clean value))
    then refuse 400 (concat (name ∷ " is required" ∷ []))
    else if leb (text_length (clean value)) limit
    then ok (clean value)
    else refuse 400 (concat (name ∷ " is too long" ∷ []))

-- `_optional_text`, whose limit is 120 where none is given
unfoldable pub optional_text : Json → ℕ → String
optional_text value limit = take_text limit (clean value)

-- `str.isalnum` of an ASCII character; any other character counts as a letter.
is_alnum : ℕ → Bool
is_alnum c =
    (leb b'0' c && leb c b'9')
    || (leb b'A' c && leb c b'Z')
    || (leb b'a' c && leb c b'z')
    || leb 128 c

-- The characters that `replace` takes out of an identifier before it is tested.
is_mark : Bool → ℕ → Bool
is_mark dots c = nat_eq c b'-' || nat_eq c b'_' || (dots && nat_eq c b'.')

all_allowed : Bool → List ℕ → Bool
all_allowed dots [] = true
all_allowed dots (c ∷ s) = (is_mark dots c || is_alnum c) && all_allowed dots s

some_alnum : Bool → List ℕ → Bool
some_alnum dots [] = false
some_alnum dots (c ∷ s) = not (is_mark dots c) || some_alnum dots s

-- `text.replace("-", "").replace("_", "").isalnum()`, with `.replace(".", "")` where `dots`: what is
-- left is not empty, and all of it is letters and digits.
unfoldable pub is_identifier : Bool → String → Bool
unfolding is_alnum is_mark all_allowed some_alnum
is_identifier dots s = all_allowed dots (codes s) && some_alnum dots (codes s)

-- `_bounded_identifier`
unfoldable pub bounded_identifier : Json → String → Result String
bounded_identifier value name =
    if not (is_truthy (clean value))
    then refuse 400 (concat (name ∷ " is required" ∷ []))
    else if leb (text_length (clean value)) 96 && is_identifier true (clean value)
    then ok (clean value)
    else refuse 400 (concat ("Invalid " ∷ name ∷ []))

-- `_optional_identifier`
unfoldable pub optional_identifier : Json → String
optional_identifier value =
    if is_truthy (clean value)
      && leb (text_length (clean value)) 96
      && is_identifier true (clean value)
    then clean value
    else ""

-- A nonce of 16 to 96 letters, digits, hyphens and underscores.
unfoldable pub is_nonce : String → Bool
is_nonce nonce =
    leb 16 (text_length nonce) && leb (text_length nonce) 96 && is_identifier false nonce
