-- ===== src/Json.antt =====
-- JSON values as Python holds them after `json.loads`, and `json.dumps` with sorted keys, compact
-- separators and ASCII escapes. Numbers are whole.
pub mod Laws
use Prim.Native.Char.{code}
use Prim.Native.String.{compare}
use text.Mathlib.Text.{is_lt}
use pbxpulse_agent.Prelude.{
  ℕ, ℤ, pos, negsuc, ◌+◌, ◌-◌, ◌/◌, ◌%◌, String, ◌≡◌, refl, Bool, true, false, not, ◌&&◌, ◌||◌,
  List, [], ◌∷◌, ◌==◌, ltb, leb, nat_eq, if◌then◌else◌, concat, decimal, is_truthy, Option, none,
  some, int_of_text,
}

mutual
  pub data Json : Type 0 where
    null : Json
    bool : Bool → Json
    num : ℤ → Json
    str : String → Json
    arr : Items → Json
    obj : Fields → Json

  pub data Items : Type 0 where
    nil : Items
    cons : Json → Items → Items

  pub data Fields : Type 0 where
    end : Fields
    field : String → Json → Fields → Fields

-- `d.get(k)`; a key that is missing reads as `null`, as `None` does in Python.
unfoldable pub get : Fields → String → Json
get end k = null
get (field j v d) k = if j == k then v else get d k

unfoldable pub has : Fields → String → Bool
has end k = false
has (field j v d) k = j == k || has d k

-- `d.pop(k, None)`, the dict afterwards
unfoldable pub pop : Fields → String → Fields
pop end k = end
pop (field j v d) k = let rest = pop d k in if j == k then rest else field j v rest

-- `d[k] = v`
unfoldable pub put : Fields → String → Json → Fields
put end k v = field k v end
put (field j w d) k v = if j == k then field j v d else field j w (put d k v)

-- Python's `bool`
unfoldable pub truthy : Json → Bool
truthy null = false
truthy (bool b) = b
truthy (num (pos n)) = not (nat_eq n 0)
truthy (num (negsuc n)) = true
truthy (str s) = is_truthy s
truthy (arr nil) = false
truthy (arr (cons x l)) = true
truthy (obj end) = false
truthy (obj (field k v d)) = true

-- `v == s` for a text `s`
unfoldable pub is_str : String → Json → Bool
is_str s (str t) = t == s
is_str s null = false
is_str s (bool b) = false
is_str s (num n) = false
is_str s (arr l) = false
is_str s (obj d) = false

unfoldable pub int_text : ℤ → String
int_text (pos n) = decimal n
int_text (negsuc n) = concat ("-" ∷ decimal (n + 1) ∷ [])

hex_digit : ℕ → String
hex_digit n =
    if ltb n 10
    then decimal n
    else if nat_eq n 10
    then "a"
    else if nat_eq n 11
    then "b"
    else if nat_eq n 12
    then "c"
    else if nat_eq n 13
    then "d"
    else if nat_eq n 14
    then "e"
    else "f"

unicode_escape : ℕ → String
unicode_escape c = concat (
    "\\u"
    ∷ hex_digit (c / 4096 % 16)
    ∷ hex_digit (c / 256 % 16)
    ∷ hex_digit (c / 16 % 16)
    ∷ hex_digit (c % 16)
    ∷ [])

-- Characters past U+FFFF are written as two surrogates.
escape_code : ℕ → String → String
escape_code c s =
    if nat_eq c b'"'
    then "\\\""
    else if nat_eq c b'\\'
    then "\\\\"
    else if nat_eq c 8
    then "\\b"
    else if nat_eq c 9
    then "\\t"
    else if nat_eq c 10
    then "\\n"
    else if nat_eq c 12
    then "\\f"
    else if nat_eq c 13
    then "\\r"
    else if leb 32 c && ltb c 127
    then s
    else if ltb c 65536
    then unicode_escape c
    else concat (
        unicode_escape (55296 + (c - 65536) / 1024)
        ∷ unicode_escape (56320 + (c - 65536) % 1024)
        ∷ [])

escape : String → String
escape String.[] = ""
escape (String.◌∷◌ c s) = concat (escape_code (code c) (String.◌∷◌ c "") ∷ escape s ∷ [])

quote : String → String
quote s = concat ("\"" ∷ escape s ∷ "\"" ∷ [])

-- The texts of a dict's members, to be put in order by their keys.
insert_member : String → String → List (String × String) → List (String × String)
insert_member k v [] = (k, v) ∷ []
insert_member k v ((j, w) ∷ l) =
    if is_lt (compare j k) then (j, w) ∷ insert_member k v l else (k, v) ∷ (j, w) ∷ l

members_text : List (String × String) → String
members_text [] = ""
members_text ((k, v) ∷ []) = concat (quote k ∷ ":" ∷ v ∷ [])
members_text ((k, v) ∷ m ∷ l) = concat (quote k ∷ ":" ∷ v ∷ "," ∷ members_text (m ∷ l) ∷ [])

unfoldable mutual
  unfolding int_text hex_digit unicode_escape escape_code escape quote insert_member members_text

  -- `json.dumps(v, sort_keys=True, separators=(",", ":"))`
  pub dumps : Json → String
  dumps null = "null"
  dumps (bool true) = "true"
  dumps (bool false) = "false"
  dumps (num n) = int_text n
  dumps (str s) = quote s
  dumps (arr l) = concat ("[" ∷ dump_items l ∷ "]" ∷ [])
  dumps (obj d) = concat ("{" ∷ members_text (dump_fields d) ∷ "}" ∷ [])

  pub dump_items : Items → String
  dump_items nil = ""
  dump_items (cons x nil) = dumps x
  dump_items (cons x (cons y l)) = concat (dumps x ∷ "," ∷ dump_items (cons y l) ∷ [])

  pub dump_fields : Fields → List (String × String)
  dump_fields end = []
  dump_fields (field k v d) = insert_member k (dumps v) (dump_fields d)

-- `str(v)` of a value that is no container: the program's keys hold texts and numbers.
unfoldable pub to_text : Json → String
to_text null = "None"
to_text (bool true) = "True"
to_text (bool false) = "False"
to_text (num n) = int_text n
to_text (str s) = s
to_text (arr l) = dumps (arr l)
to_text (obj d) = dumps (obj d)

-- `int(v)`, where `none` is an error
unfoldable pub to_int : Json → Option ℤ
to_int (num n) = some n
to_int (bool b) = some (if b then pos 1 else pos 0)
to_int (str s) = int_of_text s
to_int null = none
to_int (arr l) = none
to_int (obj d) = none

-- `str(d.get(k, default))`
abbrev pub text_or : Fields → String → String → String
text_or d k default = if has d k then to_text (get d k) else default

dumps_lem :
    dumps
      (obj (field "b" (arr (cons (num (negsuc 0)) (cons null nil))) (field "a" (str "q\"\n") end)))
    ≡ "{\"a\":\"q\\\"\\n\",\"b\":[-1,null]}"
unfolding dumps concat decimal
dumps_lem = refl
