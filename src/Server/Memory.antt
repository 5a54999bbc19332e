-- ===== src/Server/Memory.antt =====
-- A document store in memory, for the examples.
use Prim.Native.Char.{code}
use pbxpulse_agent.Prelude.{
  String, Bool, true, false, Option, none, some, List, [], ◌∷◌, nat_eq, if◌then◌else◌, concat,
}
use pbxpulse_agent.Prelude.Dict
use pbxpulse_agent.Prelude.Dict.{Dict}
use pbxpulse_agent.Json.{Fields}
use pbxpulse_agent.Server.Store.{Firestore}

-- The text after a prefix, if it has the prefix.
abbrev after : String → String → Option String
after String.[] s = some s
after (String.◌∷◌ c p) String.[] = none
after (String.◌∷◌ c p) (String.◌∷◌ d s) =
    let rest = after p s in if nat_eq (code c) (code d) then rest else none

abbrev has_slash : String → Bool
has_slash String.[] = false
has_slash (String.◌∷◌ c s) = let rest = has_slash s in if nat_eq (code c) b'/' then true else rest

abbrev add_found : Option String → Fields → List (String × Fields) → List (String × Fields)
add_found none doc l = l
add_found (some id) doc l = if has_slash id then l else (id, doc) ∷ l

abbrev documents : Dict Fields → String → List (String × Fields)
documents [] prefix = []
documents ((path, doc) ∷ d) prefix = add_found (after prefix path) doc (documents d prefix)

abbrev pub memory : Firestore
memory = record {
  Db = Dict Fields;
  get = Dict.get;
  set = Dict.put;
  delete = Dict.pop;
  stream = λ d collection. documents d (concat (collection ∷ "/" ∷ []));
  get-set = λ d p doc q. Dict.get-put d p q doc;
  get-delete = λ d p q. Dict.get-pop d p q;
}
