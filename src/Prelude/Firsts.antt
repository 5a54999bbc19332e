-- ===== src/Prelude/Firsts.antt =====
-- The entries of a list in the order of their first places.
use Prim.Native.String.{String}
use mathlib.Core.Path.{◌≡◌, refl}
use mathlib.Core.Logic.{inl, inr}
use mathlib.Core.List.{List, [], ◌∷◌, ◌++◌, append_assoc}
use pbxpulse_agent.Prelude.Tests.{if◌then◌else◌, Bool-cases}
use pbxpulse_agent.Prelude.Sets

-- The texts of a list that are not among those seen, each once, in the order of their first places.
unfoldable pub firsts : List String → List String → List String
firsts seen [] = []
firsts seen (k ∷ l) =
    let old = firsts seen l in
    let new = firsts (seen ++ k ∷ []) l in if Sets.member k seen then old else k ∷ new

pub firsts-step :
    (seen next : List String) (k : String) (l : List String)
    → next ≡ (if Sets.member k seen then seen else seen ++ k ∷ [])
    → next ++ firsts next l ≡ seen ++ firsts seen (k ∷ l)
unfolding firsts
firsts-step seen next k l h = elim (Bool-cases (Sets.member k seen)) [
  | inl e ↦ rw (h, e) refl
  | inr e ↦ rw (h, e) (append_assoc seen (k ∷ []) _)
]
