-- ===== src/Prelude/Sets.antt =====
-- Python's `set` of texts as a list without repetition. The program never reads a set's order
-- without sorting it.
use Prim.Native.String.{String, compare}
use mathlib.Core.Path.{◌≡◌, refl}
use mathlib.Core.Bool.{Bool, true, false, ◌&&◌, ◌||◌, not}
use mathlib.Core.List.{List, [], ◌∷◌}
use native.Mathlib.Omega.{arith}
use text.Mathlib.Text.{◌==◌, is_lt}
use text.Mathlib.TextEquality.{eq_iff}
use pbxpulse_agent.Prelude.Tests.{if◌then◌else◌}
use pbxpulse_agent.Prelude.Lists.{keep}

-- `x in s`
unfoldable pub member : String → List String → Bool
member x [] = false
member x (y ∷ s) = y == x || member x s

-- `s.add(x)`
unfoldable pub add : String → List String → List String
add x s = if member x s then s else x ∷ s

-- `s | t`, `s.update(t)`
unfoldable pub union : List String → List String → List String
unfolding add
union [] t = t
union (x ∷ s) t = add x (union s t)

-- `s - t`
unfoldable pub diff : List String → List String → List String
diff s t = keep (λ x. not (member x t)) s

-- `s & t`
unfoldable pub inter : List String → List String → List String
inter s t = keep (λ x. member x t) s

-- `s.isdisjoint(t)`
unfoldable pub is_disjoint : List String → List String → Bool
is_disjoint [] t = true
is_disjoint (x ∷ s) t = not (member x t) && is_disjoint s t

-- `frozenset(l)`
unfoldable pub of_list : List String → List String
unfolding add
of_list [] = []
of_list (x ∷ l) = add x (of_list l)

-- `s <= t`
is_subset : List String → List String → Bool
is_subset [] t = true
is_subset (x ∷ s) t = member x t && is_subset s t

-- `s == t`
unfoldable pub same : List String → List String → Bool
unfolding is_subset
same s t = is_subset s t && is_subset t s

insert_sorted : String → List String → List String
insert_sorted x [] = x ∷ []
insert_sorted x (y ∷ l) = if is_lt (compare y x) then y ∷ insert_sorted x l else x ∷ y ∷ l

-- `sorted(s)`
unfoldable pub sorted : List String → List String
unfolding insert_sorted
sorted [] = []
sorted (x ∷ l) = insert_sorted x (sorted l)

pub member-keep :
    (p : String → Bool) (x : String) (s : List String) → member x (keep p s) ≡ (member x s && p x)
unfolding member
member-keep p x [] = refl
member-keep p x (y ∷ s) = ground (arith, eq_iff y x, member-keep p x s)

pub member-add : (x y : String) (s : List String) → member x (add y s) ≡ (y == x || member x s)
unfolding member add
member-add x y s = ground (arith, eq_iff y x)

pub member-diff :
    (x : String) (s t : List String) → member x (diff s t) ≡ (member x s && not (member x t))
unfolding diff
member-diff x s t = member-keep (λ y. not (member y t)) x s

pub member-inter :
    (x : String) (s t : List String) → member x (inter s t) ≡ (member x s && member x t)
unfolding inter
member-inter x s t = member-keep (λ y. member y t) x s

pub member-union :
    (x : String) (s t : List String) → member x (union s t) ≡ (member x s || member x t)
unfolding member union
member-union x [] t = refl
member-union x (y ∷ s) t = ground (arith, member-add x y (union s t), member-union x s t)

pub member-of_list : (x : String) (l : List String) → member x (of_list l) ≡ member x l
unfolding member of_list
member-of_list x [] = refl
member-of_list x (y ∷ l) = ground (arith, member-add x y (of_list l), member-of_list x l)
