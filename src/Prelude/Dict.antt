-- ===== src/Prelude/Dict.antt =====
-- Python's `dict` with text keys: an association list in insertion order. An assignment to a key
-- that is there keeps its place, and a new key goes to the end.
use Prim.Native.String.{String}
use mathlib.Core.Path.{◌≡◌, refl}
use mathlib.Core.Bool.{Bool, true, false, ◌||◌}
use mathlib.Core.Option.{Option, none, some}
use mathlib.Core.List.{List, [], ◌∷◌, map}
use native.Mathlib.Omega.{arith}
use text.Mathlib.Text.{◌==◌}
use text.Mathlib.TextEquality.{eq_iff}
use pbxpulse_agent.Prelude.Tests.{if◌then◌else◌}

abbrev pub Dict {ℓ} : Type ℓ → Type ℓ
Dict V = List (String × V)

module _ {ℓ} {V : Type ℓ} where
  -- `d.get(k)`
  unfoldable pub get : Dict V → String → Option V
  get [] k = none
  get ((j, v) ∷ d) k = if j == k then some v else get d k

  -- `d.get(k, default)`
  abbrev pub get_default : Dict V → String → V → V
  get_default d k v = elim (get d k) [ none ↦ v | some w ↦ w ]

  -- `k in d`
  unfoldable pub has : Dict V → String → Bool
  has [] k = false
  has ((j, v) ∷ d) k = if j == k then true else has d k

  -- `d[k] = v`
  unfoldable pub put : Dict V → String → V → Dict V
  put [] k v = (k, v) ∷ []
  put ((j, w) ∷ d) k v = if j == k then (j, v) ∷ d else (j, w) ∷ put d k v

  -- `d.setdefault(k, v)`, the dict afterwards
  unfoldable pub set_default : Dict V → String → V → Dict V
  set_default d k v = if has d k then d else put d k v

  -- `d.pop(k, None)`, the dict afterwards
  unfoldable pub pop : Dict V → String → Dict V
  pop [] k = []
  pop ((j, v) ∷ d) k = let rest = pop d k in if j == k then rest else (j, v) ∷ rest

  -- `{k: v for k, v in d.items() if p(k)}`
  unfoldable pub keep_keys : (String → Bool) → Dict V → Dict V
  keep_keys p [] = []
  keep_keys p ((j, v) ∷ d) = let rest = keep_keys p d in if p j then (j, v) ∷ rest else rest

  -- `{k: v for k, v in d.items() if p(v)}`
  unfoldable pub keep_values : (V → Bool) → Dict V → Dict V
  keep_values p [] = []
  keep_values p ((j, v) ∷ d) = let rest = keep_values p d in if p v then (j, v) ∷ rest else rest

  abbrev pub keys : Dict V → List String
  keys = map (λ e. e.0)

  pub get-put :
      (d : Dict V) (k j : String) (v : V) → get (put d k v) j ≡ (if k == j then some v else get d j)
  unfolding get put
  get-put [] k j v = refl
  get-put ((i, w) ∷ d) k j v = ground (arith, eq_iff k j, eq_iff i k, eq_iff i j, get-put d k j v)

  pub get-pop : (d : Dict V) (k j : String) → get (pop d k) j ≡ (if k == j then none else get d j)
  unfolding get pop
  get-pop [] k j = ground arith
  get-pop ((i, w) ∷ d) k j = ground (arith, eq_iff k j, eq_iff i k, eq_iff i j, get-pop d k j)

  pub get-keep_keys :
      (p : String → Bool) (d : Dict V) (j : String)
      → get (keep_keys p d) j ≡ (if p j then get d j else none)
  unfolding get keep_keys
  get-keep_keys p [] j = ground arith
  get-keep_keys p ((i, w) ∷ d) j = ground (arith, eq_iff i j, get-keep_keys p d j)

  pub has-get :
      (d : Dict V) (k : String) → has d k ≡ elim (get d k) [ none ↦ false | some _ ↦ true ]
  unfolding get has
  has-get [] k = refl
  has-get ((j, v) ∷ d) k = ground (arith, has-get d k)

  pub get-set_default :
      (d : Dict V) (k j : String) (v : V)
      → get (set_default d k v) j
        ≡ (if k == j then elim (get d k) [ none ↦ some v | some w ↦ some w ] else get d j)
  unfolding set_default
  get-set_default d k j v = ground (arith, has-get d k, get-put d k j v, eq_iff k j)

module _ {ℓ} {V : Type ℓ} where
  -- No key twice, as in every Python dict.
  abbrev pub Distinct : Dict V → Type 0
  Distinct [] = Unit
  Distinct ((k, v) ∷ d) = (has d k ≡ false) × Distinct d

  -- `{k: v for k, v in entries}`: the last value of a key wins.
  unfoldable pub from_entries : Dict V → List (String × V) → Dict V
  from_entries d [] = d
  from_entries d ((k, v) ∷ l) = from_entries (put d k v) l

  pub has-put : (d : Dict V) (k j : String) (v : V) → has (put d k v) j ≡ (k == j || has d j)
  unfolding has put
  has-put [] k j v = ground arith
  has-put ((i, w) ∷ d) k j v = ground (arith, eq_iff k j, eq_iff i k, eq_iff i j, has-put d k j v)

  pub put-Distinct : (d : Dict V) (k : String) (v : V) → Distinct d → Distinct (put d k v)
  unfolding put has
  put-Distinct [] k v h = (refl, tt)
  put-Distinct ((i, w) ∷ d) k v h =
      ground (arith, eq_iff k i, eq_iff i k, has-put d k i v, put-Distinct d k v h.1)

  pub from_entries-Distinct :
      (d : Dict V) (l : List (String × V)) → Distinct d → Distinct (from_entries d l)
  unfolding from_entries
  from_entries-Distinct d [] h = h
  from_entries-Distinct d ((k, v) ∷ l) h =
      from_entries-Distinct (put d k v) l (put-Distinct d k v h)

module _ {ℓ} {V : Type ℓ} where
  -- An entry that a step updates in place, or drops (`none`).
  unfoldable pub update : Dict V → String → Option V → Dict V
  update d k none = pop d k
  update d k (some v) = put d k v

  pub get-update :
      (d : Dict V) (k j : String) (o : Option V)
      → get (update d k o) j ≡ (if k == j then o else get d j)
  unfolding update
  get-update d k j none = get-pop d k j
  get-update d k j (some v) = get-put d k j v

  pub has-pop : (d : Dict V) (k j : String) → has (pop d k) j ≡ (if k == j then false else has d j)
  has-pop d k j = ground (arith, has-get d j, has-get (pop d k) j, get-pop d k j)

  pub pop-Distinct : (d : Dict V) (k : String) → Distinct d → Distinct (pop d k)
  unfolding pop
  pop-Distinct [] k h = tt
  pop-Distinct ((i, v) ∷ d) k h = ground (arith, has-pop d k i, pop-Distinct d k h.1)

  pub update-Distinct :
      (d : Dict V) (k : String) (o : Option V) → Distinct d → Distinct (update d k o)
  unfolding update
  update-Distinct d k none h = pop-Distinct d k h
  update-Distinct d k (some v) h = put-Distinct d k v h

  has-keep_keys :
      (p : String → Bool) (d : Dict V) (j : String)
      → has (keep_keys p d) j ≡ (if p j then has d j else false)
  has-keep_keys p d j = ground (arith, has-get d j, has-get (keep_keys p d) j, get-keep_keys p d j)

  pub keep_keys-Distinct : (p : String → Bool) (d : Dict V) → Distinct d → Distinct (keep_keys p d)
  unfolding keep_keys
  keep_keys-Distinct p [] h = tt
  keep_keys-Distinct p ((i, v) ∷ d) h =
      ground (arith, has-keep_keys p d i, keep_keys-Distinct p d h.1)
