-- ===== src/Home/People/Rows.antt =====
-- The rows against the endpoints they are made from.
use Prim.Native.String.{compare}
use mathlib.Core.Path.{subst}
use text.Mathlib.Text.{is_lt}
use pbxpulse_agent.Prelude.{
  ℕ, ◌+◌, String, ◌≡◌, refl, ◌∙◌, ap, sym, Bool, ◌==◌, All, Bool-cases, inl, inr, true, false, not,
  ◌&&◌, List, [], ◌∷◌, arith, if◌then◌else◌, keep, map, count_if,
}
use pbxpulse_agent.Prelude.Dict
use pbxpulse_agent.Prelude.Dict.{Dict}
use pbxpulse_agent.Snapshot.{AmiChannel, AmiEndpoint, endpoint_unavailable, is_trunk}
use pbxpulse_agent.Home.Presence.{person_presence}
use pbxpulse_agent.Home.Presence.Markers.{person_presence-endpoint_unavailable}
use pbxpulse_agent.Home.People.Order.{text_le, text_le_trans, lt_le}
use pbxpulse_agent.Home.People.{
  insert_endpoint, sorted_endpoints, Person, talking_extensions, is_on_call, iso_of, person_row,
  phones, build_people,
}

count_if-insert_endpoint :
    (p : AmiEndpoint → Bool) (e : AmiEndpoint) (l : List AmiEndpoint)
    → count_if p (insert_endpoint e l) ≡ (if p e then 1 else 0) + count_if p l
unfolding insert_endpoint
count_if-insert_endpoint p e [] = refl
count_if-insert_endpoint p e (f ∷ l) = ground (arith, count_if-insert_endpoint p e l)

count_if-sorted_endpoints :
    (p : AmiEndpoint → Bool) (l : List AmiEndpoint) → count_if p (sorted_endpoints l) ≡ count_if p l
unfolding sorted_endpoints
count_if-sorted_endpoints p [] = refl
count_if-sorted_endpoints p (e ∷ l) =
    count_if-insert_endpoint p e (sorted_endpoints l)
    ∙ ap (λ n. (if p e then 1 else 0) + n) (count_if-sorted_endpoints p l)

count_if-keep :
    (p q : AmiEndpoint → Bool) (l : List AmiEndpoint)
    → count_if p (keep q l) ≡ count_if (λ e. q e && p e) l
count_if-keep p q [] = refl
count_if-keep p q (e ∷ l) = ground (arith, count_if-keep p q l)

count_if-map :
    (p : Person → Bool) (f : AmiEndpoint → Person) (l : List AmiEndpoint)
    → count_if p (map f l) ≡ count_if (λ e. p (f e)) l
count_if-map p f [] = refl
count_if-map p f (e ∷ l) = ground (arith, count_if-map p f l)

-- In the order of their extensions.
abbrev pub IsSorted : List String → Type 0
IsSorted [] = Unit
IsSorted (s ∷ l) = All (λ u. text_le s u ≡ true) l × IsSorted l

abbrev extensions : List AmiEndpoint → List String
extensions = map (λ e. e.extension)

insert_endpoint-All :
    (P : String → Type 0) (e : AmiEndpoint) (l : List AmiEndpoint)
    → P e.extension
    → All P (extensions l)
    → All P (extensions (insert_endpoint e l))
unfolding insert_endpoint
insert_endpoint-All P e [] h k = (h, tt)
insert_endpoint-All P e (f ∷ l) h k = elim (Bool-cases (is_lt (compare f.extension e.extension))) [
  | inl b ↦ rw b (k.0, insert_endpoint-All P e l h k.1)
  | inr b ↦ rw b (h, k)
]

All-text_le :
    (s t : String) (l : List String)
    → text_le s t ≡ true
    → All (λ u. text_le t u ≡ true) l
    → All (λ u. text_le s u ≡ true) l
All-text_le s t [] h k = tt
All-text_le s t (u ∷ l) h k = (text_le_trans s t u h k.0, All-text_le s t l h k.1)

insert_endpoint-IsSorted :
    (e : AmiEndpoint) (l : List AmiEndpoint)
    → IsSorted (extensions l)
    → IsSorted (extensions (insert_endpoint e l))
unfolding insert_endpoint
insert_endpoint-IsSorted e [] h = (tt, tt)
insert_endpoint-IsSorted e (f ∷ l) h = elim (Bool-cases (is_lt (compare f.extension e.extension))) [
  | inl b ↦ rw b (
    insert_endpoint-All (λ u. text_le f.extension u ≡ true) e l (lt_le f.extension e.extension b)
        h.0,
    insert_endpoint-IsSorted e l h.1,
  )
  | inr b ↦
      let first : text_le e.extension f.extension ≡ true = ap not b in
      rw b ((first, All-text_le e.extension f.extension (extensions l) first h.0), h)
]

sorted_endpoints-IsSorted : (l : List AmiEndpoint) → IsSorted (extensions (sorted_endpoints l))
unfolding sorted_endpoints
sorted_endpoints-IsSorted [] = tt
sorted_endpoints-IsSorted (e ∷ l) =
    insert_endpoint-IsSorted e (sorted_endpoints l) (sorted_endpoints-IsSorted l)

keep-All :
    (P : String → Type 0) (q : AmiEndpoint → Bool) (l : List AmiEndpoint)
    → All P (extensions l)
    → All P (extensions (keep q l))
keep-All P q [] h = tt
keep-All P q (e ∷ l) h = elim (Bool-cases (q e)) [
  | inl b ↦ rw b (h.0, keep-All P q l h.1)
  | inr b ↦ rw b (keep-All P q l h.1)
]

keep-IsSorted :
    (q : AmiEndpoint → Bool) (l : List AmiEndpoint)
    → IsSorted (extensions l)
    → IsSorted (extensions (keep q l))
keep-IsSorted q [] h = tt
keep-IsSorted q (e ∷ l) h = elim (Bool-cases (q e)) [
  | inl b ↦ rw b (keep-All (λ u. text_le e.extension u ≡ true) q l h.0, keep-IsSorted q l h.1)
  | inr b ↦ rw b (keep-IsSorted q l h.1)
]

rows-extension :
    (talking : List String) (names : Dict String) (last_active : Dict ℕ) (l : List AmiEndpoint)
    → map (λ p. p.extension) (map (person_row talking names last_active) l) ≡ extensions l
unfolding person_row
rows-extension talking names last_active [] = refl
rows-extension talking names last_active (e ∷ l) =
    ap (◌∷◌ e.extension) (rows-extension talking names last_active l)

rows_of_kind :
    (p : Person → Bool) (endpoints : List AmiEndpoint) (channels : List AmiChannel)
    (names : Dict String) (last_active : Dict ℕ)
    → count_if p (build_people endpoints channels names last_active)
      ≡ count_if
          (λ e.
            not (is_trunk e) && p (person_row (talking_extensions channels) names last_active e))
          endpoints
unfolding build_people phones
rows_of_kind p endpoints channels names last_active =
    let row = person_row (talking_extensions channels) names last_active in
    count_if-map p row (keep (λ e. not (is_trunk e)) (sorted_endpoints endpoints))
    ∙ count_if-keep (λ e. p (row e)) (λ e. not (is_trunk e)) (sorted_endpoints endpoints)
    ∙ count_if-sorted_endpoints (λ e. not (is_trunk e) && p (row e)) endpoints

-- The people are the phones, in the order of their extensions. Each extension has as many rows as
-- phones, and none for a trunk; and of any kind there are as many rows as phones whose row is of
-- that kind.
pub build_people-IsSorted :
    (k : String) (p : Person → Bool) (endpoints : List AmiEndpoint) (channels : List AmiChannel)
    (names : Dict String) (last_active : Dict ℕ)
    → IsSorted (map (λ q. q.extension) (build_people endpoints channels names last_active))
      × (count_if (λ q. q.extension == k) (build_people endpoints channels names last_active)
          ≡ count_if (λ e. not (is_trunk e) && e.extension == k) endpoints)
      × (count_if p (build_people endpoints channels names last_active)
          ≡ count_if
              (λ e.
                not (is_trunk e)
                && p (person_row (talking_extensions channels) names last_active e))
              endpoints)
unfolding build_people phones person_row
build_people-IsSorted k p endpoints channels names last_active =
    let talking = talking_extensions channels in
    let shown = keep (λ e. not (is_trunk e)) (sorted_endpoints endpoints) in
    (
      subst IsSorted (sym (rows-extension talking names last_active shown)) (
          keep-IsSorted (λ e. not (is_trunk e)) (sorted_endpoints endpoints)
            (sorted_endpoints-IsSorted endpoints)),
      rows_of_kind (λ q. q.extension == k) endpoints channels names last_active,
      rows_of_kind p endpoints channels names last_active,
    )

-- A phone that is unavailable and not on a call is shown as unavailable, with the time at which it
-- was last active, if that is known.
pub person_row-endpoint_unavailable :
    (talking : List String) (names : Dict String) (last_active : Dict ℕ) (endpoint : AmiEndpoint)
    → endpoint_unavailable endpoint ≡ true
    → is_on_call talking endpoint ≡ false
    → ((person_row talking names last_active endpoint).status ≡ "unavailable")
      × ((person_row talking names last_active endpoint).presence ≡ ("offline", "Offline"))
      × ((person_row talking names last_active endpoint).last_active_at
          ≡ iso_of (Dict.get last_active endpoint.extension))
unfolding person_row
person_row-endpoint_unavailable talking names last_active endpoint out idle =
    let offline =
      ap (person_presence endpoint) idle
      ∙ person_presence-endpoint_unavailable endpoint false out in
    (rw (offline) refl, offline, rw (offline) refl)
