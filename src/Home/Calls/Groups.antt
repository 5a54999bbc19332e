-- ===== src/Home/Calls/Groups.antt =====
-- One channel for each call, in the order in which the calls first appear.
use pbxpulse_agent.Prelude.{
  String, ◌≡◌, refl, ◌∙◌, ap, sym, Bool, true, false, Option, none, some, List, [], ◌∷◌, ◌++◌, ◌==◌,
  eq_iff, arith, if◌then◌else◌, map, All, All-append, Bool-cases, inl, inr,
}
use mathlib.Core.Path.{ap₂, subst, subst₂}
use mathlib.Core.List.{append-nil}
use pbxpulse_agent.Prelude.Dict
use pbxpulse_agent.Prelude.Dict.{Dict}
use pbxpulse_agent.Prelude.Sets
use pbxpulse_agent.Prelude.Firsts.{firsts, firsts-step}
use pbxpulse_agent.Snapshot.{AmiChannel}
use pbxpulse_agent.Home.Calls.{
  call_group_key, first_or, is_calling, has_caller, preferred_call_channel, add_to, add_channel,
  group_channels, preferred_channels, dedupe_call_channels,
}

abbrev Groups : Type 0
Groups = Dict (AmiChannel × List AmiChannel)

abbrev HasKey : String → AmiChannel → Type 0
HasKey k c = call_group_key c ≡ k

-- Each group holds channels with its key.
abbrev IsGrouped : Groups → Type 0
IsGrouped = All (λ g. HasKey g.0 g.1.0 × All (HasKey g.0) g.1.1)

abbrev keys_of : Groups → List String
keys_of [] = []
keys_of ((k, g) ∷ d) = k ∷ keys_of d

first_or-HasKey :
    (p : AmiChannel → Bool) (k : String) (c : AmiChannel) (l : List AmiChannel)
    → HasKey k c
    → All (HasKey k) l
    → HasKey k (first_or p c l)
unfolding first_or
first_or-HasKey p k c [] h m = h
first_or-HasKey p k c (x ∷ l) h m = ground (arith, m.0, first_or-HasKey p k c l h m.1)

preferred-HasKey :
    (k : String) (c : AmiChannel) (l : List AmiChannel)
    → HasKey k c
    → All (HasKey k) l
    → HasKey k (preferred_call_channel c l)
unfolding preferred_call_channel
preferred-HasKey k c l h m =
    first_or-HasKey is_calling k _ (c ∷ l) (first_or-HasKey has_caller k c (c ∷ l) h (h, m)) (h, m)

preferred_channels-keys_of :
    (d : Groups) → IsGrouped d → map call_group_key (preferred_channels d) ≡ keys_of d
unfolding preferred_channels
preferred_channels-keys_of [] h = refl
preferred_channels-keys_of ((k, g) ∷ d) h =
    ap₂ ◌∷◌ (preferred-HasKey k g.0 g.1 h.0.0 h.0.1) (preferred_channels-keys_of d h.1)

has_keys : (d : Groups) (k : String) → (Dict.get d k ≡ none → Sets.member k (keys_of d) ≡ false)
unfolding Dict.get Sets.member
has_keys [] k h = refl
has_keys ((j, g) ∷ d) k h = ground (arith, eq_iff j k, has_keys d k)

found_group :
    (d : Groups) (k : String) (g : AmiChannel × List AmiChannel)
    → IsGrouped d
    → Dict.get d k ≡ some g
    → (Sets.member k (keys_of d) ≡ true) × HasKey k g.0 × All (HasKey k) g.1
unfolding Dict.get Sets.member
found_group [] k g m h = absurd (ground arith)
found_group ((j, f) ∷ d) k g m h = elim (Bool-cases (j == k)) [
  | inl e ↦
      let same_key : j ≡ k = (eq_iff j k).0 e in
      let same : f ≡ g = ground (arith, h, e) in
      (
        ground (arith, e),
        subst₂ (λ a b. HasKey a b.0) same_key same m.0.0,
        subst₂ (λ a b. All (HasKey a) b.1) same_key same m.0.1,
      )
  | inr e ↦
      let (listed, first, others) = found_group d k g m.1 (ground (arith, h, e)) in
      (ground (arith, listed), first, others)
]

keys_of-append : (d e : Groups) → keys_of (d ++ e) ≡ keys_of d ++ keys_of e
keys_of-append [] e = refl
keys_of-append ((k, g) ∷ d) e = ap (◌∷◌ k) (keys_of-append d e)

put_group :
    (d : Groups) (k : String) (g : AmiChannel × List AmiChannel)
    → IsGrouped d
    → HasKey k g.0
    → All (HasKey k) g.1
    → Sets.member k (keys_of d) ≡ true
    → IsGrouped (Dict.put d k g) × (keys_of (Dict.put d k g) ≡ keys_of d)
unfolding Dict.put Sets.member
put_group [] k g m h a e = absurd (ground arith)
put_group ((j, f) ∷ d) k g m h a e = elim (Bool-cases (j == k)) [
  | inl same ↦
      let key : k ≡ j = sym ((eq_iff j k).0 same) in
      rw (same)
        (((subst (λ x. HasKey x g.0) key h, subst (λ x. All (HasKey x) g.1) key a), m.1), refl)
  | inr other ↦
      let (grouped, keys) = put_group d k g m.1 h a (ground (arith, e, other)) in
      rw (other) ((m.0, grouped), ap (◌∷◌ j) keys)
]

add_to_group :
    (d : Groups) (c : AmiChannel) (o : Option (AmiChannel × List AmiChannel))
    → IsGrouped d
    → Dict.get d (call_group_key c) ≡ o
    → IsGrouped (add_to d c o)
      × (keys_of (add_to d c o) ≡ (
          if Sets.member (call_group_key c) (keys_of d)
          then keys_of d
          else keys_of d ++ call_group_key c ∷ []))
unfolding add_to
add_to_group d c none m e =
    (All-append _ d _ m ((refl, tt), tt), rw (has_keys d (call_group_key c) e) (keys_of-append d _))
add_to_group d c (some (first, others)) m e =
    let (listed, h, a) = found_group d (call_group_key c) (first, others) m e in
    let (grouped, keys) =
      put_group d (call_group_key c) (first, others ++ c ∷ []) m h
        (All-append _ others _ a (refl, tt)) listed in
    (grouped, rw (listed) keys)

group_channels-firsts :
    (d : Groups) (l : List AmiChannel)
    → IsGrouped d
    → IsGrouped (group_channels d l)
      × (keys_of (group_channels d l) ≡ keys_of d ++ firsts (keys_of d) (map call_group_key l))
unfolding group_channels add_channel firsts
group_channels-firsts d [] m = (m, sym (append-nil (keys_of d)))
group_channels-firsts d (c ∷ l) m =
    let k = call_group_key c in
    let (grouped, keys) = add_to_group d c (Dict.get d k) m refl in
    let (all, rest) = group_channels-firsts (add_to d c (Dict.get d k)) l grouped in
    (all, rest ∙ firsts-step (keys_of d) _ k (map call_group_key l) keys)

-- The calls that are shown are those of the channels, each once, in the order in which their first
-- channels are listed: two channels are the same call if they have the same group key.
pub dedupe_call_channels-firsts :
    (channels : List AmiChannel)
    → map call_group_key (dedupe_call_channels channels) ≡ firsts [] (map call_group_key channels)
unfolding dedupe_call_channels
dedupe_call_channels-firsts channels =
    let (grouped, keys) = group_channels-firsts [] channels tt in
    preferred_channels-keys_of (group_channels [] channels) grouped ∙ keys
