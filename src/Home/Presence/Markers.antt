-- ===== src/Home/Presence/Markers.antt =====
-- A text that is normalized once is in lower case and has no underscore and no hyphen, so that the
-- second normalization, by `_device_state_is_unavailable`, changes nothing but the space around it.
use pbxpulse_agent.Prelude.{
  ℕ, String, ◌≡◌, refl, ◌∙◌, ap, Bool, true, false, ◌&&◌, ◌||◌, Option, none, some, List, [], ◌∷◌,
  arith, ◌==◌, if◌then◌else◌, is_truthy, strip, codes, contains, any_marker, Bool-cases, inl, inr,
  lower, lower_codes, strip_codes, replace, All, All-append, nat_eq, leb, is_space, lower_code,
  lstrip_codes, rstrip_codes, push_code,
}
use Prim.Native.Char.{code}
use mathlib.Core.Path.{ap₂}
use pbxpulse_agent.Prelude.Markers.{
  contains-strip_codes, contains_tail, has_solid_start, has_solid_end,
}
use pbxpulse_agent.Snapshot.{
  AmiEndpoint, endpoint_unavailable, device_state_is_unavailable, state_is_unavailable,
  unavailable_markers,
}
use pbxpulse_agent.Home.Presence.{
  Presence, normalized, normalized_unavailable, presence_of, normalized_presence, person_presence,
}

-- A character that `lower` leaves, and that is no underscore and no hyphen.
abbrev IsLower : ℕ → Type 0
IsLower c =
    (leb b'A' c && leb c b'Z' ≡ false) × (nat_eq c 0x212a ≡ false) × (nat_eq c 0x130 ≡ false)

abbrev IsNot : ℕ → ℕ → Type 0
IsNot a c = nat_eq c a ≡ false

lower_code-IsLower : (c : ℕ) → All IsLower (lower_code c)
unfolding lower_code
lower_code-IsLower c = ground arith

lower-IsLower : (s : String) → All IsLower (lower s)
unfolding lower
lower-IsLower String.[] = tt
lower-IsLower (String.◌∷◌ c s) =
    All-append IsLower (lower_code (code c)) (lower s) (lower_code-IsLower (code c))
      (lower-IsLower s)

replace-All : (P : ℕ → Type 0) (a b : ℕ) (s : List ℕ) → P b → All P s → All P (replace a b s)
unfolding replace
replace-All P a b [] h k = tt
replace-All P a b (c ∷ s) h k = (
  elim (Bool-cases (nat_eq c a)) [ inl e ↦ rw (e) h | inr e ↦ rw (e) (k.0) ],
  replace-All P a b s h k.1,
)

replace-IsNot : (a b : ℕ) (s : List ℕ) → IsNot a b → All (IsNot a) (replace a b s)
unfolding replace
replace-IsNot a b [] h = tt
replace-IsNot a b (c ∷ s) h = (ground (arith, h), replace-IsNot a b s h)

replace_same : (a b : ℕ) (s : List ℕ) → All (IsNot a) s → replace a b s ≡ s
unfolding replace
replace_same a b [] h = refl
replace_same a b (c ∷ s) h = ground (arith, h.0, replace_same a b s h.1)

lower_codes_same : (s : List ℕ) → All IsLower s → lower_codes s ≡ s
unfolding lower_codes lower_code
lower_codes_same [] h = refl
lower_codes_same (c ∷ s) h = ground (arith, h.0, lower_codes_same s h.1)

lstrip_codes-All : (P : ℕ → Type 0) (s : List ℕ) → All P s → All P (lstrip_codes s)
unfolding lstrip_codes
lstrip_codes-All P [] h = tt
lstrip_codes-All P (c ∷ s) h = ground (arith, h, lstrip_codes-All P s h.1)

push_code-All : (P : ℕ → Type 0) (c : ℕ) (s : List ℕ) → P c → All P s → All P (push_code c s)
unfolding push_code
push_code-All P c [] h k = ground (arith, h)
push_code-All P c (d ∷ s) h k = (h, k)

rstrip_codes-All : (P : ℕ → Type 0) (s : List ℕ) → All P s → All P (rstrip_codes s)
unfolding rstrip_codes
rstrip_codes-All P [] h = tt
rstrip_codes-All P (c ∷ s) h = push_code-All P c (rstrip_codes s) h.0 (rstrip_codes-All P s h.1)

strip_codes-All : (P : ℕ → Type 0) (s : List ℕ) → All P s → All P (strip_codes s)
unfolding strip_codes
strip_codes-All P s h = rstrip_codes-All P (lstrip_codes s) (lstrip_codes-All P s h)

record IsNormal (s : List ℕ) : Type 0 where
  lower_case : All IsLower s
  no_mark : All (IsNot b'_') s
  no_hyphen : All (IsNot b'-') s

normalized-IsNormal : (raw : String) → IsNormal (normalized raw)
unfolding normalized
normalized-IsNormal raw =
    let l = lower (strip raw) in
    record {
      lower_case =
          replace-All IsLower b'-' b' ' _ (refl, refl, refl)
            (replace-All IsLower b'_' b' ' l (refl, refl, refl) (lower-IsLower (strip raw)));
      no_mark = replace-All (IsNot b'_') b'-' b' ' _ refl (replace-IsNot b'_' b' ' l refl);
      no_hyphen = replace-IsNot b'-' b' ' (replace b'_' b' ' l) refl;
    }

any_marker-strip_codes :
    (markers : List String) (s : List ℕ)
    → All (λ m. has_solid_start (codes m) && has_solid_end (codes m) ≡ true) markers
    → any_marker markers (strip_codes s) ≡ any_marker markers s
unfolding any_marker
any_marker-strip_codes [] s h = refl
any_marker-strip_codes (m ∷ l) s h =
    ap₂ ◌||◌ (contains-strip_codes (codes m) s h.0) (any_marker-strip_codes l s h.1)

-- Normalized again: stripped, and otherwise the same.
renormalized :
    (s : List ℕ)
    → IsNormal s
    → replace b'-' b' ' (replace b'_' b' ' (lower_codes (strip_codes s))) ≡ strip_codes s
renormalized s h =
    ap (λ x. replace b'-' b' ' (replace b'_' b' ' x))
      (lower_codes_same (strip_codes s) (strip_codes-All IsLower s h.lower_case))
    ∙ ap (replace b'-' b' ')
        (replace_same b'_' b' ' (strip_codes s) (strip_codes-All (IsNot b'_') s h.no_mark))
    ∙ replace_same b'-' b' ' (strip_codes s) (strip_codes-All (IsNot b'-') s h.no_hyphen)

markers-solid :
    All (λ m. has_solid_start (codes m) && has_solid_end (codes m) ≡ true) unavailable_markers
unfolding is_space
markers-solid = (refl, (refl, (refl, (refl, (refl, (refl, (refl, (refl, tt))))))))

normalized_unavailable-normalized :
    (raw : String) → normalized_unavailable (normalized raw) ≡ device_state_is_unavailable raw
unfolding normalized_unavailable device_state_is_unavailable state_is_unavailable
normalized_unavailable-normalized raw =
    ap (any_marker unavailable_markers) (renormalized (normalized raw) (normalized-IsNormal raw))
    ∙ any_marker-strip_codes unavailable_markers (normalized raw) markers-solid
    ∙ ap (any_marker unavailable_markers) (unfold normalized in refl)

unavailable_empty : (s : String) → is_truthy s ≡ false → state_is_unavailable (lower s) ≡ false
unfolding state_is_unavailable lower any_marker contains replace
unavailable_empty String.[] h = refl
unavailable_empty (String.◌∷◌ c s) h = absurd (ground arith)

available_empty :
    (raw : String) → is_truthy (strip raw) ≡ false → device_state_is_unavailable raw ≡ false
unfolding device_state_is_unavailable
available_empty raw h = unavailable_empty (strip raw) h

-- A phone whose device state counts as unavailable for the Signals and the Activity is shown as
-- offline, whatever presence its user has set, unless it is on a call.
pub person_presence-endpoint_unavailable :
    (endpoint : AmiEndpoint) (is_talking : Bool)
    → endpoint_unavailable endpoint ≡ true
    → person_presence endpoint is_talking
      ≡ (if is_talking then ("on_call", "On a call") else ("offline", "Offline"))
unfolding endpoint_unavailable person_presence normalized_presence presence_of
person_presence-endpoint_unavailable endpoint is_talking h = ground (
  arith,
  normalized_unavailable-normalized endpoint.device_state,
  available_empty endpoint.device_state,
)

in_use : (s : List ℕ) → contains (codes "not in use") s ≡ true → contains (codes "in use") s ≡ true
in_use s h =
    contains_tail b' ' _ s
      (contains_tail b't' _ s (contains_tail b'o' _ s (contains_tail b'n' _ s h)))

unfoldable is_available : Option Presence → Bool
is_available none = false
is_available (some (state, label)) = state == "available"

is_available-if :
    (b : Bool) (p q : Option Presence)
    → is_available (if b then p else q) ≡ (if b then is_available p else is_available q)
is_available-if true p q = refl
is_available-if false p q = refl

others_differ :
    (("offline" == "available") ≡ false)
    × (("do_not_disturb" == "available") ≡ false)
    × (("away" == "available") ≡ false)
    × (("ringing" == "available") ≡ false)
    × (("busy" == "available") ≡ false)
others_differ = (refl, refl, refl, refl, refl)

presence_of-is_available :
    (s : List ℕ) → contains (codes "in use") s ≡ true → is_available (presence_of s) ≡ false
unfolding presence_of is_available any_marker
presence_of-is_available s h = simp (is_available-if) (ground (arith, h, others_differ))

-- A device state that says "not in use" is never read as available: it holds "in use" too, which is
-- tested first.
pub normalized_presence-not_in_use :
    (raw : String)
    → contains (codes "not in use") (normalized raw) ≡ true
    → ¬ (normalized_presence raw ≡ some ("available", "Available"))
unfolding normalized_presence is_available
normalized_presence-not_in_use raw h = λ e. absurd (
    ground (
      arith,
      ap is_available e,
      is_available-if (is_truthy (strip raw)) (presence_of (normalized raw)) none,
      presence_of-is_available (normalized raw) (in_use (normalized raw) h),
    ))
