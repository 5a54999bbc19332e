-- ===== src/Prelude/Markers.antt =====
-- Markers in a text: `marker in s` before and after `s.strip()`, and parts of markers.
use Prim.Native.Nat.{ℕ}
use mathlib.Core.Path.{◌≡◌, refl, ◌∙◌, ap, ap₂}
use mathlib.Core.Bool.{Bool, true, false, ◌&&◌, ◌||◌, not}
use mathlib.Core.List.{List, [], ◌∷◌}
use native.Mathlib.Omega.{arith}
use pbxpulse_agent.Prelude.Tests.{◌==◌}
use pbxpulse_agent.Prelude.Text.{is_space, begins_with, contains}
use pbxpulse_agent.Prelude.Codes.{strip_codes, lstrip_codes, rstrip_codes, push_code}

begins_with-contains : (m s : List ℕ) → begins_with m s ≡ true → contains m s ≡ true
unfolding contains
begins_with-contains m [] h = h
begins_with-contains m (c ∷ s) h = ground (arith, h)

pub contains_tail : (a : ℕ) (m s : List ℕ) → contains (a ∷ m) s ≡ true → contains m s ≡ true
unfolding contains begins_with
contains_tail a m [] h = absurd (ground arith)
contains_tail a m (c ∷ s) h = ground (arith, contains_tail a m s, begins_with-contains m s)

-- A marker starts and ends with no space.
abbrev pub has_solid_start : List ℕ → Bool
has_solid_start [] = false
has_solid_start (a ∷ m) = not (is_space a)

abbrev pub has_solid_end : List ℕ → Bool
has_solid_end [] = false
has_solid_end (a ∷ []) = not (is_space a)
has_solid_end (a ∷ b ∷ m) = has_solid_end (b ∷ m)

space_differs : (a c : ℕ) → is_space a ≡ false → is_space c ≡ true → (a == c) ≡ false
space_differs a c h k = ground (arith, ap is_space)

contains-lstrip_codes :
    (m s : List ℕ) → has_solid_start m ≡ true → contains m (lstrip_codes s) ≡ contains m s
unfolding contains lstrip_codes begins_with
contains-lstrip_codes [] s h = absurd (ground arith)
contains-lstrip_codes (a ∷ m) [] h = refl
contains-lstrip_codes (a ∷ m) (c ∷ s) h =
    ground (arith, contains-lstrip_codes (a ∷ m) s, space_differs a c)

begins_with-nil : (m : List ℕ) → has_solid_end m ≡ true → begins_with m [] ≡ false
unfolding begins_with
begins_with-nil [] h = absurd (ground arith)
begins_with-nil (a ∷ m) h = refl

-- Putting a character before a text that was stripped.
begins_with-push_code :
    (a c : ℕ) (m r : List ℕ)
    → has_solid_end (a ∷ m) ≡ true
    → begins_with (a ∷ m) (push_code c r) ≡ ((a == c) && begins_with m r)
unfolding begins_with push_code
begins_with-push_code a c m (d ∷ r) h = refl
begins_with-push_code a c [] [] h = ground (arith, space_differs a c)
begins_with-push_code a c (b ∷ m) [] h = ground arith

begins_with-rstrip_codes :
    (m s : List ℕ) → has_solid_end m ≡ true → begins_with m (rstrip_codes s) ≡ begins_with m s
unfolding begins_with rstrip_codes
begins_with-rstrip_codes [] s h = absurd (ground arith)
begins_with-rstrip_codes (a ∷ m) [] h = refl
begins_with-rstrip_codes (a ∷ []) (c ∷ s) h = begins_with-push_code a c [] (rstrip_codes s) h
begins_with-rstrip_codes (a ∷ b ∷ m) (c ∷ s) h =
    begins_with-push_code a c (b ∷ m) (rstrip_codes s) h
    ∙ ap (λ x. (a == c) && x) (begins_with-rstrip_codes (b ∷ m) s h)

contains-push_code :
    (c : ℕ) (m r : List ℕ)
    → has_solid_end m ≡ true
    → contains m (push_code c r) ≡ (begins_with m (push_code c r) || contains m r)
unfolding contains push_code
contains-push_code c m (d ∷ r) h = refl
contains-push_code c m [] h = ground (arith, begins_with-nil m h)

contains-rstrip_codes :
    (m s : List ℕ) → has_solid_end m ≡ true → contains m (rstrip_codes s) ≡ contains m s
unfolding contains rstrip_codes
contains-rstrip_codes m [] h = refl
contains-rstrip_codes m (c ∷ s) h =
    contains-push_code c m (rstrip_codes s) h
    ∙ ap₂ ◌||◌ (begins_with-rstrip_codes m (c ∷ s) h) (contains-rstrip_codes m s h)

-- A marker without space around it is in a text exactly if it is in the stripped text.
pub contains-strip_codes :
    (m s : List ℕ)
    → has_solid_start m && has_solid_end m ≡ true
    → contains m (strip_codes s) ≡ contains m s
unfolding strip_codes
contains-strip_codes m s h =
    contains-rstrip_codes m (lstrip_codes s) (ground arith)
    ∙ contains-lstrip_codes m s (ground arith)
