-- ===== src/Server/Paths.antt =====
-- The collections of push_relay/app.py are told apart by the second letter of their names.
use Prim.Native.Char.{code}
use text.Mathlib.TextLemmas.{cons-append}
use pbxpulse_agent.Prelude.{
  ℕ, String, ◌≡◌, refl, ap, true, false, ◌==◌, eq_iff, nat_eq, concat, is_truthy, arith, Bool-cases,
  inl, inr,
}
use pbxpulse_agent.Server.Store.{agent_path, device_path, token_path}

unfoldable pub tag : String → ℕ
tag String.[] = 0
tag (String.◌∷◌ c String.[]) = 0
tag (String.◌∷◌ c (String.◌∷◌ d s)) = code d

pub device_path-tag : (a d : String) → tag (device_path a d) ≡ b'g'
unfolding tag concat
device_path-tag a d = rw (cons-append, cons-append)

pub token_path-tag : (g : String) → tag (token_path g) ≡ b'e'
unfolding tag concat
token_path-tag g = rw (cons-append, cons-append)

pub agent_path-tag : (a : String) → tag (agent_path a) ≡ b'g'
unfolding tag concat
agent_path-tag a = rw (cons-append, cons-append)

pub tag-is_truthy : (p : String) → tag p ≡ b'g' → is_truthy p ≡ true
unfolding tag
tag-is_truthy String.[] h = absurd (ground arith)
tag-is_truthy (String.◌∷◌ c s) h = refl

-- Paths with different tags are different.
pub tag_differ : (p q : String) → nat_eq (tag p) (tag q) ≡ false → p == q ≡ false
tag_differ p q h = elim (Bool-cases (p == q)) [
  | inl e ↦ absurd (ground (arith, ap tag ((eq_iff p q).0 e)))
  | inr e ↦ e
]

-- The pointer of a token is no document of an Agent.
pub token_path-differs : (g p : String) → tag p ≡ b'g' → token_path g == p ≡ false
token_path-differs g p h = tag_differ (token_path g) p (rw (token_path-tag g, h) refl)

pub differs-token_path : (g p : String) → tag p ≡ b'g' → p == token_path g ≡ false
differs-token_path g p h = tag_differ p (token_path g) (rw (token_path-tag g, h) refl)
