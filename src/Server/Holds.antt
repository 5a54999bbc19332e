-- ===== src/Server/Holds.antt =====
-- Tests on the documents that an action keeps, or leaves true where it is accepted.
use pbxpulse_agent.Prelude.{◌≡◌, refl, Bool, true, false, arith}
use pbxpulse_agent.Server.Store.{State, Result, ok, refuse, Action, bind_result, ◌>>=◌, run_if}
use pbxpulse_agent.Server.Runs.{is_ok}

module _ {D : Type 0} (holds : D → Bool) where
  -- The test holds after the action if it holds before.
  unfoldable pub IsStable : {A : Type 0} → Action D A → Type 0
  IsStable m = (s : State D) → holds s.db ≡ true → holds (m s).1.db ≡ true

  -- The test holds after the action where it is accepted.
  unfoldable pub IsLeaving : {A : Type 0} → Action D A → Type 0
  IsLeaving m = (s : State D) → is_ok (m s).0 ≡ true → holds (m s).1.db ≡ true

  stays_result :
      {A B : Type 0} (r : Result A × State D) (f : A → Action D B)
      → holds r.1.db ≡ true
      → ((a : A) → IsStable (f a))
      → holds (bind_result r f).1.db ≡ true
  unfolding bind_result IsStable
  stays_result (ok a, s) f h k = k a s h
  stays_result (refuse status detail, s) f h k = h

  pub stays_bind :
      {A B : Type 0} (m : Action D A) (f : A → Action D B)
      → IsStable m
      → ((a : A) → IsStable (f a))
      → IsStable (m >>= f)
  unfolding IsStable
  stays_bind m f hm hf s h = stays_result (m s) f (hm s h) hf

  pub stays_pure : {A : Type 0} (f : State D → Result A) → IsStable (λ s. (f s, s))
  unfolding IsStable
  stays_pure f s h = h

  pub stays_run_if : (c : Bool) (m : Action D (Unit {0})) → IsStable m → IsStable (run_if c m)
  unfolding IsStable
  stays_run_if true m h = h
  stays_run_if false m h = λ s e. e

  leaves_then_result :
      {A B : Type 0} (r : Result A × State D) (f : A → Action D B)
      → ((a : A) → IsLeaving (f a))
      → is_ok (bind_result r f).0 ≡ true
      → holds (bind_result r f).1.db ≡ true
  unfolding bind_result IsLeaving is_ok
  leaves_then_result (ok a, s) f k e = k a s e
  leaves_then_result (refuse status detail, s) f k e = absurd (ground arith)

  -- What comes last leaves it true.
  pub leaves_then :
      {A B : Type 0} (m : Action D A) (f : A → Action D B)
      → ((a : A) → IsLeaving (f a))
      → IsLeaving (m >>= f)
  unfolding IsLeaving
  leaves_then m f k s e = leaves_then_result (m s) f k e

  leaves_first_result :
      {A B : Type 0} (r : Result A × State D) (f : A → Action D B)
      → (is_ok r.0 ≡ true → holds r.1.db ≡ true)
      → ((a : A) → IsStable (f a))
      → is_ok (bind_result r f).0 ≡ true
      → holds (bind_result r f).1.db ≡ true
  unfolding bind_result IsStable is_ok
  leaves_first_result (ok a, s) f h k e = k a s (h refl)
  leaves_first_result (refuse status detail, s) f h k e = absurd (ground arith)

  -- What comes first leaves it true, and the rest keeps it.
  pub leaves_first :
      {A B : Type 0} (m : Action D A) (f : A → Action D B)
      → IsLeaving m
      → ((a : A) → IsStable (f a))
      → IsLeaving (m >>= f)
  unfolding IsLeaving
  leaves_first m f h k s e = leaves_first_result (m s) f (h s) k e
