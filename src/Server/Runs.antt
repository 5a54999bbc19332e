-- ===== src/Server/Runs.antt =====
-- Runs of the calls of push_relay/app.py that register and revoke apps.
use pbxpulse_agent.Prelude.{
  ℕ, String, ◌≡◌, refl, ◌∙◌, ap, sym, Bool, true, false, ◌==◌, eq_iff, arith, is_truthy, Bool-cases,
  inl, inr,
}
use pbxpulse_agent.Json
use pbxpulse_agent.Json.{Json, Fields, str, end, field}
use pbxpulse_agent.Devices.{fcm_token}
use pbxpulse_agent.Server.Store.{
  Firestore, State, Result, ok, refuse, Action, pure, bind_result, ◌>>=◌, ◌>>◌, lift, run_if,
  token_path, pointer_path, device_path, fields_or,
}
use pbxpulse_agent.Server.Paths.{tag, device_path-tag}
use pbxpulse_agent.Server.Auth.{Env, Request, authenticate_relay_device}
use pbxpulse_agent.Server.Registrations.{
  registration, register_device, register_own_device, revoke_device, remove_device,
  revoke_own_device, release_token, claim_device,
}
use pbxpulse_agent.Server.Tokens.{
  owner_at, token_at, IsOwned, IsOwned-owner_at, IsOwnedBut, claimed-IsOwned,
}
use pbxpulse_agent.Server.Ownership.{IsOwned-but, freed-IsOwnedBut}
use pbxpulse_agent.Server.Calls.{
  IsKeeping, registration-fcm_token, keeps_register, keeps_revoke, keeps_remove, keeps_revoke_own,
  keeps_bind, keeps_reading,
}

-- The call was accepted.
unfoldable pub is_ok : {A : Type 0} → Result A → Bool
is_ok (ok a) = true
is_ok (refuse status detail) = false

-- A call with its arguments.
pub data Call : Type 0 where
  registers : ℕ → String → Request → Call
  registers_itself : ℕ → String → String → Request → Call
  revokes : ℕ → String → Request → Call
  removes : ℕ → String → Request → Call
  revokes_itself : String → String → Request → Call

module _ (fs : Firestore) (env : Env) where
  open fs use {Db, get}

  unfoldable pub serve : Call → State Db → State Db
  serve (registers now agent_id r) s = (register_device fs env now agent_id r s).1
  serve (registers_itself now agent_id device_id r) s =
      (register_own_device fs env now agent_id device_id r s).1
  serve (revokes now agent_id r) s = (revoke_device fs env now agent_id r s).1
  serve (removes now agent_id r) s = (remove_device fs env now agent_id r s).1
  serve (revokes_itself agent_id device_id r) s =
      (revoke_own_device fs env agent_id device_id r s).1

  -- An app that registers itself is accepted; other calls may be refused.
  unfoldable pub is_accepted : Call → State Db → Bool
  is_accepted (registers_itself now agent_id device_id r) s =
      is_ok (register_own_device fs env now agent_id device_id r s).0
  is_accepted (registers now agent_id r) s = true
  is_accepted (revokes now agent_id r) s = true
  is_accepted (removes now agent_id r) s = true
  is_accepted (revokes_itself agent_id device_id r) s = true

  pub data Reaches (start : State Db) : State Db → Type 0 where
    done : Reaches start start
    then_serves :
        (s : State Db)
        → Reaches start s
        → (c : Call) → is_accepted c s ≡ true
        → Reaches start (serve c s)

  -- Where it is accepted, an action keeps the tokens owned.
  unfoldable pub IsEnding : {A : Type 0} → Action Db A → Type 0
  IsEnding m =
      (s : State Db) → IsOwned fs env s.db → is_ok (m s).0 ≡ true → IsOwned fs env (m s).1.db

  ends_result :
      {A B : Type 0} (r : Result A) (s : State Db) (f : A → Action Db B)
      → IsOwned fs env s.db
      → ((a : A) → IsEnding (f a))
      → is_ok (bind_result (r, s) f).0 ≡ true
      → IsOwned fs env (bind_result (r, s) f).1.db
  unfolding IsEnding bind_result is_ok
  ends_result (ok a) s f h k e = k a s h e
  ends_result (refuse status detail) s f h k e = h

  ends_bind :
      {A B : Type 0} (m : Action Db A) (f : A → Action Db B)
      → IsKeeping fs env m
      → ((a : A) → IsEnding (f a))
      → IsEnding (m >>= f)
  unfolding IsEnding IsKeeping
  ends_bind m f hm k s h e = ends_result (m s).0 (m s).1 f (hm s h) k e

  -- What follows puts the one path right.
  ends_but :
      {A B : Type 0} (path : String) (r : Result A) (s : State Db) (f : A → Action Db B)
      → IsOwnedBut fs env path s.db
      → ((a : A) → is_ok (f a s).0 ≡ true → IsOwned fs env (f a s).1.db)
      → is_ok (bind_result (r, s) f).0 ≡ true
      → IsOwned fs env (bind_result (r, s) f).1.db
  unfolding bind_result is_ok
  ends_but path (ok a) s f h k e = k a e
  ends_but path (refuse status detail) s f h k e = absurd (ground arith)

  released-IsOwnedBut :
      (c : Bool) (token path : String) (s : State Db)
      → IsOwned fs env s.db
      → IsOwnedBut fs env path (run_if c (release_token fs env token path) s).1.db
  unfolding release_token bind_result
  released-IsOwnedBut false token path s h = IsOwned-but fs env path s.db h
  released-IsOwnedBut true token path s h =
      elim (Bool-cases (pointer_path (get s.db (token_path (env.hash token))) == path)) [
        | inr f ↦ rw f (IsOwned-but fs env path s.db h)
        | inl f ↦
            let owner : owner_at fs env s.db (env.hash token) ≡ path =
              unfold owner_at in (eq_iff _ _).0 f in
            rw f (
              freed-IsOwnedBut fs env s.db path (env.hash token) owner
                (IsOwned-but fs env path s.db h))
      ]

  after_pure :
      {A B : Type 0} (r : Result A × State Db) (b : B) → (bind_result r (λ _. pure b)).1 ≡ r.1
  unfolding bind_result
  after_pure (ok a, s) b = refl
  after_pure (refuse status detail, s) b = refl

  claim_after :
      (now : ℕ) (body : Fields) (token path device_id : String) (platform : Result String)
      (s : State Db)
      → tag path ≡ b'g'
      → IsOwnedBut fs env path s.db
      → is_ok
          (bind_result
            (platform, s)
            λ text.
              claim_device fs env now (registration now body token text end) token path
              >> pure device_id).0
        ≡ true
      → IsOwned fs env
          (bind_result
            (platform, s)
            λ text.
              claim_device fs env now (registration now body token text end) token path
              >> pure device_id).1.db
  unfolding bind_result is_ok
  claim_after now body token path device_id (refuse status detail) s hp h e = absurd (ground arith)
  claim_after now body token path device_id (ok text) s hp h e =
      let doc = registration now body token text end in
      rw (after_pure (claim_device fs env now doc token path s) device_id) (
        claimed-IsOwned fs env now doc token path s hp h (
          registration-fcm_token (fields_or (get s.db path)) now body token text end
            (unfold Json.has in refl)))

  claim_own :
      (c : Bool) (now : ℕ) (body : Fields) (previous token path device_id : String)
      (platform : Result String)
      → tag path ≡ b'g'
      → IsEnding (
          run_if c (release_token fs env previous path)
          >> (lift platform >>= λ text.
              claim_device fs env now (registration now body token text end) token path
              >> pure device_id))
  unfolding IsEnding
  claim_own c now body previous token path device_id platform hp s h e =
      let released = run_if c (release_token fs env previous path) s in
      let but = released-IsOwnedBut c previous path s h in
      ends_but path released.0 released.1 _ but
        (λ _ e'. claim_after now body token path device_id platform released.1 hp but e') e

  keeps_relay_device :
      (now : ℕ) (agent_id device_id : String) (r : Request)
      → IsKeeping fs env (authenticate_relay_device env fs now agent_id device_id r)
  unfolding authenticate_relay_device
  keeps_relay_device now agent_id device_id r =
      keeps_bind fs env _ _ (keeps_reading fs env _) λ agent_id'.
        keeps_bind fs env _ _ (keeps_reading fs env _) λ device_id'.
          keeps_bind fs env _ _ (keeps_reading fs env _) λ found.
            keeps_bind fs env _ _ (keeps_reading fs env _) λ device.
              keeps_bind fs env {A = Unit {0}} _ _ (keeps_reading fs env _)
                λ _. keeps_reading fs env _

  -- An app's own registration, where it is accepted.
  ends_own :
      (now : ℕ) (agent_id device_id : String) (r : Request)
      → IsEnding (register_own_device fs env now agent_id device_id r)
  unfolding register_own_device
  ends_own now agent_id device_id r =
      ends_bind _ _ (keeps_relay_device now agent_id device_id r) λ found.
        ends_bind _ _ (keeps_reading fs env _) λ body.
          ends_bind _ _ (keeps_reading fs env _) λ token.
            claim_own _ now body (fcm_token found.2) token (device_path found.0 found.1) device_id _
              (device_path-tag found.0 found.1)

  pub serve-IsOwned :
      (c : Call) (s : State Db)
      → is_accepted c s ≡ true
      → IsOwned fs env s.db
      → IsOwned fs env (serve c s).db
  unfolding serve is_accepted IsKeeping IsEnding
  serve-IsOwned (registers now agent_id r) s a h = keeps_register fs env now agent_id r s h
  serve-IsOwned (registers_itself now agent_id device_id r) s a h =
      ends_own now agent_id device_id r s h a
  serve-IsOwned (revokes now agent_id r) s a h = keeps_revoke fs env now agent_id r s h
  serve-IsOwned (removes now agent_id r) s a h = keeps_remove fs env now agent_id r s h
  serve-IsOwned (revokes_itself agent_id device_id r) s a h =
      keeps_revoke_own fs env agent_id device_id r s h

  Reaches-IsOwned :
      (start s : State Db) → Reaches start s → IsOwned fs env start.db → IsOwned fs env s.db
  Reaches-IsOwned start s done h = h
  Reaches-IsOwned start _ (then_serves s run c a) h =
      serve-IsOwned c s a (Reaches-IsOwned start s run h)

  -- After a run of registrations and revocations from a store where each token has one device, two
  -- documents of Agents' devices with the same token, which is not empty, are the same document.
  -- Every call of `register_own_device` in the run is one that the server accepts; the other calls may
  -- be refused.
  pub Reaches-token_at :
      (start s : State Db) (p q : String)
      → Reaches start s
      → IsOwned fs env start.db
      → tag p ≡ b'g'
      → tag q ≡ b'g'
      → is_truthy (token_at fs env s.db p) ≡ true
      → token_at fs env s.db p ≡ token_at fs env s.db q
      → p ≡ q
  Reaches-token_at start s p q run h hp hq ht e =
      let owned = Reaches-IsOwned start s run h in
      sym (IsOwned-owner_at fs env s.db p owned hp ht)
      ∙ ap (λ t. owner_at fs env s.db (env.hash t)) e
      ∙ IsOwned-owner_at fs env s.db q owned hq (sym (ap (λ t. is_truthy t) e) ∙ ht)
