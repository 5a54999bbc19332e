-- ===== src/Server/Refusals.antt =====
-- Requests that push_relay/app.py refuses without a change: those with a forged signature, and those
-- that repeat a nonce.
use pbxpulse_agent.Prelude.{
  ℕ, String, ◌≡◌, refl, Bool, true, false, not, Option, none, some, is_some, List, arith,
  Bool-cases, inl, inr,
}
use pbxpulse_agent.Json
use pbxpulse_agent.Json.{Json, Fields}
use pbxpulse_agent.Server.Store.{
  Firestore, State, Message, Result, ok, refuse, Action, bind_result, ◌>>=◌, create_doc, raise_if,
  lift, gets, agent_path,
}
use pbxpulse_agent.Server.Auth.{
  Env, Request, verifies, signed_message, authenticate_agent, check_agent,
  require_replay_protected_signature, nonce_path,
}
use pbxpulse_agent.Server.Texts.{bounded_identifier}
use pbxpulse_agent.Server.Registrations.{register_device, revoke_device, remove_device}
use pbxpulse_agent.Server.Exchange.{heartbeat, secure_exchange}
use pbxpulse_agent.Server.Snapshots.{publish_secure_snapshots, list_devices}
use pbxpulse_agent.Server.Events.{Delivery, publish_event}
use pbxpulse_agent.Server.Runs.{is_ok}

module _ {D : Type 0} where
  -- The action is refused and nothing has changed.
  unfoldable pub IsRefused : {A : Type 0} → State D → Action D A → Type 0
  IsRefused s m = is_ok (m s).0 ≡ false × (m s).1 ≡ s

  -- The action only reads.
  unfoldable pub IsReading : {A : Type 0} → State D → Action D A → Type 0
  IsReading s m = (m s).1 ≡ s

  refuses_result :
      {A B : Type 0} (s : State D) (r : Result A × State D) (f : A → Action D B)
      → is_ok r.0 ≡ false
      → r.1 ≡ s
      → is_ok (bind_result r f).0 ≡ false × (bind_result r f).1 ≡ s
  unfolding bind_result is_ok
  refuses_result s (ok a, s') f h e = absurd (ground arith)
  refuses_result s (refuse status detail, s') f h e = (refl, e)

  -- What is refused first is refused.
  pub refuses_first :
      {A B : Type 0} (s : State D) (m : Action D A) (f : A → Action D B)
      → IsRefused s m
      → IsRefused s (m >>= f)
  unfolding IsRefused
  refuses_first s m f h = refuses_result s (m s) f h.0 h.1

  then_result :
      {A B : Type 0} (s : State D) (r : Result A × State D) (f : A → Action D B)
      → r.1 ≡ s
      → ((a : A) → IsRefused s (f a))
      → is_ok (bind_result r f).0 ≡ false × (bind_result r f).1 ≡ s
  unfolding bind_result is_ok IsRefused
  then_result s (ok a, s') f e k = rw e (k a)
  then_result s (refuse status detail, s') f e k = (refl, e)

  -- After an action that reads, what comes next is refused.
  pub refuses_then :
      {A B : Type 0} (s : State D) (m : Action D A) (f : A → Action D B)
      → IsReading s m
      → ((a : A) → IsRefused s (f a))
      → IsRefused s (m >>= f)
  unfolding IsRefused IsReading
  refuses_then s m f h k = then_result s (m s) f h k

  reads_result :
      {A B : Type 0} (s : State D) (r : Result A × State D) (f : A → Action D B)
      → r.1 ≡ s
      → ((a : A) → IsReading s (f a))
      → (bind_result r f).1 ≡ s
  unfolding bind_result IsReading
  reads_result s (ok a, s') f e k = rw e (k a)
  reads_result s (refuse status detail, s') f e k = e

  reads_bind :
      {A B : Type 0} (s : State D) (m : Action D A) (f : A → Action D B)
      → IsReading s m
      → ((a : A) → IsReading s (f a))
      → IsReading s (m >>= f)
  unfolding IsReading
  reads_bind s m f h k = reads_result s (m s) f h k

  pub reads_pure : {A : Type 0} (s : State D) (f : State D → Result A) → IsReading s (λ t. (f t, t))
  unfolding IsReading
  reads_pure s f = refl

  -- What follows a result is known to follow the value that it has.
  refuses_lift :
      {A B : Type 0} (s : State D) (v : Result A) (f : A → Action D B)
      → ((a : A) → v ≡ ok a → IsRefused s (f a))
      → IsRefused s (lift v >>= f)
  unfolding IsRefused bind_result is_ok
  refuses_lift s (ok a) f h = h a refl
  refuses_lift s (refuse status detail) f h = (refl, refl)

  refuses_gets :
      {A B : Type 0} (s : State D) (g : D → A) (f : A → Action D B)
      → IsRefused s (f (g s.db))
      → IsRefused s (gets g >>= f)
  unfolding IsRefused bind_result
  refuses_gets s g f h = h

  refuses_raise :
      (s : State D) (c : Bool) (status : ℕ) (detail : String)
      → c ≡ true
      → IsRefused s (raise_if c status detail)
  unfolding IsRefused is_ok
  refuses_raise s c status detail h = rw h (refl, refl)

module _ (fs : Firestore) (env : Env) (fcm : List Message → Message → Option (List Delivery)) where
  open fs use {Db, get}

  reads_authenticate :
      (now : ℕ) (id : String) (r : Request) (s : State Db)
      → IsReading s (authenticate_agent env fs now false id r)
  unfolding authenticate_agent
  reads_authenticate now id r s = reads_bind s _ _ (reads_pure s _) λ agent_id.
      reads_bind s _ _ (reads_pure s _) λ body. reads_bind s _ _ (reads_pure s _) λ found.
        reads_bind s _ _ (reads_pure s _) λ agent.
          reads_bind s _ _
            (reads_bind s _ _ (reads_bind s _ _ (reads_pure s _) λ _. reads_pure s _)
              λ _. reads_pure s _)
            λ _. reads_pure s _

  refuses_created :
      (p : String) (doc : Fields) (s : State Db)
      → is_some (get s.db p) ≡ true
      → IsRefused s
          (create_doc fs p doc >>= λ new. raise_if (not new) 409 "Replayed secure Agent request")
  unfolding IsRefused create_doc bind_result is_ok
  refuses_created p doc s h = simp (h) (refl, refl)

  pub refuses_nonce :
      (now : ℕ) (agent_id : String) (agent : Fields) (r : Request) (s : State Db)
      → is_some (get s.db (nonce_path env fs agent_id r.nonce)) ≡ true
      → IsRefused s (require_replay_protected_signature env fs now agent_id agent r)
  unfolding require_replay_protected_signature
  refuses_nonce now agent_id agent r s h =
      refuses_then s _ _ (reads_bind s _ _ (reads_pure s _) λ _. reads_pure s _)
        (λ _. refuses_created _ _ s h)

  check_agent_lem : (o : Option Fields) (agent : Fields) → check_agent o ≡ ok agent → o ≡ some agent
  unfolding check_agent
  check_agent_lem none agent h = absurd (ground arith)
  check_agent_lem (some d) agent h = elim (Bool-cases (Json.truthy (Json.get d "revoked"))) [
    | inl e ↦ absurd (ground arith)
    | inr e ↦ ground arith
  ]

  -- The signature is not that of the request by the key that is stored for the Agent.
  abbrev pub IsForged : String → Request → State Db → Type 0
  IsForged id r s =
      (agent_id : String) (agent : Fields)
      → bounded_identifier (Json.str id) "agentId" ≡ ok agent_id
      → get s.db (agent_path agent_id) ≡ some agent
      → verifies env (Json.get agent "publicKey") r.signature (signed_message r) ≡ false

  refuses_forged :
      (now : ℕ) (touch : Bool) (id : String) (r : Request) (s : State Db)
      → IsForged id r s
      → IsRefused s (authenticate_agent env fs now touch id r)
  unfolding authenticate_agent
  refuses_forged now touch id r s h =
      refuses_lift s (bounded_identifier (Json.str id) "agentId") _ λ agent_id is_id.
        refuses_then s _ _ (reads_pure s _) λ body. refuses_gets s _ _ (
          refuses_lift s (check_agent (get s.db (agent_path agent_id))) _ λ agent is_agent.
            refuses_first s _ _ (
              refuses_first s _ _ (
                refuses_then s _ _ (reads_pure s _) λ _.
                  refuses_raise s
                    (not (verifies env (Json.get agent "publicKey") r.signature (signed_message r)))
                    _ _ (rw (h agent_id agent is_id (check_agent_lem _ agent is_agent)) refl))))

  -- A request whose signature does not verify under the key that the store has for the Agent is
  -- refused by every call of an Agent, without a change, whatever other key it verifies under: by
  -- registration, revocation and removal of an app, the list of apps, the heartbeat, the exchange,
  -- the publication of snapshots, and the publication of an event.
  pub forged_requests :
      (now tick : ℕ) (id : String) (r : Request) (s : State Db)
      → IsForged id r s
      → IsRefused s (register_device fs env now id r)
        × IsRefused s (revoke_device fs env now id r)
        × IsRefused s (remove_device fs env now id r)
        × IsRefused s (list_devices fs env now id r)
        × IsRefused s (heartbeat fs env fcm now id r)
        × IsRefused s (secure_exchange fs env fcm now id r)
        × IsRefused s (publish_secure_snapshots fs env now id r)
        × IsRefused s (publish_event fs env fcm now tick id r)
  unfolding register_device revoke_device remove_device list_devices heartbeat secure_exchange
      publish_secure_snapshots publish_event
  forged_requests now tick id r s h =
      let touching = refuses_forged now true id r s h in
      let plain = refuses_forged now false id r s h in
      (
        refuses_first s _ _ touching,
        refuses_first s _ _ touching,
        refuses_first s _ _ plain,
        refuses_first s _ _ plain,
        refuses_first s _ _ plain,
        refuses_first s _ _ plain,
        refuses_first s _ _ plain,
        refuses_first s _ _ plain,
      )

  -- A request of `secure_exchange` or `publish_secure_snapshots` whose nonce the Agent has used is
  -- refused without a change, whatever else it holds.
  pub replayed_requests :
      (now : ℕ) (id : String) (r : Request) (s : State Db)
      → is_some (get s.db (nonce_path env fs id r.nonce)) ≡ true
      → IsRefused s (secure_exchange fs env fcm now id r)
        × IsRefused s (publish_secure_snapshots fs env now id r)
  unfolding secure_exchange publish_secure_snapshots
  replayed_requests now id r s h = (
    refuses_then s _ _ (reads_authenticate now id r s)
        λ found. refuses_first s _ _ (refuses_first s _ _ (refuses_nonce now id found.1 r s h)),
    refuses_then s _ _ (reads_authenticate now id r s)
        λ found. refuses_first s _ _ (refuses_nonce now id found.1 r s h),
  )
