-- ===== src/Server/Calls.antt =====
-- The handlers of push_relay/app.py that register and revoke apps, and the ownership of push tokens.
use pbxpulse_agent.Prelude.{
  ℕ, String, ◌≡◌, refl, ◌∙◌, Bool, true, false, not, Option, none, some, is_some, ◌==◌, eq_iff,
  arith, is_truthy, Bool-cases, inl, inr,
}
use pbxpulse_agent.Json
use pbxpulse_agent.Json.{Json, Fields, str, end, field}
use pbxpulse_agent.Json.Laws.{get-put, has-put}
use pbxpulse_agent.Devices.{fcm_token}
use pbxpulse_agent.Server.Store.{
  Firestore, State, Result, ok, refuse, Action, bind_result, ◌>>=◌, run_if, update_doc, merged,
  fields_or, token_path, pointer_path, device_path, agent_path,
}
use pbxpulse_agent.Server.Paths.{tag, device_path-tag, agent_path-tag}
use pbxpulse_agent.Server.Auth.{Env, Request, authenticate_agent}
use pbxpulse_agent.Server.Registrations.{
  registration, details, given_or, registered_id, optional_key, register_device,
  require_device_capacity, revoke_found, revoke_device, remove_device, revoke_own_device,
  delete_device_registration, release_token, claim_device,
}
use pbxpulse_agent.Server.Tokens.{token_at, owner_at, IsOwned, claimed-IsOwned}
use pbxpulse_agent.Server.Ownership.{IsOwned-but, removed-IsOwned, deleted-IsOwned, noted-IsOwned}

put-fcm_token :
    (d : Fields) (k : String) (v : Json)
    → k == "fcmToken" ≡ false
    → fcm_token (Json.put d k v) ≡ fcm_token d
unfolding fcm_token
put-fcm_token d k v h = simp (has-put, get-put, h)

-- Fields without a token leave the token.
merged-fcm_token :
    (d new : Fields) → Json.has new "fcmToken" ≡ false → fcm_token (merged d new) ≡ fcm_token d
unfolding merged Json.has
merged-fcm_token d end h = refl
merged-fcm_token d (field k v rest) h =
    merged-fcm_token (Json.put d k v) rest (ground (arith, h))
    ∙ put-fcm_token d k v (ground (arith, h))

pub registration-fcm_token :
    (d : Fields) (now : ℕ) (body : Fields) (token platform : String) (rest : Fields)
    → Json.has rest "fcmToken" ≡ false
    → fcm_token (merged d (registration now body token platform rest)) ≡ token
unfolding merged registration
registration-fcm_token d now body token platform rest h =
    merged-fcm_token (Json.put d "fcmToken" (str token)) (details now body platform rest)
      (unfold details Json.has in h)
    ∙ (unfold fcm_token Json.to_text in simp (has-put, get-put))

module _ (fs : Firestore) (env : Env) where
  open fs use {Db, get}

  -- An action keeps the tokens owned, whatever it answers.
  unfoldable pub IsKeeping : {A : Type 0} → Action Db A → Type 0
  IsKeeping m = (s : State Db) → IsOwned fs env s.db → IsOwned fs env (m s).1.db

  keeps_result :
      {A B : Type 0} (r : Result A × State Db) (f : A → Action Db B)
      → IsOwned fs env r.1.db
      → ((a : A) → IsKeeping (f a))
      → IsOwned fs env (bind_result r f).1.db
  unfolding bind_result IsKeeping
  keeps_result (ok a, s) f h k = k a s h
  keeps_result (refuse status detail, s) f h k = h

  pub keeps_bind :
      {A B : Type 0} (m : Action Db A) (f : A → Action Db B)
      → IsKeeping m
      → ((a : A) → IsKeeping (f a))
      → IsKeeping (m >>= f)
  unfolding IsKeeping
  keeps_bind m f hm hf s h = keeps_result (m s) f (hm s h) hf

  keeps_run_if : (c : Bool) (m : Action Db (Unit {0})) → IsKeeping m → IsKeeping (run_if c m)
  unfolding IsKeeping
  keeps_run_if true m hm = hm
  keeps_run_if false m hm = λ s h. h

  -- An action that writes nothing.
  pub keeps_reading : {A : Type 0} (f : State Db → Result A) → IsKeeping (λ s. (f s, s))
  unfolding IsKeeping
  keeps_reading f s h = h

  keeps_note :
      (p : String) (doc : Fields)
      → tag p ≡ b'g'
      → Json.has doc "fcmToken" ≡ false
      → IsKeeping (update_doc fs p doc)
  unfolding IsKeeping update_doc
  keeps_note p doc hp hd s h =
      let document = merged (fields_or (get s.db p)) doc in
      let same : fcm_token document ≡ token_at fs env s.db p =
        unfold token_at in merged-fcm_token (fields_or (get s.db p)) doc hd in
      let kept = noted-IsOwned fs env s.db p document hp same h in
      elim (Bool-cases (is_some (get s.db p))) [ inl e ↦ rw e kept | inr e ↦ rw e h ]

  keeps_authenticate :
      (now : ℕ) (touch : Bool) (id : String) (r : Request)
      → IsKeeping (authenticate_agent env fs now touch id r)
  unfolding authenticate_agent Json.has
  keeps_authenticate now touch id r = keeps_bind _ _ (keeps_reading _) λ agent_id.
      keeps_bind _ _ (keeps_reading _) λ body. keeps_bind _ _ (keeps_reading _) λ found.
        keeps_bind _ _ (keeps_reading _) λ agent.
          keeps_bind _ _
            (keeps_bind _ _ (keeps_bind _ _ (keeps_reading _) λ _. keeps_reading _) λ _.
              keeps_run_if touch _
                (keeps_note (agent_path agent_id) _ (agent_path-tag agent_id) refl))
            λ _. keeps_reading _

  keeps_delete :
      (agent_id device_id : String) (given : Option Fields)
      → IsKeeping (delete_device_registration fs env agent_id device_id given)
  unfolding IsKeeping delete_device_registration release_token bind_result
  keeps_delete agent_id device_id given s h =
      let p = device_path agent_id device_id in
      let tagged = device_path-tag agent_id device_id in
      let token = fcm_token (given_or given (fields_or (get s.db p))) in
      let d = fs.delete s.db p in
      let deleted = deleted-IsOwned fs env s.db p tagged (IsOwned-but fs env p s.db h) in
      elim (Bool-cases (is_truthy token)) [
        | inr e ↦ rw e deleted
        | inl e ↦ elim (Bool-cases (pointer_path (get d (token_path (env.hash token))) == p)) [
          | inr f ↦ rw (e, f) deleted
          | inl f ↦
              let owner : owner_at fs env d (env.hash token) ≡ p =
                unfold owner_at in (eq_iff _ _).0 f in
              rw (e, f) (removed-IsOwned fs env s.db p (env.hash token) tagged h owner)
        ]
      ]

  keeps_claim :
      (now : ℕ) (body : Fields) (token platform path : String) (rest : Fields)
      → tag path ≡ b'g'
      → Json.has rest "fcmToken" ≡ false
      → IsKeeping (claim_device fs env now (registration now body token platform rest) token path)
  unfolding IsKeeping
  keeps_claim now body token platform path rest hp hr s h =
      claimed-IsOwned fs env now (registration now body token platform rest) token path s hp
        (IsOwned-but fs env path s.db h)
        (registration-fcm_token (fields_or (get s.db path)) now body token platform rest hr)

  has-optional_key :
      (site : Json) (key : String)
      → Json.has (field "siteId" site (optional_key key)) "fcmToken" ≡ false
  unfolding Json.has optional_key
  has-optional_key site String.[] = refl
  has-optional_key site (String.◌∷◌ c s) = refl

  keeps_capacity : (agent_id : String) → IsKeeping (require_device_capacity fs env agent_id)
  unfolding require_device_capacity
  keeps_capacity agent_id = keeps_bind {A = ℕ} _ _ (keeps_reading _) λ _. keeps_reading _

  pub keeps_register :
      (now : ℕ) (agent_id : String) (r : Request)
      → IsKeeping (register_device fs env now agent_id r)
  unfolding register_device
  keeps_register now agent_id r = keeps_bind _ _ (keeps_authenticate now true agent_id r) λ found.
      keeps_bind _ _ (keeps_reading _) λ token. keeps_bind _ _ (keeps_reading _) λ known.
        keeps_bind _ _ (keeps_run_if (not known) _ (keeps_capacity agent_id)) λ _.
          keeps_bind _ _ (keeps_reading _) λ platform.
            keeps_bind _ _
              (keeps_bind _ _ (keeps_reading _) λ _.
                keeps_claim now found.0 token platform _ _
                  (device_path-tag agent_id (registered_id fs env found.0 token))
                  (has-optional_key _ _))
              λ _. keeps_reading _

  pub keeps_revoke :
      (now : ℕ) (agent_id : String) (r : Request) → IsKeeping (revoke_device fs env now agent_id r)
  unfolding revoke_device
  keeps_revoke now agent_id r =
      keeps_bind _ _ (keeps_authenticate now true agent_id r)
        λ found. keeps_bind {A = Unit {0}} _ _ (keeps_reading _) λ _. keeps_delete agent_id _ none

  pub keeps_remove :
      (now : ℕ) (agent_id : String) (r : Request) → IsKeeping (remove_device fs env now agent_id r)
  unfolding remove_device
  keeps_remove now agent_id r =
      keeps_bind _ _ (keeps_authenticate now false agent_id r)
        λ found. keeps_bind {A = String} _ _ (keeps_reading _) λ token. keeps_delete agent_id _ none

  keeps_revoke_found :
      (agent_id device_id : String) (r : Request) (o : Option Fields)
      → IsKeeping (revoke_found fs env agent_id device_id r o)
  unfolding revoke_found
  keeps_revoke_found agent_id device_id r none = keeps_reading _
  keeps_revoke_found agent_id device_id r (some device) =
      keeps_bind {A = Unit {0}} _ _ (keeps_reading _)
        λ _. keeps_delete agent_id device_id (some device)

  pub keeps_revoke_own :
      (agent_id device_id : String) (r : Request)
      → IsKeeping (revoke_own_device fs env agent_id device_id r)
  unfolding revoke_own_device
  keeps_revoke_own agent_id device_id r =
      keeps_bind _ _ (keeps_reading _) λ found. keeps_revoke_found agent_id device_id r found
