-- ===== src/Server/Replay.antt =====
-- The nonces of `secure_exchange` of push_relay/app.py: an exchange only adds documents, so the nonce
-- of an accepted one stays.
use pbxpulse_agent.Prelude.{
  ℕ, String, ◌≡◌, refl, Bool, true, not, Option, none, some, is_some, is_truthy, List, [], ◌∷◌,
  ◌==◌, eq_iff, Bool-cases, inl, inr,
}
use pbxpulse_agent.Json
use pbxpulse_agent.Json.{Json, Fields, Items, nil, cons, null, bool, num, str, arr, obj}
use pbxpulse_agent.Server.Store.{
  Firestore, State, Message, Result, bind_result, ◌>>=◌, create_doc, update_doc, merge_doc,
  raise_if, fields_or, merged,
}
use pbxpulse_agent.Server.Usage.{
  UsageUpdate, with_usage, archive_usage, usage_update, update_counted, is_archivable,
}
use pbxpulse_agent.Server.Auth.{Env, Request, require_replay_protected_signature, nonce_path}
use pbxpulse_agent.Server.Texts.{optional_identifier}
use pbxpulse_agent.Server.Exchange.{
  command_path, response_record, record_responses, mark_command, deliver_commands, exchange,
  secure_exchange,
}
use pbxpulse_agent.Server.Events.{Delivery}
use pbxpulse_agent.Server.Runs.{is_ok}
use pbxpulse_agent.Server.Holds.{
  IsStable, IsLeaving, stays_bind, stays_pure, stays_run_if, leaves_then, leaves_first,
}
use pbxpulse_agent.Server.Refusals.{IsRefused, replayed_requests}

module _ (fs : Firestore) where
  open fs use {Db, get}

  -- There is a document at the path.
  abbrev there : String → Db → Bool
  there p d = is_some (get d p)

  set-is_some :
      (d : Db) (q p : String) (doc : Fields)
      → is_some (get d p) ≡ true
      → is_some (get (fs.set d q doc) p) ≡ true
  set-is_some d q p doc h =
      rw fs.get-set (elim (Bool-cases (q == p)) [ inl e ↦ rw e refl | inr e ↦ rw e h ])

  -- A write of a document.
  stays_set :
      {A : Type 0} (p q : String) (f : State Db → Result A) (doc : Db → Fields)
      → IsStable (there p) (λ s. (f s, record s { db = fs.set s.db q (doc s.db) }))
  unfolding IsStable
  stays_set p q f doc s h = set-is_some s.db q p (doc s.db) h

  stays_update : (p q : String) (doc : Fields) → IsStable (there p) (update_doc fs q doc)
  unfolding IsStable update_doc
  stays_update p q doc s h = elim (Bool-cases (is_some (get s.db q))) [
    | inl e ↦ rw e (set-is_some s.db q p (merged (fields_or (get s.db q)) doc) h)
    | inr e ↦ rw e h
  ]

  stays_counted :
      (hash : String → String) (date : ℕ → String) (is_date : String → Bool) (p q : String)
      (doc : Fields) (u : UsageUpdate)
      → IsStable (there p) (update_counted fs hash date is_date q doc u)
  unfolding IsStable update_counted
  stays_counted hash date is_date p q doc u s h = elim (Bool-cases (is_some (get s.db q))) [
    | inl e ↦ rw e (set-is_some s.db q p (with_usage u (merged (fields_or (get s.db q)) doc)) h)
    | inr e ↦ rw e h
  ]

  stays_archive :
      (hash : String → String) (date : ℕ → String) (is_date : String → Bool) (p q : String)
      (now : ℕ) (doc : Fields) (kind id : String)
      → IsStable (there p) (archive_usage fs hash date is_date now q doc kind id)
  unfolding IsStable archive_usage bind_result
  stays_archive hash date is_date p q now doc kind id s h =
      elim (Bool-cases (is_archivable is_date doc (date now))) [
        | inl e ↦ rw e (unfold IsStable in stays_update p q _ _ (set-is_some s.db _ p _ h))
        | inr e ↦ rw e h
      ]

  stays_usage :
      (hash : String → String) (date : ℕ → String) (is_date : String → Bool) (p q : String)
      (now : ℕ) (doc : Fields) (kind id : String) (l : List (String × ℕ))
      → IsStable (there p) (usage_update fs hash date is_date now q doc kind id l)
  unfolding usage_update
  stays_usage hash date is_date p q now doc kind id l =
      stays_bind (there p) _ _ (stays_archive hash date is_date p q now doc kind id)
        λ _. stays_pure (there p) _

module _ (fs : Firestore) (env : Env) (fcm : List Message → Message → Option (List Delivery)) where
  open fs use {Db, get}

  stays_responses :
      (p : String) (now : ℕ) (agent_id : String) (l : Items)
      → IsStable (there fs p) (record_responses fs env fcm now agent_id l)
  unfolding record_responses
  stays_responses p now agent_id nil = stays_pure (there fs p) _
  stays_responses p now agent_id (cons (obj d) l) =
      let id = optional_identifier (Json.get d "id") in
      let q = command_path agent_id id in
      stays_bind (there fs p) _ _
        (stays_run_if (there fs p) (is_truthy id) (merge_doc fs q (response_record now d))
          (stays_set fs p q _ (λ db. merged (fields_or (get db q)) (response_record now d))))
        λ _. stays_responses p now agent_id l
  stays_responses p now agent_id (cons null l) = stays_responses p now agent_id l
  stays_responses p now agent_id (cons (bool b) l) = stays_responses p now agent_id l
  stays_responses p now agent_id (cons (num n) l) = stays_responses p now agent_id l
  stays_responses p now agent_id (cons (str s) l) = stays_responses p now agent_id l
  stays_responses p now agent_id (cons (arr x) l) = stays_responses p now agent_id l

  stays_mark :
      (p q : String) (o : Option Fields) → IsStable (there fs p) (mark_command fs env fcm q o)
  unfolding mark_command
  stays_mark p q none = stays_pure (there fs p) _
  stays_mark p q (some doc) = stays_set fs p q _ (λ db. merged (fields_or (get db q)) doc)

  stays_deliver :
      (p : String) (now : ℕ) (agent_id session_id : String) (l : List (String × Fields))
      → IsStable (there fs p) (deliver_commands fs env fcm now agent_id session_id l)
  unfolding deliver_commands
  stays_deliver p now agent_id session_id [] = stays_pure (there fs p) _
  stays_deliver p now agent_id session_id ((id, command) ∷ l) =
      stays_bind (there fs p) _ _ (stays_mark p _ _) λ _.
        stays_bind (there fs p) _ _ (stays_deliver p now agent_id session_id l)
          λ rest. stays_pure (there fs p) _

  stays_exchange :
      (p : String) (now : ℕ) (agent_id : String) (agent : Fields) (session_id : String)
      (capabilities responses : Items)
      → IsStable
          (there fs p)
          (exchange fs env fcm now agent_id agent session_id capabilities responses)
  unfolding exchange
  stays_exchange p now agent_id agent session_id capabilities responses =
      stays_bind (there fs p) _ _
        (stays_usage fs env.hash env.date env.is_date p _ now agent "agent" agent_id _)
        λ usage.
          stays_bind (there fs p) _ _
            (stays_bind (there fs p) _ _
              (stays_counted fs env.hash env.date env.is_date p _ _ usage)
              λ _. stays_responses p now agent_id responses)
            λ _.
              stays_bind (there fs p) _ _ (stays_pure (there fs p) _)
                λ queued. stays_deliver p now agent_id session_id queued

  created-exists :
      (p : String) (doc : Fields) (s : State Db)
      → is_some (
          get
            ((create_doc fs p doc >>= λ new. raise_if (not new) 409 "Replayed secure Agent request")
              s).1.db
            p)
        ≡ true
  unfolding create_doc bind_result
  created-exists p doc s = elim (Bool-cases (is_some (get s.db p))) [
    | inl e ↦ rw e e
    | inr e ↦ rw (e, fs.get-set s.db p doc p, (eq_iff p p).1 refl) refl
  ]

  leaves_nonce :
      (now : ℕ) (agent_id : String) (agent : Fields) (r : Request)
      → IsLeaving
          (there fs (nonce_path env fs agent_id r.nonce))
          (require_replay_protected_signature env fs now agent_id agent r)
  unfolding require_replay_protected_signature IsLeaving
  leaves_nonce now agent_id agent r =
      leaves_then (there fs (nonce_path env fs agent_id r.nonce)) _ _ λ _ s e. created-exists _ _ s

  leaves_exchange :
      (now : ℕ) (id : String) (r : Request)
      → IsLeaving (there fs (nonce_path env fs id r.nonce)) (secure_exchange fs env fcm now id r)
  unfolding secure_exchange
  leaves_exchange now id r =
      let p = nonce_path env fs id r.nonce in
      leaves_then (there fs p) _ _ λ found.
        leaves_first (there fs p) _ _
          (leaves_first (there fs p) _ _ (leaves_nonce now id found.1 r)
            λ _. stays_pure (there fs p) _)
          λ _. stays_bind (there fs p) _ _ (stays_pure (there fs p) _) λ session_id.
            stays_bind (there fs p) _ _ (stays_pure (there fs p) _) λ capabilities.
              stays_bind (there fs p) _ _ (stays_pure (there fs p) _) λ responses.
                stays_bind (there fs p) _ _ (stays_pure (there fs p) _)
                  λ safe. stays_exchange p now id found.1 session_id safe responses

  -- After an exchange was accepted, an exchange with the same nonce, at whatever time and with
  -- whatever body, is refused and changes nothing.
  pub secure_exchange_twice :
      (now now' : ℕ) (id : String) (r r' : Request) (s : State Db)
      → r'.nonce ≡ r.nonce
      → is_ok (secure_exchange fs env fcm now id r s).0 ≡ true
      → IsRefused (secure_exchange fs env fcm now id r s).1 (secure_exchange fs env fcm now' id r')
  unfolding IsLeaving
  secure_exchange_twice now now' id r r' s h e =
      let left = leaves_exchange now id r s e in
      (replayed_requests fs env fcm now' id r' (secure_exchange fs env fcm now id r s).1
        (rw h left)).0
