-- ===== src/Server/Claims.antt =====
-- An activation of push_relay/app.py is claimed once.
use text.Mathlib.TextLemmas.{cons-append}
use pbxpulse_agent.Prelude.{
  ℕ, String, ◌≡◌, refl, ◌∙◌, Bool, true, false, Option, none, some, is_some, ◌==◌, eq_iff, nat_eq,
  arith, concat, Bool-cases, inl, inr,
}
use pbxpulse_agent.Json
use pbxpulse_agent.Json.{Json, Fields, str, end, field}
use pbxpulse_agent.Json.Laws.{get-put}
use pbxpulse_agent.Server.Store.{
  Firestore, State, Result, ok, refuse, Action, bind_result, ◌>>=◌, gets, lift, modify, create_doc,
  update_doc, merged, time, device_path,
}
use pbxpulse_agent.Server.Paths.{tag, device_path-tag, tag_differ}
use pbxpulse_agent.Server.Auth.{Env, Request}
use pbxpulse_agent.Server.Registrations.{require_device_capacity}
use pbxpulse_agent.Server.Activations.{
  Found, Secrets, activation_path, ticket_path, is_claimable, create_relay_device, check_activation,
  claim_with, claim_existing, claim_new, claim_found, claim_activation, write_agent, write_ticket,
}
use pbxpulse_agent.Server.Runs.{is_ok}
use pbxpulse_agent.Server.Holds.{
  IsStable, IsLeaving, stays_bind, stays_pure, leaves_then, leaves_first,
}
use pbxpulse_agent.Server.Refusals.{IsRefused, refuses_then, reads_pure}

activation_path-tag : (id : String) → tag (activation_path id) ≡ b'c'
unfolding tag activation_path concat
activation_path-tag id = rw (cons-append, cons-append)

ticket_path-differs : (t id : String) → ticket_path t == activation_path id ≡ false
unfolding tag ticket_path concat
ticket_path-differs t id =
    tag_differ (ticket_path t) (activation_path id)
      (rw (activation_path-tag id, cons-append, cons-append) refl)

-- An activation that is claimed.
unfoldable pub is_used_up : Option Fields → Bool
is_used_up none = false
is_used_up (some activation) = Json.truthy (Json.get activation "claimedAt")

module _ (fs : Firestore) (env : Env) (agent_by_key : fs.Db → Json → Found) where
  open fs use {Db, get}

  -- The activation is claimed.
  abbrev used : String → Db → Bool
  used id d = is_used_up (get d (activation_path id))

  check_activation-used :
      (now : ℕ) (digest : String) (o : Option Fields)
      → is_used_up o ≡ true
      → is_ok (check_activation fs env agent_by_key now digest o) ≡ false
  unfolding is_used_up check_activation is_claimable is_ok
  check_activation-used now digest none h = refl
  check_activation-used now digest (some activation) h = rw h (ground arith)

  -- Another document is written.
  used-set :
      (id q : String) (doc : Fields) (d : Db)
      → q == activation_path id ≡ false
      → used id (fs.set d q doc) ≡ used id d
  used-set id q doc d h = rw (fs.get-set, h) refl

  stays_create :
      (id q : String) (doc : Fields)
      → nat_eq (tag q) b'c' ≡ false
      → IsStable (used id) (create_doc fs q doc)
  unfolding IsStable create_doc
  stays_create id q doc hq s h = elim (Bool-cases (is_some (get s.db q))) [
    | inl e ↦ rw e h
    | inr e ↦ rw e (
        used-set id q doc s.db (tag_differ q (activation_path id) (rw (activation_path-tag id) hq))
        ∙ h)
  ]

  stays_device :
      (id : String) (now : ℕ) (agent_id site_id device_id access_token key : String)
      → IsStable
          (used id)
          (create_relay_device fs env agent_by_key now agent_id site_id device_id access_token key)
  unfolding create_relay_device require_device_capacity
  stays_device id now agent_id site_id device_id access_token key =
      stays_bind (used id) _ _
        (stays_bind (used id) {A = ℕ} _ _ (stays_pure (used id) _) λ _. stays_pure (used id) _)
        λ _.
          stays_bind (used id) _ _
            (stays_create id (device_path agent_id device_id) _
              (rw (device_path-tag agent_id device_id) refl))
            λ _. stays_pure (used id) _

  stays_claim_with :
      (id : String) (now : ℕ) (x : Secrets) (key agent_id site_id : String)
      → IsStable (used id) (claim_with fs env agent_by_key now x key agent_id site_id)
  unfolding claim_with
  stays_claim_with id now x key agent_id site_id =
      stays_bind (used id) _ _ (stays_device id now agent_id site_id x.device_id x.access_token key)
        λ _. stays_pure (used id) _

  leaves_update :
      (id : String) (now : ℕ) (a b : Json)
      → IsLeaving (used id) (
          update_doc fs (activation_path id) (
            field "claimedAt"
              (time now)
              (field "agentId" a (field "siteId" b (field "reusedAgent" (Json.bool true) end)))))
  unfolding IsLeaving update_doc is_ok merged is_used_up
  leaves_update id now a b s h = elim (Bool-cases (is_some (get s.db (activation_path id)))) [
    | inl e ↦
        rw (e, fs.get-set, (eq_iff (activation_path id) (activation_path id)).1 refl)
          (simp (get-put) (unfold time Json.truthy in refl))
    | inr e ↦ absurd (ground (arith, e, h))
  ]

  leaves_existing :
      (now : ℕ) (x : Secrets) (id key agent_id : String) (agent : Fields)
      → IsLeaving (used id) (claim_existing fs env agent_by_key now x id key agent_id agent)
  unfolding claim_existing
  leaves_existing now x id key agent_id agent =
      leaves_first (used id) _ _ (leaves_then (used id) _ _ λ _. leaves_update id now _ _)
        λ _. stays_claim_with id now x key agent_id _

  write_agent-used :
      (now : ℕ) (x : Secrets) (id site_name : String) (activation : Fields) (d : Db)
      → used id (write_agent fs env agent_by_key now x id site_name activation d) ≡ true
  unfolding write_agent is_used_up
  write_agent-used now x id site_name activation d =
      rw (fs.get-set, (eq_iff (activation_path id) (activation_path id)).1 refl)
        (simp (get-put) (unfold time Json.truthy in refl))

  written-used :
      (now : ℕ) (x : Secrets) (id site_name : String) (activation : Fields) (t : Option String)
      (d : Db)
      → used id (
          write_ticket fs env agent_by_key now activation t
            (write_agent fs env agent_by_key now x id site_name activation d))
        ≡ true
  unfolding write_ticket
  written-used now x id site_name activation none d =
      write_agent-used now x id site_name activation d
  written-used now x id site_name activation (some t) d =
      used-set id (ticket_path t) _ _ (ticket_path-differs t id)
      ∙ write_agent-used now x id site_name activation d

  leaves_write :
      (now : ℕ) (x : Secrets) (id site_name : String) (activation : Fields) (t : Option String)
      → IsLeaving (used id) (
          modify λ d.
            write_ticket fs env agent_by_key now activation t
              (write_agent fs env agent_by_key now x id site_name activation d))
  unfolding IsLeaving
  leaves_write now x id site_name activation t s h =
      written-used now x id site_name activation t s.db

  leaves_new :
      (now : ℕ) (x : Secrets) (id key : String) (activation body : Fields)
      → IsLeaving (used id) (claim_new fs env agent_by_key now x id key activation body)
  unfolding claim_new
  leaves_new now x id key activation body = leaves_then (used id) _ _ λ site_name.
      leaves_then (used id) _ _ λ ticket. leaves_then (used id) _ _ λ taken.
        leaves_first (used id) _ _
          (leaves_then (used id) _ _ λ _. leaves_write now x id site_name activation ticket)
          λ _. stays_claim_with id now x key x.agent_id x.site_id

  leaves_found :
      (now : ℕ) (x : Secrets) (id key : String) (activation body : Fields) (o : Found)
      → IsLeaving (used id) (claim_found fs env agent_by_key now x id key activation body o)
  unfolding claim_found
  leaves_found now x id key activation body none = leaves_new now x id key activation body
  leaves_found now x id key activation body (some (agent_id, agent)) =
      leaves_existing now x id key agent_id agent

  leaves_claim :
      (now : ℕ) (x : Secrets) (id : String) (r : Request)
      → IsLeaving (used id) (claim_activation fs env agent_by_key now x id r)
  unfolding claim_activation
  leaves_claim now x id r = leaves_then (used id) _ _ λ body. leaves_then (used id) _ _ λ secret.
      leaves_then (used id) _ _ λ found. leaves_then (used id) _ _ λ activation.
        leaves_then (used id) _ _
          λ _. leaves_then (used id) _ _ λ agent. leaves_found now x id _ activation body agent

  -- A claim of a used activation is refused where it reads it.
  refuses_used :
      {B : Type 0} (id : String) (now : ℕ) (digest : String) (f : Fields → Action Db B)
      (s : State Db)
      → used id s.db ≡ true
      → IsRefused s (
          gets (λ d. get d (activation_path id)) >>= λ found.
          lift (check_activation fs env agent_by_key now digest found) >>= f)
  unfolding IsRefused bind_result is_ok
  refuses_used id now digest f s h =
      refused (check_activation fs env agent_by_key now digest (get s.db (activation_path id)))
        (check_activation-used now digest (get s.db (activation_path id)) h)
    where
      refused :
          (c : Result Fields)
          → is_ok c ≡ false
          → is_ok (bind_result (c, s) f).0 ≡ false × (bind_result (c, s) f).1 ≡ s
      refused (ok a) e = absurd (ground arith)
      refused (refuse status detail) e = (refl, refl)

  -- After an activation was claimed, a claim of it is refused and changes nothing, at whatever time
  -- and with whatever secret.
  pub claim_activation_twice :
      (now now' : ℕ) (x x' : Secrets) (id : String) (r r' : Request) (s : State Db)
      → is_ok (claim_activation fs env agent_by_key now x id r s).0 ≡ true
      → IsRefused
          (claim_activation fs env agent_by_key now x id r s).1
          (claim_activation fs env agent_by_key now' x' id r')
  unfolding IsLeaving claim_activation
  claim_activation_twice now now' x x' id r r' s h =
      let s' = (claim_activation fs env agent_by_key now x id r s).1 in
      refuses_then s' _ _ (reads_pure s' _) λ body.
        refuses_then s' _ _ (reads_pure s' _)
          λ secret. refuses_used id now' (env.hash secret) _ s' (leaves_claim now x id r s h)
