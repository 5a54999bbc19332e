-- ===== src/Server/Delivery.antt =====
-- An event of `publish_event` of push_relay/app.py is announced at most once, and can be tried again
-- where FCM fails.
use text.Mathlib.TextLemmas.{cons-append}
use pbxpulse_agent.Prelude.{
  ℕ, String, ◌≡◌, refl, ◌∙◌, ap, sym, Bool, true, false, Option, none, some, is_some, List, [], ◌∷◌,
  ◌++◌, ◌==◌, eq_iff, arith, if◌then◌else◌, is_truthy, concat, Bool-cases, inl, inr,
}
use pbxpulse_agent.Json
use pbxpulse_agent.Json.{Json, Fields, str, end, field}
use pbxpulse_agent.Devices.{fcm_token}
use pbxpulse_agent.Server.Store.{
  Firestore, State, Message, Result, ok, refuse, Action, bind_result, run_if, token_path,
  pointer_path, devices_path, device_path, fields_or, create_doc,
}
use pbxpulse_agent.Server.Paths.{tag, device_path-tag, token_path-tag, tag_differ}
use pbxpulse_agent.Server.Auth.{Env}
use pbxpulse_agent.Server.Registrations.{delete_device_registration, release_token, given_or}
use pbxpulse_agent.Server.Runs.{is_ok}
use pbxpulse_agent.Server.Events.{
  Event, Delivery, eligible_devices, device_records, delivered, unregistered, undelivered,
  duplicate, event_path, event_record, remove_invalid_tokens, send_multicast, answered, after_send,
  deliver, notify, publish_new,
}

abbrev pub is_empty {ℓ} : {A : Type ℓ} → List A → Bool
is_empty [] = true
is_empty (x ∷ l) = false

event_path-tag : (site_id : Json) (id : String) → tag (event_path site_id id) ≡ b'i'
unfolding tag event_path concat
event_path-tag site_id id = rw (cons-append, cons-append)

module _ (fs : Firestore) (env : Env) where
  open fs use {Db, get, stream}

  -- Deleting a device's registration leaves the events.
  delete_device_registration-get :
      (agent_id device_id p : String) (given : Option Fields) (s : State Db)
      → tag p ≡ b'i'
      → get (delete_device_registration fs env agent_id device_id given s).1.db p ≡ get s.db p
  unfolding delete_device_registration release_token bind_result
  delete_device_registration-get agent_id device_id p given s hp =
      let path = device_path agent_id device_id in
      let token = fcm_token (given_or given (fields_or (get s.db path))) in
      let d = fs.delete s.db path in
      let device = tag_differ path p (rw (device_path-tag agent_id device_id, hp) refl) in
      let pointer =
        tag_differ (token_path (env.hash token)) p
          (rw (token_path-tag (env.hash token), hp) refl) in
      let deleted = fs.get-delete s.db path p ∙ rw device refl in
      elim (Bool-cases (is_truthy token)) [
        | inr e ↦ rw e deleted
        | inl e ↦ elim (Bool-cases (pointer_path (get d (token_path (env.hash token))) == path)) [
          | inr f ↦ rw (e, f) deleted
          | inl f ↦ rw (e, f) (fs.get-delete d (token_path (env.hash token)) p ∙ rw pointer deleted)
        ]
      ]

  bind_result-get :
      {A B : Type 0} (p : String) (r : Result A × State Db) (f : A → Action Db B)
      → ((a : A) → get (f a r.1).1.db p ≡ get r.1.db p)
      → get (bind_result r f).1.db p ≡ get r.1.db p
  unfolding bind_result
  bind_result-get p (ok a, s) f k = k a
  bind_result-get p (refuse status detail, s) f k = refl

module _ (fs : Firestore) (env : Env) (fcm : List Message → Message → Option (List Delivery)) where
  open fs use {Db, get, stream}

  remove_invalid_tokens-get :
      (agent_id p : String) (devices : List Fields) (answers : List Delivery) (s : State Db)
      → tag p ≡ b'i'
      → get (remove_invalid_tokens fs env fcm agent_id devices answers s).1.db p ≡ get s.db p
  unfolding remove_invalid_tokens
  remove_invalid_tokens-get agent_id p [] [] s hp = refl
  remove_invalid_tokens-get agent_id p [] (answer ∷ answers) s hp = refl
  remove_invalid_tokens-get agent_id p (device ∷ devices) [] s hp = refl
  remove_invalid_tokens-get agent_id p (device ∷ devices) (delivered ∷ answers) s hp =
      remove_invalid_tokens-get agent_id p devices answers s hp
  remove_invalid_tokens-get agent_id p (device ∷ devices) (undelivered ∷ answers) s hp =
      remove_invalid_tokens-get agent_id p devices answers s hp
  remove_invalid_tokens-get agent_id p (device ∷ devices) (unregistered ∷ answers) s hp =
      let id = Json.text_or device "_documentId" "" in
      let first =
        run_if (is_truthy id) (delete_device_registration fs env agent_id id (some device)) s in
      bind_result-get fs env p first _
        (λ _. remove_invalid_tokens-get agent_id p devices answers first.1 hp)
      ∙ elim (Bool-cases (is_truthy id)) [
        | inl e ↦ rw e (delete_device_registration-get fs env agent_id id p (some device) s hp)
        | inr e ↦ rw e refl
      ]

  -- An event that is accepted keeps its document.
  after_send-get :
      (agent_id p : String) (devices : List Fields) (o : Option (List Delivery)) (s : State Db)
      → tag p ≡ b'i'
      → is_ok (after_send fs env fcm agent_id p devices o s).0 ≡ true
      → get (after_send fs env fcm agent_id p devices o s).1.db p ≡ get s.db p
  unfolding after_send bind_result is_ok
  after_send-get agent_id p devices none s hp e = absurd (ground arith)
  after_send-get agent_id p devices (some answers) s hp e =
      bind_result-get fs env p (remove_invalid_tokens fs env fcm agent_id devices answers s) _
        (λ _. refl)
      ∙ remove_invalid_tokens-get agent_id p devices answers s hp

  answered-get :
      (agent_id p : String) (devices : List Fields) (message : Message) (s : State Db)
      (o : Option (List Delivery))
      → tag p ≡ b'i'
      → is_ok
          (bind_result
            (answered fs env fcm message s o)
            (after_send fs env fcm agent_id p devices)).0
        ≡ true
      → get
          (bind_result
            (answered fs env fcm message s o)
            (after_send fs env fcm agent_id p devices)).1.db
          p
        ≡ get s.db p
  unfolding answered bind_result
  answered-get agent_id p devices message s none hp e =
      after_send-get agent_id p devices none s hp e
  answered-get agent_id p devices message s (some answers) hp e =
      after_send-get agent_id p devices (some answers) (record s { sent = s.sent ++ message ∷ [] })
        hp e

  deliver-get :
      (agent_id p : String) (devices : List Fields) (message : Message) (s : State Db)
      → tag p ≡ b'i'
      → is_ok (deliver fs env fcm agent_id p message devices s).0 ≡ true
      → get (deliver fs env fcm agent_id p message devices s).1.db p ≡ get s.db p
  unfolding deliver send_multicast
  deliver-get agent_id p [] message s hp e = refl
  deliver-get agent_id p (device ∷ devices) message s hp e =
      answered-get agent_id p (device ∷ devices) message s (fcm s.sent message) hp e

  -- The event of a document that is there is a duplicate.
  publish_known :
      (now : ℕ) (agent_id : String) (site_id : Json) (e : Event) (s : State Db)
      → is_some (get s.db (event_path site_id e.id)) ≡ true
      → publish_new fs env fcm now agent_id site_id e s ≡ (ok duplicate, s)
  unfolding publish_new create_doc bind_result
  publish_known now agent_id site_id e s h = simp (h)

  publish_unknown :
      (now : ℕ) (agent_id : String) (site_id : Json) (e : Event) (s : State Db)
      → is_some (get s.db (event_path site_id e.id)) ≡ false
      → publish_new fs env fcm now agent_id site_id e s
        ≡ notify fs env fcm now agent_id site_id e
            (record s { db = fs.set s.db (event_path site_id e.id) (event_record now agent_id e) })
  unfolding publish_new create_doc bind_result
  publish_unknown now agent_id site_id e s h = simp (h)

  notify-exists :
      (now : ℕ) (agent_id : String) (site_id : Json) (e : Event) (s : State Db)
      → get s.db (event_path site_id e.id) ≡ some (event_record now agent_id e)
      → is_ok (notify fs env fcm now agent_id site_id e s).0 ≡ true
      → is_some (get (notify fs env fcm now agent_id site_id e s).1.db (event_path site_id e.id))
        ≡ true
  unfolding notify bind_result
  notify-exists now agent_id site_id e s h e' =
      ap (λ o. is_some o)
        (deliver-get agent_id (event_path site_id e.id) _ _ s (event_path-tag site_id e.id) e' ∙ h)

  publish_new-exists :
      (now : ℕ) (agent_id : String) (site_id : Json) (e : Event) (s : State Db)
      → is_ok (publish_new fs env fcm now agent_id site_id e s).0 ≡ true
      → is_some
          (get (publish_new fs env fcm now agent_id site_id e s).1.db (event_path site_id e.id))
        ≡ true
  publish_new-exists now agent_id site_id e s h =
      let p = event_path site_id e.id in
      elim (Bool-cases (is_some (get s.db p))) [
        | inl f ↦ rw (publish_known now agent_id site_id e s f) f
        | inr f ↦ rw (publish_unknown now agent_id site_id e s f) (
            notify-exists now agent_id site_id e
              (record s { db = fs.set s.db p (event_record now agent_id e) })
              (fs.get-set s.db p (event_record now agent_id e) p ∙ rw ((eq_iff p p).1 refl) refl)
              (sym (ap (λ r. is_ok r.0) (publish_unknown now agent_id site_id e s f)) ∙ h))
      ]

  -- An event that was accepted, or was known already, is a duplicate from then on: the part of
  -- `publish_event` from the creation of the event's document on, when it runs again for the same id
  -- and site, sends nothing, changes nothing and answers that the event is a duplicate.
  pub publish_new_twice :
      (now now' : ℕ) (agent_id agent_id' : String) (site_id : Json) (e e' : Event) (s : State Db)
      → e'.id ≡ e.id
      → is_ok (publish_new fs env fcm now agent_id site_id e s).0 ≡ true
      → publish_new fs env fcm now' agent_id' site_id e'
          (publish_new fs env fcm now agent_id site_id e s).1
        ≡ (ok duplicate, (publish_new fs env fcm now agent_id site_id e s).1)
  publish_new_twice now now' agent_id agent_id' site_id e e' s h ok_first =
      publish_known now' agent_id' site_id e' (publish_new fs env fcm now agent_id site_id e s).1
        (rw h (publish_new-exists now agent_id site_id e s ok_first))

  failed-deliver :
      (agent_id p : String) (devices : List Fields) (message : Message) (s : State Db)
      → fcm s.sent message ≡ none
      → (deliver fs env fcm agent_id p message devices s).1.sent ≡ s.sent
        × is_ok (deliver fs env fcm agent_id p message devices s).0 ≡ is_empty devices
        × get (deliver fs env fcm agent_id p message devices s).1.db p
          ≡ (if is_empty devices then get s.db p else none)
  unfolding deliver send_multicast answered after_send bind_result is_ok
  failed-deliver agent_id p [] message s h = (refl, refl, refl)
  failed-deliver agent_id p (device ∷ devices) message s h =
      rw h (refl, refl, rw (fs.get-delete s.db p p, (eq_iff p p).1 refl) refl)

  -- The devices that an event is told to, in the store with the event's document.
  abbrev pub told : ℕ → String → Json → Event → State Db → List Fields
  told now agent_id site_id e s =
      let d = fs.set s.db (event_path site_id e.id) (event_record now agent_id e) in
      eligible_devices now e.category e.importance
        (device_records (stream d (devices_path agent_id)))

  -- While FCM fails, a new event sends nothing. With no device that is to be told, it is accepted and
  -- its document is there afterwards; with any, it is refused and there is no document of it, so that
  -- it can be tried again.
  pub publish_new_failed :
      (now : ℕ) (agent_id : String) (site_id : Json) (e : Event) (s : State Db)
      → is_some (get s.db (event_path site_id e.id)) ≡ false
      → ((message : Message) → fcm s.sent message ≡ none)
      → (publish_new fs env fcm now agent_id site_id e s).1.sent ≡ s.sent
        × is_ok (publish_new fs env fcm now agent_id site_id e s).0
          ≡ is_empty (told now agent_id site_id e s)
        × get (publish_new fs env fcm now agent_id site_id e s).1.db (event_path site_id e.id) ≡ (
            if is_empty (told now agent_id site_id e s)
            then some (event_record now agent_id e)
            else none)
  unfolding notify bind_result
  publish_new_failed now agent_id site_id e s f h =
      let p = event_path site_id e.id in
      let s1 : State Db = record s { db = fs.set s.db p (event_record now agent_id e) } in
      let there : get s1.db p ≡ some (event_record now agent_id e) =
        fs.get-set s.db p (event_record now agent_id e) p ∙ rw ((eq_iff p p).1 refl) refl in
      rw (publish_unknown now agent_id site_id e s f) (
        let failed = failed-deliver agent_id p _ _ s1 (h _) in
        (failed.0, failed.1, failed.2 ∙ rw there refl))
