-- ===== src/Relay/Registration/Waiting.antt =====
-- A registration is not lost while the Agent is not enrolled.
use pbxpulse_agent.Prelude.{
  ℕ, ◌+◌, String, ◌≡◌, refl, ◌∙◌, ap, sym, true, false, Option, none, some, List, [], ◌∷◌, eq_iff,
  any, is_truthy, strip, arith, Bool-cases, inl, inr,
}
use pbxpulse_agent.Json
use pbxpulse_agent.Json.{Fields}
use pbxpulse_agent.Relay.State.{
  Activation, RelayState, Reply, response, refused, failed, OutboxItem,
}
use pbxpulse_agent.Relay.Outbox.{is_registration, token_of, queue, flush}
use pbxpulse_agent.Relay.Publish.{ensure_enrolled, ask_status, after_status, adopt_claimed}
use pbxpulse_agent.Relay.Order.{registrations, queue-registrations}
use pbxpulse_agent.Relay.Requests.{ask, post}
use pbxpulse_agent.Relay.Registration.{
  Registration, Registered, registration_payload, deliver, register_device,
}

after_status-outbox : (r : Reply) (s : RelayState) → (after_status r s).0.outbox ≡ s.outbox
unfolding after_status adopt_claimed
after_status-outbox (response r) s = ground arith
after_status-outbox (refused status message) s = refl
after_status-outbox failed s = refl

module _ {W : Type 0} (url : String) (inquire : W → Activation → W × Reply) where
  ask_status-outbox :
      (w : W) (s : RelayState) (o : Option Activation)
      → (ask_status url inquire w s o).1.outbox ≡ s.outbox
  unfolding ask_status
  ask_status-outbox w s none = refl
  ask_status-outbox w s (some a) = ground (arith, after_status-outbox (inquire w a).1 s)

  -- Enrolling leaves the outbox alone.
  pub ensure_enrolled-outbox :
      (w : W) (s : RelayState) → (ensure_enrolled url inquire w s).1.outbox ≡ s.outbox
  unfolding ensure_enrolled
  ensure_enrolled-outbox w s = ground (arith, ask_status-outbox w s s.activation)

token_of-payload : (r : Registration) → token_of (registration_payload r) ≡ strip r.fcm_token
unfolding token_of registration_payload Json.has Json.get Json.to_text
token_of-payload r = refl

none_registered :
    (token : String) (l : List OutboxItem)
    → any (is_registration token) l ≡ false
    → registrations token l ≡ 0
none_registered token [] h = refl
none_registered token (x ∷ l) h = ground (arith, none_registered token l)

module _ {W : Type 0} (request : W → String → Fields → W × Reply) (hash : String → String)
    (url : String) where
  -- How a delivery ends, by what it reports.
  abbrev Ends : Registration → RelayState → RelayState × Registered → Type 0
  Ends r s (t, o) =
      (o.configured ≡ false → (t.outbox ≡ s.outbox) × (o.queued ≡ true) × (o.delivered ≡ false))
      × (o.delivered ≡ true
          → (o.configured ≡ true) × (registrations (strip r.fcm_token) t.outbox ≡ 0))

  abbrev ending : W × RelayState × Registered → RelayState × Registered
  ending (w, s, o) = (s, o)

  deliver-Ends :
      (r : Registration) (at : ℕ) (w : W) (s : RelayState)
      → Ends r s (ending (deliver request hash url r at w s))
  unfolding deliver
  deliver-Ends r at w s =
      let token = strip r.fcm_token in
      let (w1, s1, enrolled) = ensure_enrolled url (ask request) w s in
      let (w2, s2) = flush (post request s1.agent_id) at w1 s1 in
      elim (Bool-cases enrolled) [
        | inr out ↦ rw (out) (
          λ c. (ensure_enrolled-outbox url (ask request) w s, refl, refl),
          λ d. absurd (ground arith),
        )
        | inl on ↦ elim (Bool-cases (any (is_registration token) s2.outbox)) [
          | inl left ↦ rw (on, left) (λ c. absurd (ground arith), λ d. absurd (ground arith))
          | inr gone ↦
              rw (on, gone)
                (
                  λ c. absurd (ground arith),
                  λ d. (refl, ground (arith, none_registered token s2.outbox gone)),
                )
        ]
      ]

  abbrev pub queued_state : Registration → RelayState → RelayState
  queued_state r s = queue "devices" (registration_payload r) (record s {
    device_registration_attempt_revision = s.device_registration_attempt_revision + 1;
  })

  pub register_device_lem :
      (r : Registration) (at : ℕ) (w : W) (s : RelayState)
      → is_truthy (strip r.fcm_token) ≡ true
      → register_device request hash url r at w s
        ≡ deliver request hash url r at w (queued_state r s)
  unfolding register_device
  register_device_lem r at w s h = simp (h)

  queued_once :
      (r : Registration) (s : RelayState)
      → registrations (strip r.fcm_token) (queued_state r s).outbox ≡ 1
  queued_once r s =
      let counted = record s {
        device_registration_attempt_revision = s.device_registration_attempt_revision + 1;
      } in
      ground (
        arith,
        (queue-registrations (registration_payload r) counted (strip r.fcm_token)).0,
        token_of-payload r,
        eq_iff (strip r.fcm_token) (strip r.fcm_token),
      )

  -- While the Agent is not enrolled, a registration with a token waits in the outbox, once, and is
  -- reported as queued.
  pub register_device-registrations :
      (r : Registration) (at : ℕ) (w : W) (s : RelayState)
      → is_truthy (strip r.fcm_token) ≡ true
      → (register_device request hash url r at w s).2.configured ≡ false
      → (registrations (strip r.fcm_token) (register_device request hash url r at w s).1.outbox ≡ 1)
        × ((register_device request hash url r at w s).2.queued ≡ true)
        × ((register_device request hash url r at w s).2.delivered ≡ false)
  register_device-registrations r at w s h c =
      let same = register_device_lem r at w s h in
      let ends = deliver-Ends r at w (queued_state r s) in
      let (out, waiting, undelivered) = ends.0 (sym (ap (λ p. p.2.configured) same) ∙ c) in
      (
        ap (λ p. registrations (strip r.fcm_token) p.1.outbox) same
            ∙ ap (registrations (strip r.fcm_token)) out
            ∙ queued_once r s,
        ap (λ p. p.2.queued) same ∙ waiting,
        ap (λ p. p.2.delivered) same ∙ undelivered,
      )

  -- A registration is reported as delivered only if the Agent is enrolled, and no registration of
  -- the token waits in the outbox.
  register_device-delivered :
      (r : Registration) (at : ℕ) (w : W) (s : RelayState)
      → is_truthy (strip r.fcm_token) ≡ true
      → (register_device request hash url r at w s).2.delivered ≡ true
      → ((register_device request hash url r at w s).2.configured ≡ true)
        × (registrations (strip r.fcm_token) (register_device request hash url r at w s).1.outbox
            ≡ 0)
  register_device-delivered r at w s h d =
      let same = register_device_lem r at w s h in
      let ends = deliver-Ends r at w (queued_state r s) in
      let (on, gone) = ends.1 (sym (ap (λ p. p.2.delivered) same) ∙ d) in
      (
        ap (λ p. p.2.configured) same ∙ on,
        ap (λ p. registrations (strip r.fcm_token) p.1.outbox) same ∙ gone,
      )
