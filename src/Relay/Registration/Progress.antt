-- ===== src/Relay/Registration/Progress.antt =====
-- A registration goes out where the Agent is enrolled and the relay server answers.
use pbxpulse_agent.Prelude.{
  ℕ, String, ◌≡◌, refl, ◌∙◌, true, false, not, List, [], ◌∷◌, arith, is_truthy, or_else, strip,
  take_text,
}
use pbxpulse_agent.Json.{Fields, end}
use pbxpulse_agent.Relay.State.{RelayState, OutboxItem, Reply}
use pbxpulse_agent.Relay.Outbox.{queue, flush}
use pbxpulse_agent.Relay.Publish.{ensure_enrolled}
use pbxpulse_agent.Relay.Order.{stops, Waits, flush-Split}
use pbxpulse_agent.Relay.Requests.{agent_path, post}
use pbxpulse_agent.Relay.Registration.{
  Registration, Registered, deliver, device_is_listed, is_listed, register_device,
}
use pbxpulse_agent.Relay.Registration.Waiting.{queued_state, register_device_lem}

module _ {W : Type 0} (post : W → OutboxItem → W × Reply) (at : ℕ)
    (goes_on : (w : W) (item : OutboxItem) → stops (post w item).1 ≡ false) where
  Waits-empty : (left : List OutboxItem) → Waits post left → left ≡ []
  Waits-empty [] waits = refl
  Waits-empty (item ∷ rest) (w, e) = absurd (ground (arith, goes_on w item))

  -- Where no reply leaves an item waiting, a flush empties the outbox.
  pub flush-empty : (w : W) (s : RelayState) → (flush post at w s).1.outbox ≡ []
  flush-empty w s =
      let (sent, e, gone, waits) = flush-Split post at w s in
      Waits-empty (flush post at w s).1.outbox waits

module _ {W : Type 0} (request : W → String → Fields → W × Reply) (hash : String → String)
    (url : String) where
  post_goes_on :
      (agent_id : String)
      → ((w : W) (path : String) (body : Fields) → stops (request w path body).1 ≡ false)
      → (w : W) (item : OutboxItem) → stops (post request agent_id w item).1 ≡ false
  unfolding post
  post_goes_on agent_id goes_on w item = goes_on w (agent_path agent_id item.kind) item.payload

  -- The world before the list of devices is asked for, and what follows from its answer.
  abbrev pub Listed : Registration → W × RelayState × Registered → W → Type 0
  Listed r (w1, t, o) w =
      let answer = request w (agent_path t.agent_id "devices/list") end in
      let id = or_else (strip r.relay_device_id) (take_text 12 (hash (strip r.fcm_token))) in
      (w1 ≡ answer.0) × (o.delivered ≡ is_listed id answer.1)

  abbrev Sent : Registration → W × RelayState × Registered → Type 0
  Sent r (w1, t, o) =
      (t.outbox ≡ [])
      × (o.configured ≡ true)
      × (o.queued ≡ not o.delivered)
      × (w : W) × Listed r (w1, t, o) w

  deliver-Sent :
      (r : Registration) (at : ℕ) (w : W) (s : RelayState)
      → ((w' : W) (path : String) (body : Fields) → stops (request w' path body).1 ≡ false)
      → is_truthy url ≡ true
      → is_truthy s.agent_id ≡ true
      → Sent r (deliver request hash url r at w s)
  unfolding deliver ensure_enrolled device_is_listed
  deliver-Sent r at w s goes_on u a =
      let sent = flush-empty (post request s.agent_id) at (post_goes_on s.agent_id goes_on) w s in
      let asked = (flush (post request s.agent_id) at w s).0 in
      rw (u, a, sent) (ground (arith, sent), refl, refl, asked, (refl, refl))

  queued-agent_id :
      (r : Registration) (s : RelayState)
      → is_truthy (queued_state request hash url r s).agent_id ≡ is_truthy s.agent_id
  unfolding queue
  queued-agent_id r s = refl

  -- Where the Agent is enrolled and no reply of the relay server asks for another attempt, a
  -- registration with a token leaves the outbox empty, and is reported as delivered if the relay
  -- server's answer to the last request, for the list of devices, lists the device's id, and else as
  -- queued.
  pub register_device-Sent :
      (r : Registration) (at : ℕ) (w : W) (s : RelayState)
      → ((w' : W) (path : String) (body : Fields) → stops (request w' path body).1 ≡ false)
      → is_truthy url ≡ true
      → is_truthy s.agent_id ≡ true
      → is_truthy (strip r.fcm_token) ≡ true
      → ((register_device request hash url r at w s).1.outbox ≡ [])
        × ((register_device request hash url r at w s).2.configured ≡ true)
        × ((register_device request hash url r at w s).2.queued
            ≡ not (register_device request hash url r at w s).2.delivered)
        × (w' : W) × Listed r (register_device request hash url r at w s) w'
  register_device-Sent r at w s goes_on u a h =
      rw (register_device_lem request hash url r at w s h) (
        deliver-Sent r at w (queued_state request hash url r s) goes_on u (queued-agent_id r s ∙ a))
