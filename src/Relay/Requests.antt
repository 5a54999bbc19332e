-- ===== src/Relay/Requests.antt =====
-- The requests that `AgentRelay` of pbxsense_agent/relay.py makes to the relay server, by their
-- paths, and the short methods around one request. `request` is `_request`: from a state of the
-- world, a path and a payload to the state afterwards and a reply.
use pbxpulse_agent.Prelude.{
  ℕ, ◌+◌, ◌*◌, String, Bool, ◌&&◌, [], ◌∷◌, leb, if◌then◌else◌, concat, length, is_truthy,
}
use pbxpulse_agent.Prelude.Clock.{second}
use pbxpulse_agent.Json.{Fields, str, end, field}
use pbxpulse_agent.Relay.State.{
  Activation, RelayState, OutboxItem, Reply, response, refused, failed,
}
use pbxpulse_agent.Relay.Publish.{ensure_enrolled}

unfoldable pub agent_path : String → String → String
agent_path agent_id tail = concat ("/v1/agents/" ∷ agent_id ∷ "/" ∷ tail ∷ [])

module _ {W : Type 0} (request : W → String → Fields → W × Reply) where
  -- The status of an activation.
  unfoldable pub ask : W → Activation → W × Reply
  ask w a =
      request w (concat ("/v1/activations/" ∷ a.id ∷ "/status" ∷ []))
        (field "activationSecret" (str a.secret) end)

  -- One item of the outbox.
  unfoldable pub post : String → W → OutboxItem → W × Reply
  post agent_id w item = request w (agent_path agent_id item.kind) item.payload

  -- `heartbeat`; the clock is read before and after the request.
  unfoldable pub after_heartbeat : ℕ → Reply → RelayState → RelayState
  after_heartbeat answered (response r) s = record s { last_heartbeat_at = answered }
  after_heartbeat answered (refused status message) s = s
  after_heartbeat answered failed s = s

  unfoldable pub heartbeat : String → ℕ → ℕ → W → RelayState → W × RelayState
  heartbeat url now answered w s =
      let (w', s', enrolled) = ensure_enrolled url ask w s in
      let (w'', reply) = request w' (agent_path s'.agent_id "heartbeat") end in
      if enrolled && leb (s'.last_heartbeat_at + 30 * second) now
      then (w'', after_heartbeat answered reply s')
      else (w', s')

  -- `secure_exchange`: `failed` is an `OSError`.
  unfoldable pub secure_exchange : String → Fields → W → RelayState → W × RelayState × Reply
  secure_exchange url payload w s =
      let (w', s', enrolled) = ensure_enrolled url ask w s in
      let (w'', reply) = request w' (agent_path s'.agent_id "secure/exchange") payload in
      if enrolled then (w'', s', reply) else (w', s', failed)

-- `status`
pub record RelayStatus : Type 0 where
  pub configured : Bool
  pub enrolled : Bool
  pub agent_id : String
  pub queued : ℕ
  pub device_registration_attempt_revision : ℕ
  pub device_registration_revision : ℕ
  pub rejected_outbox_items : ℕ
  pub last_outbox_error : String

unfoldable pub status : String → RelayState → RelayStatus
status url s = record {
  configured = is_truthy url;
  enrolled = is_truthy s.agent_id;
  agent_id = s.agent_id;
  queued = length s.outbox;
  device_registration_attempt_revision = s.device_registration_attempt_revision;
  device_registration_revision = s.device_registration_revision;
  rejected_outbox_items = length s.rejected_outbox;
  last_outbox_error = s.last_outbox_error;
}
