-- ===== src/Relay/State.antt =====
-- The state of `AgentRelay` (pbxsense_agent/relay.py): the JSON dict that `_save` writes, with a
-- field for each key, and the fields that are not saved. Every call holds the lock. The relay server
-- is not part of the repository's Agent: a reply of `_request` is what it may do.
use pbxpulse_agent.Prelude.{ℕ, String, Bool, ◌||◌, Option, List, leb, nat_eq}
use pbxpulse_agent.Prelude.Dict.{Dict}
use pbxpulse_agent.Json.{Fields}

pub record Activation : Type 0 where
  pub id : String
  pub secret : String
  pub expires_at : ℕ

-- `{"kind": kind, "payload": payload}`
pub record OutboxItem : Type 0 where
  pub kind : String
  pub payload : Fields

pub record RejectedItem : Type 0 where
  pub kind : String
  pub status : ℕ
  pub at : ℕ

pub record RelayState : Type 0 where
  -- "" is a missing `agent_id`
  pub agent_id : String
  pub activation : Option Activation
  pub outbox : List OutboxItem
  pub delivered : Dict String
  pub device_registration_attempt_revision : ℕ
  pub device_registration_revision : ℕ
  pub rejected_outbox : List RejectedItem
  pub last_outbox_error : String
  pub secure_snapshot_sequence : ℕ
  -- "" before the first snapshot
  pub secure_snapshot_fingerprint : String
  -- not saved: the times are in microseconds, and 0 asks for a refresh
  pub last_heartbeat_at : ℕ
  pub secure_devices : List Fields
  pub secure_devices_refreshed_at : ℕ

-- `_request` returns a JSON object, or raises `RelayRequestError` with a status and a message, or
-- another `OSError`. The relay server is taken to answer with JSON, as push_relay/app.py does: the
-- `ValueError` of an answer that is none, which no call here catches, is not modelled.
pub data Reply : Type 0 where
  response : Fields → Reply
  refused : ℕ → String → Reply
  failed : Reply

-- `RelayRequestError.retryable`
unfoldable pub is_retryable : ℕ → Bool
is_retryable status = nat_eq status 408 || nat_eq status 425 || nat_eq status 429 || leb 500 status
