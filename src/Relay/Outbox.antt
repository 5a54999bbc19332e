-- ===== src/Relay/Outbox.antt =====
-- `_queue` and `_flush` of pbxsense_agent/relay.py. `post` is `_request` of an item to the relay
-- server: from the state of the world to the state afterwards and a reply.
use pbxpulse_agent.Prelude.{
  ℕ, ◌+◌, String, Bool, not, ◌&&◌, List, [], ◌∷◌, ◌++◌, ◌==◌, if◌then◌else◌, keep, take_last,
  take_text,
}
use pbxpulse_agent.Json
use pbxpulse_agent.Json.{Fields}
use pbxpulse_agent.Relay.State.{
  RelayState, OutboxItem, Reply, response, refused, failed, is_retryable,
}

-- `str(payload.get("fcmToken", ""))`
unfoldable pub token_of : Fields → String
token_of payload = Json.text_or payload "fcmToken" ""

-- A registration of the device with the token.
unfoldable pub is_registration : String → OutboxItem → Bool
is_registration token item = item.kind == "devices" && token_of item.payload == token

-- A registration replaces an earlier one of the same token.
unfoldable pub queue : String → Fields → RelayState → RelayState
queue kind payload s =
    let kept =
      if kind == "devices"
      then keep (λ i. not (is_registration (token_of payload) i)) s.outbox
      else s.outbox in
    record s { outbox = kept ++ (record { kind = kind; payload = payload }) ∷ [] }

-- What `_flush` does after a reply that ends the first item's wait.
unfoldable pub accept : OutboxItem → List OutboxItem → RelayState → RelayState
accept item rest s = record s {
  outbox = rest;
  device_registration_revision =
      s.device_registration_revision + (if item.kind == "devices" then 1 else 0);
}

unfoldable pub reject : ℕ → ℕ → String → OutboxItem → List OutboxItem → RelayState → RelayState
reject at status message item rest s = record s {
  outbox = rest;
  rejected_outbox =
      take_last 20
        (s.rejected_outbox ++ (record { kind = item.kind; status = status; at = at }) ∷ []);
  last_outbox_error = take_text 240 message;
}

module _ {W : Type 0} (post : W → OutboxItem → W × Reply) (at : ℕ) where
  unfoldable pub flush_items : List OutboxItem → W → RelayState → W × RelayState
  flush_items [] w s = (w, s)
  flush_items (item ∷ rest) w s =
      let (w', reply) = post w item in
      elim reply [
        | response _ ↦ flush_items rest w' (accept item rest s)
        | refused status message ↦
            (let onward = flush_items rest w' (reject at status message item rest s) in
              if is_retryable status then (w', s) else onward)
        | failed ↦ (w', s)
      ]

  unfoldable pub flush : W → RelayState → W × RelayState
  flush w s = flush_items s.outbox w s
