-- ===== src/Relay/Publish.antt =====
-- `_ensure_enrolled`, `_adopt_claimed_activation`, `observe`, `_should_relay` and `_fingerprint` of
-- pbxsense_agent/relay.py. A Signal is a JSON object with an `id`.
use pbxpulse_agent.Prelude.{
  ℕ, String, Bool, true, false, not, ◌&&◌, ◌||◌, Option, none, some, List, [], ◌∷◌, ◌==◌,
  if◌then◌else◌, is_truthy, any,
}
use pbxpulse_agent.Prelude.Dict
use pbxpulse_agent.Prelude.Dict.{Dict}
use pbxpulse_agent.Prelude.Sets
use pbxpulse_agent.Json
use pbxpulse_agent.Json.{Json, Fields, str, end, field, obj}
use pbxpulse_agent.Relay.State.{
  Activation, RelayState, OutboxItem, Reply, response, refused, failed,
}
use pbxpulse_agent.Relay.Outbox.{queue, flush}

-- Enrollment.
unfoldable pub is_claimed : Fields → Bool
is_claimed r = Json.truthy (Json.get r "claimed") && Json.truthy (Json.get r "agentId")

unfoldable pub adopt_claimed : Fields → RelayState → RelayState × Bool
adopt_claimed r s =
    if is_claimed r
    then (record s { agent_id = Json.to_text (Json.get r "agentId"); activation = none }, true)
    else (s, false)

-- What follows the relay's word on the activation.
unfoldable pub after_status : Reply → RelayState → RelayState × Bool
after_status (response r) s =
    if is_claimed r
    then adopt_claimed r s
    else if Json.truthy (Json.get r "expired")
    then (record s { activation = none }, false)
    else (s, false)
after_status (refused status message) s = (s, false)
after_status failed s = (s, false)

module _ {W : Type 0} (url : String) (ask : W → Activation → W × Reply) where
  unfoldable pub ask_status : W → RelayState → Option Activation → W × RelayState × Bool
  ask_status w s none = (w, s, false)
  ask_status w s (some a) =
      let (w', reply) = ask w a in
      let (s', enrolled) = after_status reply s in
      if is_truthy a.id && is_truthy a.secret then (w', s', enrolled) else (w, s, false)

  unfoldable pub ensure_enrolled : W → RelayState → W × RelayState × Bool
  ensure_enrolled w s =
      if not (is_truthy url)
      then (w, s, false)
      else if is_truthy s.agent_id
      then (w, s, true)
      else ask_status w s s.activation

-- Signals.
abbrev pub feed_only_kinds : List String
feed_only_kinds =
    "call_active" ∷ "pbx_live_calls_activity" ∷ "trunk_active" ∷ "trunk_call_active" ∷ []

unfoldable pub is_active : Fields → Bool
is_active signal = Json.is_str "active" (Json.get signal "state")

unfoldable pub should_relay : Fields → Bool
unfolding is_active
should_relay signal =
    if not (is_active signal) || Json.is_str "recommendation" (Json.get signal "category")
    then false
    else if any (λ k. Json.is_str k (Json.get signal "kind")) feed_only_kinds
    then false
    else if Json.is_str "activity" (Json.get signal "category")
    then true
    else Json.is_str "attention" (Json.get signal "importance")
      || Json.is_str "important" (Json.get signal "importance")

unfoldable pub fingerprint : Fields → String
fingerprint signal = Json.dumps (obj (Json.pop signal "notificationId"))

unfoldable pub signal_id : Fields → String
signal_id signal = Json.text_or signal "id" ""

unfoldable pub active_ids : List Fields → List String
active_ids [] = []
active_ids (signal ∷ l) =
    let rest = active_ids l in if is_active signal then signal_id signal ∷ rest else rest

unfoldable pub event_payload : Fields → Fields
event_payload signal =
    let id = signal_id signal in
    field "id" (str (Json.text_or signal "notificationId" id)) (
      field "signalId" (str id) (
        field "title" (str (Json.text_or signal "title" "PBXSense Signal")) (
          field "body"
            (str (
              if Json.has signal "body"
              then Json.to_text (Json.get signal "body")
              else Json.text_or signal "timeLabel" ""))
            (field "category" (str (Json.text_or signal "category" "activity"))
              (field "importance" (str (Json.text_or signal "importance" "feed")) end)))))

unfoldable pub is_delivered : Dict String → Fields → Bool
is_delivered delivered signal = elim (Dict.get delivered (signal_id signal)) [
  | none ↦ false
  | some f ↦ f == fingerprint signal
]

-- The body of the loop over the Signals.
unfoldable pub relay_signal : RelayState → Fields → RelayState
relay_signal s signal =
    if not (should_relay signal)
    then s
    else if is_delivered s.delivered signal
    then s
    else queue "events" (event_payload signal)
        (record s { delivered = Dict.put s.delivered (signal_id signal) (fingerprint signal) })

unfoldable pub relay_signals : RelayState → List Fields → RelayState
relay_signals s [] = s
relay_signals s (signal ∷ l) = relay_signals (relay_signal s signal) l

-- The Signals that are gone are forgotten.
unfoldable pub forget_gone : List Fields → RelayState → RelayState
forget_gone signals s = record s {
  delivered = Dict.keep_keys (λ k. Sets.member k (active_ids signals)) s.delivered;
}

unfoldable pub collect : List Fields → RelayState → RelayState
collect signals s = relay_signals (forget_gone signals s) signals

module _ {W : Type 0} (url : String) (ask : W → Activation → W × Reply)
    (post : W → OutboxItem → W × Reply) (at : ℕ) where
  unfoldable pub observe : List Fields → W → RelayState → W × RelayState
  observe signals w s =
      let (w', s', enrolled) = ensure_enrolled url ask w s in
      if enrolled then flush post at w' (collect signals s') else (w', s')
