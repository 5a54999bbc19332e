-- ===== src/Relay/Activations.antt =====
-- `activation` of pbxsense_agent/relay.py: the capability that the Agent's page shows as a QR code.
-- `public_key` is that of `_private_key`, if the cryptography package is there; `iso_timestamp` is
-- `_iso_timestamp`, which reads a time by `datetime.fromisoformat`, in microseconds.
use pbxpulse_agent.Prelude.{
  ℕ, ◌+◌, ◌*◌, String, ◌≡◌, refl, true, not, ◌&&◌, Option, none, some, leb, if◌then◌else◌,
  is_truthy, Bool-cases, inl, inr,
}
use pbxpulse_agent.Prelude.Clock.{second}
use pbxpulse_agent.Json
use pbxpulse_agent.Json.{Fields, str, end, field}
use pbxpulse_agent.Relay.State.{Activation, RelayState, Reply, response, refused, failed}
use pbxpulse_agent.Relay.Publish.{is_claimed, adopt_claimed}
use pbxpulse_agent.Relay.Requests.{ask}

-- `{"id": …, "secret": …}`; no offer is `{}`.
pub record Offer : Type 0 where
  pub id : String
  pub secret : String

abbrev offer_of : Activation → Offer
offer_of a = record { id = a.id; secret = a.secret }

abbrev forget : RelayState → RelayState
forget s = record s { activation = none }

-- The parts of an answer to "/v1/activations".
unfoldable pub issued : (String → ℕ) → Fields → Activation
issued iso_timestamp r = record {
  id = Json.text_or r "activationId" "";
  secret = Json.text_or r "activationSecret" "";
  expires_at = iso_timestamp (Json.text_or r "expiresAt" "");
}

unfoldable pub after_issue : (String → ℕ) → Reply → RelayState → RelayState × Option Offer
unfolding issued
after_issue iso_timestamp (response r) s =
    let a = issued iso_timestamp r in
    if is_truthy a.id && is_truthy a.secret
    then (record s { activation = some a }, some (offer_of a))
    else (s, none)
after_issue iso_timestamp (refused status message) s = (s, none)
after_issue iso_timestamp failed s = (s, none)

unfoldable pub activation_payload : String → String → String → RelayState → Fields
activation_payload public_key display_name ticket s = field "publicKey" (str public_key) (
    field "displayName" (str display_name) (
      if is_truthy ticket && not (is_truthy s.agent_id)
      then field "enrollmentTicket" (str ticket) end
      else end))

-- What is done with a stored activation: it is offered again, or a new one is issued.
pub data Stored : Type 0 where
  keep renew : RelayState → Stored

unfoldable pub after_status : Reply → RelayState → Stored
after_status (response r) s =
    if is_claimed r
    then renew (adopt_claimed r s).0
    else if Json.truthy (Json.get r "expired")
    then renew (forget s)
    else keep s
after_status (refused status message) s = keep s
after_status failed s = keep s

-- An offer is the stored activation.
abbrev pub IsStored : RelayState × Option Offer → Type 0
IsStored (s, none) = Unit
IsStored (s, some o) =
    (a : Activation) × (s.activation ≡ some a)
    × (a.id ≡ o.id)
    × (a.secret ≡ o.secret)
    × (is_truthy o.id && is_truthy o.secret ≡ true)

abbrev pub result : {W : Type 0} → W × RelayState × Option Offer → RelayState × Option Offer
result (w, s, o) = (s, o)

module _ {W : Type 0} (request : W → String → Fields → W × Reply) (iso_timestamp : String → ℕ)
    (public_key : Option String) (display_name ticket : String) where
  -- The last part of `_activation_locked`.
  unfoldable pub issue : W → RelayState → Option String → W × RelayState × Option Offer
  issue w s none = (w, s, none)
  issue w s (some key) =
      let (w', reply) =
        request w "/v1/activations" (activation_payload key display_name ticket s) in
      let (s', offer) = after_issue iso_timestamp reply s in (w', s', offer)

  unfoldable pub keep_or_issue : W → Activation → Stored → W × RelayState × Option Offer
  keep_or_issue w a (keep s) = (w, s, some (offer_of a))
  keep_or_issue w a (renew s) = issue w s public_key

  unfoldable pub activation_stored :
      ℕ → W → RelayState → Option Activation → W × RelayState × Option Offer
  activation_stored now w s none = issue w s public_key
  activation_stored now w s (some a) =
      let (w', reply) = ask request w a in
      let asked = keep_or_issue w' a (after_status reply s) in
      let expired = issue w (forget s) public_key in
      let fresh = issue w s public_key in
      if not (is_truthy a.id && is_truthy a.secret)
      then fresh
      else if leb a.expires_at (now + 30 * second)
      then expired
      else asked

  -- `activation`, with `_activation_locked`
  unfoldable pub activation : String → ℕ → W → RelayState → W × RelayState × Option Offer
  activation url now w s =
      let found = activation_stored now w s s.activation in
      if is_truthy url then found else (w, s, none)

  after_issue-IsStored :
      (reply : Reply) (s : RelayState) → IsStored (after_issue iso_timestamp reply s)
  unfolding after_issue
  after_issue-IsStored (response r) s =
      let a = issued iso_timestamp r in
      elim (Bool-cases (is_truthy a.id && is_truthy a.secret)) [
        | inl e ↦ rw (e) (a, refl, refl, refl, e)
        | inr e ↦ rw (e) tt
      ]
  after_issue-IsStored (refused status message) s = tt
  after_issue-IsStored failed s = tt

  issue-IsStored :
      (w : W) (s : RelayState) (key : Option String) → IsStored (result (issue w s key))
  unfolding issue
  issue-IsStored w s none = tt
  issue-IsStored w s (some key) = after_issue-IsStored _ s

  keep_or_issue-IsStored :
      (w : W) (a : Activation) (reply : Reply) (s : RelayState)
      → s.activation ≡ some a
      → is_truthy a.id && is_truthy a.secret ≡ true
      → IsStored (result (keep_or_issue w a (after_status reply s)))
  unfolding keep_or_issue after_status
  keep_or_issue-IsStored w a (refused status message) s e h = (a, e, refl, refl, h)
  keep_or_issue-IsStored w a failed s e h = (a, e, refl, refl, h)
  keep_or_issue-IsStored w a (response r) s e h = elim (Bool-cases (is_claimed r)) [
    | inl claimed ↦ rw (claimed) (issue-IsStored w (adopt_claimed r s).0 public_key)
    | inr free ↦ elim (Bool-cases (Json.truthy (Json.get r "expired"))) [
      | inl old ↦ rw (free, old) (issue-IsStored w (forget s) public_key)
      | inr current ↦ rw (free, current) (a, e, refl, refl, h)
    ]
  ]

  activation_stored-IsStored :
      (now : ℕ) (w : W) (s : RelayState) (o : Option Activation)
      → s.activation ≡ o
      → IsStored (result (activation_stored now w s o))
  unfolding activation_stored
  activation_stored-IsStored now w s none e = issue-IsStored w s public_key
  activation_stored-IsStored now w s (some a) e =
      elim (Bool-cases (is_truthy a.id && is_truthy a.secret)) [
        | inr bad ↦ rw (bad) (issue-IsStored w s public_key)
        | inl good ↦ elim (Bool-cases (leb a.expires_at (now + 30 * second))) [
          | inl old ↦ rw (good, old) (issue-IsStored w (forget s) public_key)
          | inr current ↦
              rw (good, current)
                (keep_or_issue-IsStored (ask request w a).0 a (ask request w a).1 s e good)
        ]
      ]

  -- What the Agent offers for pairing is always the activation that it remembers, and has an id and
  -- a secret, whatever the relay server answers.
  pub activation-IsStored :
      (url : String) (now : ℕ) (w : W) (s : RelayState) → IsStored (result (activation url now w s))
  unfolding activation
  activation-IsStored url now w s = elim (Bool-cases (is_truthy url)) [
    | inl e ↦ rw (e) (activation_stored-IsStored now w s s.activation refl)
    | inr e ↦ rw (e) tt
  ]
