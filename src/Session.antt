-- ===== src/Session.antt =====
-- `SecureInternetRelay` of pbxsense_agent/internet_relay.py. A clock reading is in microseconds. The
-- exchange with the relay server and the publication of a snapshot are parameters: from a state of
-- the world to the state afterwards and what they return or raise.
pub mod Commands
use pbxpulse_agent.Prelude.{
  ℕ, ◌+◌, ◌*◌, ◌/◌, ℤ, pos, negsuc, String, Bool, true, false, not, ◌&&◌, ◌||◌, Option, none, some,
  List, [], ◌∷◌, ◌++◌, ◌==◌, leb, ltb, nat_eq, if◌then◌else◌, length, take, take_text, codes,
  int_of_text,
}
use pbxpulse_agent.Json
use pbxpulse_agent.Json.{Json, Items, Fields, null, bool, num, str, arr, obj, nil, cons}

-- The answer to a command, with the command's id.
pub data Response : Type 0 where
  pong unsupported : String → Response

pub record Session : Type 0 where
  pub enabled : Bool
  pub pending_responses : List Response
  pub connected : Bool
  -- 0 before the first exchange
  pub last_exchange_at : ℕ
  pub last_error : String
  pub control_exchange_seconds : ℕ

unfoldable pub init : Bool → Session
init enabled = record {
  enabled = enabled;
  pending_responses = [];
  connected = false;
  last_exchange_at = 0;
  last_error = "";
  control_exchange_seconds = 300;
}

-- `_integer`
unfoldable pub integer : Json → ℤ
integer (num n) = n
integer (bool b) = if b then pos 1 else pos 0
integer (str s) = elim (int_of_text s) [ some n ↦ n | none ↦ pos 0 ]
integer null = pos 0
integer (arr l) = pos 0
integer (obj d) = pos 0

is_id_code : ℕ → Bool
is_id_code c =
    (leb b'A' c && leb c b'Z')
    || (leb b'a' c && leb c b'z')
    || (leb b'0' c && leb c b'9')
    || nat_eq c b'_'
    || nat_eq c b'-'

all_codes : List ℕ → Bool
all_codes [] = true
all_codes (c ∷ s) = is_id_code c && all_codes s

-- `_COMMAND_ID.fullmatch`
unfoldable pub is_command_id : String → Bool
unfolding is_id_code all_codes
is_command_id id = leb 1 (length (codes id)) && leb (length (codes id)) 96 && all_codes (codes id)

-- `expires_at < now`
unfoldable pub is_expired : ℤ → ℕ → Bool
is_expired (pos n) now = ltb n now
is_expired (negsuc n) now = true

-- What one command adds to the pending responses; `now` is in whole seconds.
unfoldable pub response_to : ℕ → Json → List Response
response_to now (obj raw) =
    let id = Json.text_or raw "id" "" in
    if not (is_command_id id) || is_expired (integer (Json.get raw "expiresAt")) now
    then []
    else if Json.text_or raw "type" "" == "ping"
    then pong id ∷ []
    else unsupported id ∷ []
response_to now null = []
response_to now (bool b) = []
response_to now (num n) = []
response_to now (str s) = []
response_to now (arr l) = []

unfoldable pub responses_to : ℕ → Items → List Response
responses_to now nil = []
responses_to now (cons raw l) = response_to now raw ++ responses_to now l

unfoldable pub count : Items → ℕ
count nil = 0
count (cons raw l) = 1 + count l

-- What a step raises, or the session after it.
pub data Outcome : Type 0 where
  done : Session → Outcome
  raised : String → Outcome

-- `_accept_commands`
unfoldable pub accept_commands : ℕ → Json → Session → Outcome
accept_commands now (arr raw) s =
    if leb 21 (count raw)
    then raised "Secure relay returned too many commands"
    else done (record s { pending_responses = s.pending_responses ++ responses_to now raw })
accept_commands now null s = raised "Secure relay commands must be a list"
accept_commands now (bool b) s = raised "Secure relay commands must be a list"
accept_commands now (num n) s = raised "Secure relay commands must be a list"
accept_commands now (str t) s = raised "Secure relay commands must be a list"
accept_commands now (obj d) s = raised "Secure relay commands must be a list"

unfoldable pub with_seconds : ℤ → Session → Session
with_seconds (pos n) s =
    if leb 60 n && leb n 900 then record s { control_exchange_seconds = n } else s
with_seconds (negsuc n) s = s

-- `_accept_policy`
unfoldable pub accept_policy : Json → Session → Session
accept_policy (obj policy) s = with_seconds (integer (Json.get policy "controlExchangeSeconds")) s
accept_policy null s = s
accept_policy (bool b) s = s
accept_policy (num n) s = s
accept_policy (str t) s = s
accept_policy (arr l) s = s

-- `_exchange` returns an object, which `_accept_commands` reads at a time in whole seconds, or raises
-- one of the errors that `poll` catches.
pub data Exchanged : Type 0 where
  result : ℕ → Fields → Exchanged
  error : String → Exchanged

-- `result.get("commands", [])`
abbrev pub commands_of : Fields → Json
commands_of r = if Json.has r "commands" then Json.get r "commands" else arr nil

-- The rest of the exchange, once the server has answered: the session, and what was raised.
unfoldable pub after_commands : ℕ → Fields → Session → Outcome → Session × Option String
after_commands now r sent (raised message) = (sent, some message)
after_commands now r sent (done s) =
    (record (accept_policy (Json.get r "policy") s) { last_exchange_at = now }, none)

unfoldable pub after_exchange : ℕ → Exchanged → Session → Session × Option String
after_exchange now (error message) s = (s, some message)
after_exchange now (result received r) s =
    let sent = record s { pending_responses = [] } in
    after_commands now r sent (accept_commands received (commands_of r) sent)

unfoldable pub is_due : ℕ → Session → Bool
is_due now s =
    nat_eq s.last_exchange_at 0
    || leb (s.last_exchange_at + s.control_exchange_seconds * 1000000) now
    || leb 1 (length s.pending_responses)

unfoldable pub fail : String → Session → Session
fail message s = record s { connected = false; last_error = take_text 240 message }

unfoldable pub succeed : Session → Session
succeed s = record s { connected = true; last_error = "" }

-- The end of a poll, with what the last step has raised.
unfoldable pub settle {ℓ} : {W : Type ℓ} → W → Session → Option String → W × Session
settle w s none = (w, succeed s)
settle w s (some message) = (w, fail message s)

-- Both callables together, if they are there; the publisher returns what it raises.
unfoldable pub publish_step {ℓ} :
    {W : Type ℓ} → Option (W → W × Option String) → W → Session → W × Session
publish_step none w s = settle w s none
publish_step (some f) w s = settle (f w).0 s (f w).1

module _ {W : Type 0} (exchange : W → List Response → W × Exchanged)
    (publish : Option (W → W × Option String)) where
  unfoldable pub exchange_step : ℕ → W → Session → W × Session × Option String
  exchange_step now w s =
      let (w', reply) = exchange w (take 20 s.pending_responses) in
      let (s', problem) = after_exchange now reply s in
      if is_due now s then (w', s', problem) else (w, s, none)

  unfoldable pub finish : W → Session → Option String → W × Session
  finish w s (some message) = settle w s (some message)
  finish w s none = publish_step publish w s

  unfoldable pub poll : ℕ → W → Session → W × Session
  poll now w s =
      let (w', s', problem) = exchange_step now w s in
      let polled = finish w' s' problem in if s.enabled then polled else (w, s)
