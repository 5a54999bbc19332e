-- ===== src/Server/Auth.antt =====
-- Who may call push_relay/app.py: `_json_body`, `_authenticate_agent`,
-- `_require_replay_protected_signature`, `_verify_public_key_request`, `_authenticate_relay_device`,
-- `_admin_authenticated` and `_require_admin`. Of the libraries, `loads` is `json.loads`, and
-- `verify` is whether a public key, a signature and a message agree, false
-- also where one of them cannot be decoded. A request has one clock reading.
use pbxpulse_agent.Prelude.{
  ℕ, ◌+◌, ◌*◌, ℤ, pos, negsuc, String, ◌≡◌, refl, Bool, false, not, ◌&&◌, Option, none, some, [],
  ◌∷◌, ◌==◌, if◌then◌else◌, concat, join, codes, is_truthy, strip, zero, suc, take_text, lower,
  upper_text, codes_eq, leb, int_of_text, ends_with,
}
use pbxpulse_agent.Prelude.Clock.{second}
use pbxpulse_agent.Json
use pbxpulse_agent.Json.{Json, Items, Fields, null, bool, num, str, arr, obj, end, field}
use pbxpulse_agent.Server.Store.{
  Firestore, Result, ok, refuse, Action, pure, ◌>>=◌, ◌>>◌, raise_if, lift, gets, run_if, time,
  is_before, update_doc, create_doc, agent_path, device_path,
}
use pbxpulse_agent.Server.Texts.{bounded_identifier, is_nonce}

-- The parts of an HTTP request that are read; a header that is missing is "".
pub record Request : Type 0 where
  pub method : String
  pub path : String
  pub raw : String
  -- the number of bytes of `raw`
  pub size : ℕ
  pub timestamp : String
  pub nonce : String
  pub signature : String
  pub signature_v2 : String
  pub authorization : String
  pub admin_header : String
  pub admin_cookie : String

-- What `json.loads` does with a body: a value, `JSONDecodeError`, or `UnicodeDecodeError`.
pub data Parsed : Type 0 where
  parsed : Json → Parsed
  not_json not_text : Parsed

-- The libraries and the settings of the process.
pub record Env : Type 0 where
  pub loads : String → Parsed
  pub hash : String → String
  pub verify : String → String → String → Bool
  pub is_public_key : String → Bool
  -- the number of bytes of a base64 text, where `none` is an error
  pub decoded_size : String → Option ℕ
  -- `datetime.isoformat`
  pub iso : ℕ → String
  -- the UTC day of a clock reading, and whether a text is a day
  pub date : ℕ → String
  pub is_date : String → Bool
  pub max_devices : ℕ
  pub max_snapshot_bytes : ℕ
  pub max_events : ℕ
  pub admin_token : String
  -- "closed", "ticket" or open
  pub enrollment_mode : String
  pub signed_existing : Bool
  pub ticket_secret : String
  -- the HMAC with that secret, in base64; and base64 of a text and back, where `none` is an error
  pub mac : String → String
  pub encode : String → String
  pub decode : String → Option String

-- The JSON object of a body, after `json.loads`; `undecoded` is the end where the body is no text.
unfoldable pub object_body : Result Fields → Parsed → Result Fields
object_body undecoded not_text = undecoded
object_body undecoded not_json = refuse 400 "JSON body required"
object_body undecoded (parsed (obj d)) = ok d
object_body undecoded (parsed null) = refuse 400 "JSON object required"
object_body undecoded (parsed (bool b)) = refuse 400 "JSON object required"
object_body undecoded (parsed (num n)) = refuse 400 "JSON object required"
object_body undecoded (parsed (str s)) = refuse 400 "JSON object required"
object_body undecoded (parsed (arr l)) = refuse 400 "JSON object required"

-- `abs(time.time() - issued_at) > 300` does not hold.
unfoldable pub is_recent : ℕ → ℤ → Bool
is_recent now (pos n) = leb (n * second) (now + 300 * second) && leb now (n * second + 300 * second)
is_recent now (negsuc n) = leb (now + (n + 1) * second) (300 * second)

unfoldable pub check_recent : ℕ → Option ℤ → String → String → Result (Unit {0})
check_recent now none invalid expired = refuse 401 invalid
check_recent now (some issued) invalid expired =
    if is_recent now issued then ok tt else refuse 401 expired

-- The check of a signature by the stored key; a missing one fails it.
unfoldable pub verifies : Env → Json → String → String → Bool
verifies env (str key) signature message = env.verify key signature message
verifies env null signature message = false
verifies env (bool b) signature message = false
verifies env (num n) signature message = false
verifies env (arr l) signature message = false
verifies env (obj d) signature message = false

-- `f"{timestamp}\n{request.url.path}\n"` and the body
unfoldable pub signed_message : Request → String
signed_message r = concat (r.timestamp ∷ "\n" ∷ r.path ∷ "\n" ∷ r.raw ∷ [])

-- The message of the second signature; an HTTP method has ASCII characters only.
unfoldable pub protected_message : Env → Request → String
protected_message env r =
    join "\n" (r.timestamp ∷ r.nonce ∷ upper_text r.method ∷ r.path ∷ env.hash r.raw ∷ [])

-- The Agent of a document that exists.
unfoldable pub check_agent : Option Fields → Result Fields
check_agent none = refuse 401 "Unknown Agent"
check_agent (some agent) =
    if Json.truthy (Json.get agent "revoked") then refuse 401 "Agent has been revoked" else ok agent

-- `supplied[7:].strip() if supplied.lower().startswith("bearer ") else ""`
skip : ℕ → String → String
skip zero s = s
skip (suc n) String.[] = ""
skip (suc n) (String.◌∷◌ c s) = skip n s

unfoldable pub bearer_token : String → String
unfolding skip
bearer_token supplied =
    if codes_eq (lower (take_text 7 supplied)) (codes "bearer ")
    then strip (skip 7 supplied)
    else ""

bearer_token_lem : bearer_token "Bearer  t1 " ≡ "t1"
unfolding bearer_token take_text lower strip codes_eq
bearer_token_lem = refl

module _ (env : Env) where
  -- `_json_body`
  unfoldable pub json_body : Request → Result Fields
  json_body r =
      if leb (64 * 1024 + 1) r.size
      then refuse 413 "Request body is too large"
      else object_body (refuse 400 "JSON body required") (env.loads r.raw)

  -- `_verify_public_key_request`
  unfoldable pub verify_public_key_request : ℕ → String → Request → Result (Unit {0})
  verify_public_key_request now public_key r =
      elim (check_recent now (int_of_text r.timestamp) "Signed activation request required"
        "Expired activation request") [
          | refuse status detail ↦ refuse status detail
          | ok _ ↦
              if env.verify public_key r.signature (signed_message r)
              then ok tt
              else refuse 401 "Invalid activation signature"
        ]

  -- `_admin_authenticated`
  unfoldable pub admin_authenticated : Request → Bool
  admin_authenticated r =
      let supplied = if is_truthy r.admin_header then r.admin_header else r.admin_cookie in
      is_truthy env.admin_token && supplied == env.admin_token

  -- `_require_admin`
  unfoldable pub require_admin : Request → Result (Unit {0})
  require_admin r =
      if is_truthy env.admin_token && r.admin_header == env.admin_token
      then ok tt
      else refuse 401 "Relay administrator token required"

  -- The object of an Agent's request.
  unfoldable pub agent_body : Request → Result Fields
  agent_body r =
      let max_bytes =
        if ends_with r.path "/secure/snapshots" then env.max_snapshot_bytes else 1024 * 1024 in
      if leb (max_bytes + 1) r.size
      then refuse 413 "Request body is too large"
      else object_body (refuse 500 "Internal Server Error") (env.loads r.raw)

  module _ (fs : Firestore) where
    open fs use {Db, get}

    -- `_authenticate_agent`
    unfoldable pub authenticate_agent : ℕ → Bool → String → Request → Action Db (Fields × Fields)
    authenticate_agent now touch_presence raw_id r =
        lift (bounded_identifier (str raw_id) "agentId") >>= λ agent_id.
        lift (agent_body r) >>= λ body. gets (λ d. get d (agent_path agent_id)) >>= λ found.
        lift (check_agent found) >>= λ agent.
        lift (
          check_recent now (int_of_text r.timestamp) "Invalid request timestamp"
            "Expired signed request")
        >> raise_if (not (verifies env (Json.get agent "publicKey") r.signature (signed_message r)))
            401 "Invalid Agent signature"
        >> run_if touch_presence
            (update_doc fs (agent_path agent_id) (field "lastSeenAt" (time now) end))
        >> pure (body, agent)

    unfoldable pub nonce_path : String → String → String
    nonce_path agent_id nonce = concat ("agents/" ∷ agent_id ∷ "/secureNonces/" ∷ nonce ∷ [])

    -- `_require_replay_protected_signature`
    unfoldable pub require_replay_protected_signature :
        ℕ → String → Fields → Request → Action Db (Unit {0})
    unfolding nonce_path
    require_replay_protected_signature now agent_id agent r =
        raise_if (not (is_nonce r.nonce)) 401 "Invalid secure request nonce"
        >> raise_if
            (not
              (verifies env (Json.get agent "publicKey") r.signature_v2 (protected_message env r)))
            401 "Invalid secure Agent signature"
        >> (create_doc fs (nonce_path agent_id r.nonce)
              (field "createdAt" (time now) (field "expiresAt" (time (now + 600 * second)) end))
            >>= λ new. raise_if (not new) 409 "Replayed secure Agent request")

    unfoldable pub check_device : ℕ → Option Fields → Result Fields
    check_device now none = refuse 401 "Unknown device"
    check_device now (some device) =
        if is_before now (Json.get device "expiresAt")
        then refuse 401 "Device credential expired"
        else ok device

    -- The app's bearer token is the one whose hash the document has.
    unfoldable pub has_credential : Fields → Request → Bool
    has_credential device r =
        let token = bearer_token r.authorization in
        let expected = Json.text_or device "accessTokenHash" "" in
        is_truthy token && is_truthy expected && env.hash token == expected

    -- `_authenticate_relay_device`: the document's reference by its two ids, and the document
    unfoldable pub authenticate_relay_device :
        ℕ → String → String → Request → Action Db (String × String × Fields)
    authenticate_relay_device now raw_agent_id raw_device_id r =
        lift (bounded_identifier (str raw_agent_id) "agentId") >>= λ agent_id.
        lift (bounded_identifier (str raw_device_id) "deviceId") >>= λ device_id.
        gets (λ d. get d (device_path agent_id device_id)) >>= λ found.
        lift (check_device now found) >>= λ device.
        raise_if (not (has_credential device r)) 401 "Invalid device credential"
        >> pure (agent_id, device_id, device)
