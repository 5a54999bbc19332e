-- ===== src/Server/Exchange.antt =====
-- An Agent's session in push_relay/app.py: `heartbeat`, `secure_exchange`,
-- `queue_secure_ping` and `sweep_agent_heartbeats`. The answers hold what the state decides, without
-- the constants of `_relay_policy`. The commands of a query come in the order of the collection.
use pbxpulse_agent.Prelude.{
  ℕ, ◌+◌, ◌*◌, ◌-◌, ◌/◌, pos, negsuc, String, Bool, true, false, not, ◌&&◌, ◌||◌, Option, none,
  some, List, [], ◌∷◌, if◌then◌else◌, concat, is_truthy, leb, keep, take, take_text,
}
use pbxpulse_agent.Prelude.Clock.{second}
use pbxpulse_agent.Json
use pbxpulse_agent.Json.{Json, Items, Fields, null, bool, num, str, arr, obj, nil, cons, end, field}
use pbxpulse_agent.Server.Store.{
  Firestore, Message, Result, ok, refuse, Action, pure, ◌>>=◌, ◌>>◌, raise_if, lift, gets, run_if,
  time, time_of, is_from, is_before, merge_doc, update_doc, create_doc, agent_path, device_path,
}
use pbxpulse_agent.Server.Texts.{optional_text, bounded_identifier, optional_identifier}
use pbxpulse_agent.Server.Usage.{usage_update, update_counted}
use pbxpulse_agent.Server.Auth.{
  Env, Request, authenticate_agent, require_replay_protected_signature, require_admin,
}
use pbxpulse_agent.Server.Events.{Delivery, send_agent_status}

-- `AGENT_LOSS_TIMEOUT_SECONDS`
abbrev pub loss_timeout : ℕ
loss_timeout = 90 * second

-- A command for the Agent; it expires at a number of seconds.
pub record Command : Type 0 where
  pub id : String
  pub type_name : String
  pub expires_at : ℕ

unfoldable pub commands_path : String → String
commands_path agent_id = concat (agent_path agent_id ∷ "/secureCommands" ∷ [])

unfoldable pub command_path : String → String → String
command_path agent_id id = concat (agent_path agent_id ∷ "/secureCommands/" ∷ id ∷ [])

unfoldable pub latest_path : String → String → String
latest_path agent_id device_id =
    concat (device_path agent_id device_id ∷ "/secureSnapshots/latest" ∷ [])

-- A list of at most twenty values.
items_length : Items → ℕ
items_length nil = 0
items_length (cons x l) = items_length l + 1

unfoldable pub bounded_list : Json → String → Result Items
unfolding items_length
bounded_list (arr l) detail = if leb (items_length l) 20 then ok l else refuse 400 detail
bounded_list null detail = refuse 400 detail
bounded_list (bool b) detail = refuse 400 detail
bounded_list (num n) detail = refuse 400 detail
bounded_list (str s) detail = refuse 400 detail
bounded_list (obj d) detail = refuse 400 detail

abbrev pub list_or : Fields → String → Json
list_or d k = if Json.has d k then Json.get d k else arr nil

unfoldable pub identifiers : Items → Result Items
identifiers nil = ok nil
identifiers (cons x l) =
    let rest = identifiers l in
    elim (bounded_identifier x "capability") [
      | refuse status detail ↦ refuse status detail
      | ok id ↦ elim rest [
        | refuse status detail ↦ refuse status detail
        | ok ids ↦ ok (cons (str id) ids)
      ]
    ]

-- `body.get("protocolVersion") != 1` does not hold; in Python `True` is 1.
unfoldable pub is_protocol : Json → Bool
is_protocol (num (pos n)) = leb 1 n && leb n 1
is_protocol (num (negsuc n)) = false
is_protocol (bool b) = b
is_protocol null = false
is_protocol (str s) = false
is_protocol (arr l) = false
is_protocol (obj d) = false

-- A command still to be delivered, if it is one.
unfoldable pub command_of : String → Fields → Option ℕ → Option Command
command_of id command none = none
command_of id command (some t) =
    let type_name = optional_identifier (Json.get command "type") in
    if is_truthy type_name
    then some (record { id = id; type_name = type_name; expires_at = t / second })
    else none

unfoldable pub is_queued : String × Fields → Bool
is_queued (id, command) = Json.is_str "queued" (Json.get command "state")

unfoldable pub cons_command : Option Command → List Command → List Command
cons_command none l = l
cons_command (some c) l = c ∷ l

-- `snapshot.exists` and not revoked
unfoldable pub exists_live : Option Fields → Bool
exists_live none = false
exists_live (some agent) = not (Json.truthy (Json.get agent "revoked"))

-- What a response adds to its command's document.
unfoldable pub response_record : ℕ → Fields → Fields
response_record now d = field "state" (str "completed") (
    field "responseStatus" (str (take_text 32 (optional_text (Json.get d "status") 120))) (
      field "responseKind" (str (take_text 32 (optional_text (Json.get d "kind") 120)))
        (field "completedAt" (time now) end)))

-- What a queued command's document gets, if anything.
unfoldable pub command_mark : ℕ → String → Bool → Option Command → Option Fields
command_mark now session_id false c = some (field "state" (str "expired") end)
command_mark now session_id true none = none
command_mark now session_id true (some c) =
    some (field "deliveredAt" (time now) (field "sessionId" (str session_id) end))

-- `isinstance(expires_at, datetime)` and `expires_at > now`
unfoldable pub is_live : ℕ → Fields → Bool
is_live now command = is_from (now + 1) (Json.get command "expiresAt")

-- The Agents whose loss is still to be told: `lastSeenAt` before the cutoff, not revoked and not
-- lost already.
unfoldable pub is_newly_lost : ℕ → Fields → Bool
is_newly_lost now agent =
    is_before (now - loss_timeout) (Json.get agent "lastSeenAt")
    && not (Json.truthy (Json.get agent "revoked") || Json.truthy (Json.get agent "lostAt"))

module _ (fs : Firestore) (env : Env) (fcm : List Message → Message → Option (List Delivery)) where
  open fs use {Db, get, stream}

  -- `heartbeat`
  unfoldable pub heartbeat : ℕ → String → Request → Action Db (Unit {0})
  heartbeat now agent_id r = authenticate_agent env fs now false agent_id r >>= λ found.
      run_if (Json.truthy (Json.get found.1 "lostAt")) (
        send_agent_status fs env fcm now agent_id "PBXSense Agent is reachable again."
          "Live PBX updates have resumed.")
      >> (usage_update fs env.hash env.date env.is_date now (agent_path agent_id) found.1 "agent"
            agent_id (("heartbeats", 1) ∷ [])
          >>= λ usage.
              update_counted fs env.hash env.date env.is_date (agent_path agent_id)
                (field "lastSeenAt" (time now) (field "lostAt" null end)) usage)

  -- The Agent's responses, each to the command that it names.
  unfoldable pub record_responses : ℕ → String → Items → Action Db (Unit {0})
  record_responses now agent_id nil = pure tt
  record_responses now agent_id (cons (obj d) l) =
      let id = optional_identifier (Json.get d "id") in
      run_if (is_truthy id) (merge_doc fs (command_path agent_id id) (response_record now d))
      >> record_responses now agent_id l
  record_responses now agent_id (cons null l) = record_responses now agent_id l
  record_responses now agent_id (cons (bool b) l) = record_responses now agent_id l
  record_responses now agent_id (cons (num n) l) = record_responses now agent_id l
  record_responses now agent_id (cons (str s) l) = record_responses now agent_id l
  record_responses now agent_id (cons (arr x) l) = record_responses now agent_id l

  unfoldable pub mark_command : String → Option Fields → Action Db (Unit {0})
  mark_command path none = pure tt
  mark_command path (some fields) = merge_doc fs path fields

  unfoldable pub deliver_commands :
      ℕ → String → String → List (String × Fields) → Action Db (List Command)
  deliver_commands now agent_id session_id [] = pure []
  deliver_commands now agent_id session_id ((id, command) ∷ l) =
      let live = is_live now command in
      let c =
        if live then command_of id command (time_of (Json.get command "expiresAt")) else none in
      mark_command (command_path agent_id id) (command_mark now session_id live c)
      >> (deliver_commands now agent_id session_id l >>= λ rest. pure (cons_command c rest))

  -- The part of `secure_exchange` with the request checked.
  unfoldable pub exchange : ℕ → String → Fields → String → Items → Items → Action Db (List Command)
  exchange now agent_id agent session_id capabilities responses =
      usage_update fs env.hash env.date env.is_date now (agent_path agent_id) agent "agent" agent_id
        (("controlExchanges", 1) ∷ [])
      >>= λ usage.
          update_counted fs env.hash env.date env.is_date (agent_path agent_id)
            (field "secureRelaySessionId" (str session_id) (
              field "secureRelayProtocolVersion" (num (pos 1)) (
                field "secureRelayCapabilities" (arr capabilities)
                  (field "secureRelayLastSeenAt" (time now) end))))
            usage
          >> record_responses now agent_id responses
          >> (gets (λ d. take 20 (keep is_queued (stream d (commands_path agent_id)))) >>= λ queued.
              deliver_commands now agent_id session_id queued)

  -- `secure_exchange`
  unfoldable pub secure_exchange : ℕ → String → Request → Action Db (List Command)
  secure_exchange now agent_id r = authenticate_agent env fs now false agent_id r >>= λ found.
      require_replay_protected_signature env fs now agent_id found.1 r
      >> raise_if (not (is_protocol (Json.get found.0 "protocolVersion"))) 400
          "Unsupported secure relay protocol"
      >> (lift (bounded_identifier (Json.get found.0 "sessionId") "sessionId") >>= λ session_id.
          lift (bounded_list (list_or found.0 "capabilities") "Invalid capabilities")
          >>= λ capabilities.
              lift (bounded_list (list_or found.0 "responses") "Invalid responses") >>= λ responses.
              lift (identifiers capabilities) >>= λ safe.
              exchange now agent_id found.1 session_id safe responses)

  -- `queue_secure_ping`, with the random id of the command
  unfoldable pub queue_secure_ping : ℕ → String → String → Request → Action Db String
  queue_secure_ping now command_id agent_id r =
      lift (require_admin env r)
      >> (gets (λ d. get d (agent_path agent_id)) >>= λ found.
          raise_if (not (exists_live found)) 404 "Unknown Agent"
          >> (create_doc fs (command_path agent_id command_id) (
                field "type" (str "ping") (
                  field "state" (str "queued") (
                    field "createdAt" (time now)
                      (field "expiresAt" (time (now + 60 * second)) end))))
              >>= λ new. raise_if (not new) 500 "Internal Server Error" >> pure command_id))

  unfoldable pub sweep : ℕ → List (String × Fields) → Action Db ℕ
  sweep now [] = pure 0
  sweep now ((id, agent) ∷ l) =
      let lost = is_newly_lost now agent in
      run_if lost (
        send_agent_status fs env fcm now id "PBXSense lost the Agent."
          "Live PBX updates are paused until the Agent is reachable again."
        >> update_doc fs (agent_path id) (field "lostAt" (time now) end))
      >> (sweep now l >>= λ n. pure (if lost then n + 1 else n))

  -- `sweep_agent_heartbeats`
  unfoldable pub sweep_agent_heartbeats : ℕ → Request → Action Db ℕ
  sweep_agent_heartbeats now r =
      lift (require_admin env r) >> (gets (λ d. stream d "agents") >>= sweep now)
