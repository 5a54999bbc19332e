-- ===== src/Server/Tickets.antt =====
-- Enrollment tickets of push_relay/app.py: `create_enrollment_ticket`, `_sign_enrollment_ticket` and
-- `_verify_enrollment_ticket`.
use pbxpulse_agent.Prelude.{
  ℕ, ◌+◌, ◌*◌, ◌/◌, ℤ, pos, negsuc, String, Option, none, some, List, [], ◌∷◌, ◌==◌, if◌then◌else◌,
  concat, join, split, is_truthy, leb,
}
use pbxpulse_agent.Prelude.Clock.{second}
use pbxpulse_agent.Json
use pbxpulse_agent.Json.{Json, Items, Fields, null, bool, num, str, arr, obj, end, field}
use pbxpulse_agent.Server.Store.{Result, ok, refuse}
use pbxpulse_agent.Server.Texts.{bounded_identifier}
use pbxpulse_agent.Server.Auth.{
  Env, Request, Parsed, parsed, not_json, not_text, json_body, require_admin,
}

-- What a ticket says; the time is in seconds.
pub record Ticket : Type 0 where
  pub id : String
  pub account_id : String
  pub expires_at : ℕ

-- The JSON of a ticket, by its sorted keys.
unfoldable pub ticket_payload : Ticket → Json
ticket_payload t = obj (
    field "accountId" (str t.account_id)
      (field "expiresAt" (num (pos t.expires_at)) (field "id" (str t.id) end)))

-- `max(5, min(24 * 60, lifetime_minutes))`
unfoldable pub lifetime : ℤ → ℕ
lifetime (pos n) = if leb n 5 then 5 else if leb (24 * 60) n then 24 * 60 else n
lifetime (negsuc n) = 5

unfoldable pub check_expiry : ℕ → String → String → Option ℤ → Result Ticket
check_expiry now id account_id none = refuse 401 "Invalid enrollment ticket"
check_expiry now id account_id (some (negsuc n)) = refuse 401 "Enrollment ticket expired"
check_expiry now id account_id (some (pos n)) =
    if leb n (now / second)
    then refuse 401 "Enrollment ticket expired"
    else ok (record { id = id; account_id = account_id; expires_at = n })

-- The fields of a payload whose signature is right.
unfoldable pub check_fields : ℕ → Fields → Result Ticket
check_fields now d = elim (bounded_identifier (Json.get d "id") "ticketId") [
  | refuse status detail ↦ refuse status detail
  | ok id ↦ elim (bounded_identifier (Json.get d "accountId") "accountId") [
    | refuse status detail ↦ refuse status detail
    | ok account_id ↦
        check_expiry now id account_id
          (Json.to_int (if Json.has d "expiresAt" then Json.get d "expiresAt" else num (pos 0)))
  ]
]

-- A payload that is no object has no `get`, and that error is not caught.
unfoldable pub check_payload : ℕ → Option Json → Result Ticket
check_payload now none = refuse 401 "Invalid enrollment ticket"
check_payload now (some (obj d)) = check_fields now d
check_payload now (some null) = refuse 500 "Internal Server Error"
check_payload now (some (bool b)) = refuse 500 "Internal Server Error"
check_payload now (some (num n)) = refuse 500 "Internal Server Error"
check_payload now (some (str s)) = refuse 500 "Internal Server Error"
check_payload now (some (arr l)) = refuse 500 "Internal Server Error"

unfoldable pub value_of : Parsed → Option Json
value_of (parsed v) = some v
value_of not_json = none
value_of not_text = none

unfoldable pub loaded : (String → Parsed) → Option String → Option Json
unfolding value_of
loaded loads none = none
loaded loads (some s) = value_of (loads s)

-- The parts of `ticket.split(".", 1)`, where `none` is an error
unfoldable pub ticket_parts : List String → Option (String × String)
ticket_parts [] = none
ticket_parts (a ∷ []) = none
ticket_parts (a ∷ b ∷ l) = some (a, join "." (b ∷ l))

module _ (env : Env) where
  -- `_sign_enrollment_ticket`
  unfoldable pub sign_enrollment_ticket : Ticket → Result String
  sign_enrollment_ticket t =
      let encoded = env.encode (Json.dumps (ticket_payload t)) in
      if is_truthy env.ticket_secret
      then ok (concat (encoded ∷ "." ∷ env.mac encoded ∷ []))
      else refuse 503 "Enrollment ticket signing is unavailable"

  unfoldable pub check_parts : ℕ → Option (String × String) → Result Ticket
  check_parts now none = refuse 401 "Invalid enrollment ticket"
  check_parts now (some (encoded, supplied)) =
      if supplied == env.mac encoded
      then check_payload now (loaded env.loads (env.decode encoded))
      else refuse 401 "Invalid enrollment ticket"

  -- `_verify_enrollment_ticket`
  unfoldable pub verify_enrollment_ticket : ℕ → String → Result Ticket
  verify_enrollment_ticket now ticket =
      if is_truthy env.ticket_secret
      then check_parts now (ticket_parts (split b'.' ticket))
      else refuse 503 "Enrollment ticket validation is unavailable"

  new_ticket : ℕ → String → String → Option ℤ → Result (String × ℕ)
  new_ticket now id account_id none = refuse 500 "Internal Server Error"
  new_ticket now id account_id (some n) =
      let expires_at = now / second + lifetime n * 60 in
      elim (sign_enrollment_ticket
        (record { id = id; account_id = account_id; expires_at = expires_at })) [
          | refuse status detail ↦ refuse status detail
          | ok ticket ↦ ok (ticket, expires_at)
        ]

  -- `create_enrollment_ticket`, with the random id: the ticket and when it expires
  unfoldable pub create_enrollment_ticket : ℕ → String → Request → Result (String × ℕ)
  unfolding new_ticket
  create_enrollment_ticket now id r = elim (require_admin env r) [
    | refuse status detail ↦ refuse status detail
    | ok _ ↦ elim (json_body env r) [
      | refuse status detail ↦ refuse status detail
      | ok body ↦ elim (bounded_identifier (Json.get body "accountId") "accountId") [
        | refuse status detail ↦ refuse status detail
        | ok account_id ↦ new_ticket now id account_id (
            Json.to_int (
              if Json.has body "lifetimeMinutes"
              then Json.get body "lifetimeMinutes"
              else num (pos 30)))
      ]
    ]
  ]
