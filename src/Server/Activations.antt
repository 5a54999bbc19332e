-- ===== src/Server/Activations.antt =====
-- Enrollment in push_relay/app.py: `create_activation`, `claim_activation`, `_create_relay_device`
-- and `activation_status`. What is random is an argument. `agent_by_key` is the query for the first Agent with a public key.
use pbxpulse_agent.Prelude.{
  ℕ, ◌+◌, ◌*◌, String, Bool, true, false, not, ◌&&◌, Option, none, some, [], ◌∷◌, ◌==◌,
  if◌then◌else◌, concat, is_truthy, leb, is_some,
}
use pbxpulse_agent.Prelude.Clock.{second}
use pbxpulse_agent.Json
use pbxpulse_agent.Json.{Json, Items, Fields, null, bool, num, str, arr, obj, nil, cons, end, field}
use pbxpulse_agent.Server.Store.{
  Firestore, Result, ok, refuse, Action, pure, ◌>>=◌, ◌>>◌, raise_if, lift, gets, modify, exists,
  time, is_from, is_before, fields_or, update_doc, create_doc, agent_path, device_path,
}
use pbxpulse_agent.Server.Texts.{bounded_text, optional_text}
use pbxpulse_agent.Server.Usage.{day}
use pbxpulse_agent.Server.Auth.{Env, Request, json_body, verify_public_key_request}
use pbxpulse_agent.Server.Tickets.{Ticket, verify_enrollment_ticket}
use pbxpulse_agent.Server.Registrations.{require_device_capacity, optional_key}

-- A document with its id.
abbrev pub Found : Type 0
Found = Option (String × Fields)

-- What an activation and a claim make up.
pub record Secrets : Type 0 where
  pub activation_id : String
  pub activation_secret : String
  pub device_id : String
  pub access_token : String
  pub site_id : String
  pub agent_id : String

pub record Claimed : Type 0 where
  pub claimed_agent_id : String
  pub claimed_site_id : String
  pub claimed_device_id : String
  pub device_access_token : String

unfoldable pub activation_path : String → String
activation_path id = concat ("activations/" ∷ id ∷ [])

unfoldable pub ticket_path : String → String
ticket_path id = concat ("enrollmentTickets/" ∷ id ∷ [])

-- The fields that a ticket adds to an activation.
unfoldable pub ticket_fields : Option Ticket → Fields
ticket_fields none = end
ticket_fields (some t) = field "enrollmentTicketId" (str t.id) (
    field "accountId" (str t.account_id)
      (field "enrollmentTicketExpiresAt" (time (t.expires_at * second)) end))

-- `isinstance(expires_at, datetime)` and `expires_at >= now`
unfoldable pub is_claimable : ℕ → String → Fields → Bool
is_claimable now digest activation =
    Json.text_or activation "secretHash" "" == digest
    && not (Json.truthy (Json.get activation "claimedAt"))
    && is_from now (Json.get activation "expiresAt")

-- The account of an activation, for the new Agent.
unfoldable pub account_fields : Fields → Fields
account_fields activation =
    if Json.truthy (Json.get activation "accountId")
    then field "accountId" (Json.get activation "accountId") end
    else end

module _ (fs : Firestore) (env : Env) (agent_by_key : fs.Db → Json → Found) where
  open fs use {Db, get}

  -- The ticket that a new activation needs, if it needs one.
  unfoldable pub check_enrollment : ℕ → String → Bool → Fields → Request → Result (Option Ticket)
  check_enrollment now public_key known body r =
      if known && env.signed_existing
      then elim (verify_public_key_request env now public_key r) [
        | ok _ ↦ ok none
        | refuse status detail ↦ refuse status detail
      ]
      else if env.enrollment_mode == "closed"
      then refuse 503 "New relay enrollment is paused"
      else if env.enrollment_mode == "ticket"
      then elim (bounded_text (Json.get body "enrollmentTicket") "enrollmentTicket" 2048) [
        | refuse status detail ↦ refuse status detail
        | ok ticket ↦ elim (verify_enrollment_ticket env now ticket) [
          | refuse status detail ↦ refuse status detail
          | ok payload ↦ ok (some payload)
        ]
      ]
      else ok none

  -- The document of a new activation.
  unfoldable pub new_activation : ℕ → Secrets → String → String → Option Ticket → Fields
  new_activation now x public_key display_name ticket =
      field "secretHash" (str (env.hash x.activation_secret)) (
        field "publicKey" (str public_key) (
          field "displayName" (str display_name) (
            field "expiresAt" (time (now + 600 * second))
              (field "claimedAt" null (ticket_fields ticket)))))

  -- `create_activation`; where the public key cannot be decoded, the error is not caught.
  unfoldable pub create_activation : ℕ → Secrets → Request → Action Db (String × String × ℕ)
  create_activation now x r = lift (json_body env r) >>= λ body.
      lift (bounded_text (Json.get body "publicKey") "publicKey" 200) >>= λ public_key.
      lift (bounded_text (Json.get body "displayName") "displayName" 120) >>= λ display_name.
      raise_if (not (env.is_public_key public_key)) 500 "Internal Server Error"
      >> (gets (λ d. is_some (agent_by_key d (str public_key))) >>= λ known.
          lift (check_enrollment now public_key known body r) >>= λ ticket.
          create_doc fs (activation_path x.activation_id)
            (new_activation now x public_key display_name ticket)
          >>= λ new.
              raise_if (not new) 500 "Internal Server Error"
              >> pure (x.activation_id, x.activation_secret, now + 600 * second))

  -- `_create_relay_device`
  unfoldable pub create_relay_device :
      ℕ → String → String → String → String → String → Action Db (Unit {0})
  create_relay_device now agent_id site_id device_id access_token key =
      require_device_capacity fs env agent_id
      >> (create_doc fs (device_path agent_id device_id) (
            field "siteId" (str site_id) (
              field "accessTokenHash" (str (env.hash access_token)) (
                field "createdAt" (time now) (
                  field "updatedAt" (time now) (
                    field "lastConnectedAt" (time now) (
                      field "expiresAt" (time (now + 30 * day)) (
                        field "meaningfulEnabled" (bool true)
                          (field "activityEnabled" (bool true) (optional_key key)))))))))
          >>= λ new. raise_if (not new) 500 "Internal Server Error")

  -- The activation of an id, if the secret is its own and it may be claimed.
  unfoldable pub check_activation : ℕ → String → Option Fields → Result Fields
  check_activation now digest none = refuse 401 "Unknown activation"
  check_activation now digest (some activation) =
      if is_claimable now digest activation
      then ok activation
      else refuse 401 "Expired or used activation"

  -- The app's device, once the activation is claimed.
  unfoldable pub claim_with : ℕ → Secrets → String → String → String → Action Db Claimed
  claim_with now x key agent_id site_id =
      create_relay_device now agent_id site_id x.device_id x.access_token key
      >> pure (record {
        claimed_agent_id = agent_id;
        claimed_site_id = site_id;
        claimed_device_id = x.device_id;
        device_access_token = x.access_token;
      })

  -- The claim of a known Agent's activation.
  unfoldable pub claim_existing :
      ℕ → Secrets → String → String → String → Fields → Action Db Claimed
  claim_existing now x id key agent_id agent =
      let site_id = Json.text_or agent "siteId" "" in
      raise_if (Json.truthy (Json.get agent "revoked")) 403 "This Agent identity has been revoked"
      >> raise_if (not (is_truthy site_id)) 500 "Existing Agent has no site identity"
      >> update_doc fs (activation_path id) (
          field "claimedAt" (time now) (
            field "agentId" (str agent_id)
              (field "siteId" (str site_id) (field "reusedAgent" (bool true) end))))
      >> claim_with now x key agent_id site_id

  -- The documents of a new Agent; a batch is written as a whole.
  unfoldable pub write_agent : ℕ → Secrets → String → String → Fields → Db → Db
  write_agent now x id site_name activation d =
      let site = concat ("sites/" ∷ x.site_id ∷ []) in
      let d1 = fs.set d site (field "name" (str site_name) (field "createdAt" (time now) end)) in
      let d2 = fs.set d1 (agent_path x.agent_id) (
        field "tenantId" (str x.site_id) (
          field "siteId" (str x.site_id) (
            field "siteName" (str site_name) (
              field "displayName" (Json.get activation "displayName") (
                field "publicKey" (Json.get activation "publicKey") (
                  field "enrolledAt" (time now) (
                    field "lastSeenAt" (time now)
                      (field "revoked" (bool false) (account_fields activation))))))))) in
      fs.set d2 (activation_path id) (
        Json.put (Json.put (Json.put activation "claimedAt" (time now)) "agentId" (str x.agent_id))
          "siteId" (str x.site_id))

  -- The ticket that the batch uses up, where tickets are asked for.
  unfoldable pub check_ticket : ℕ → Fields → Result (Option String)
  check_ticket now activation =
      let ticket_id = Json.text_or activation "enrollmentTicketId" "" in
      if not (env.enrollment_mode == "ticket")
      then ok none
      else if is_truthy ticket_id && is_from now (Json.get activation "enrollmentTicketExpiresAt")
      then ok (some ticket_id)
      else refuse 401 "Enrollment ticket expired"

  unfoldable pub write_ticket : ℕ → Fields → Option String → Db → Db
  write_ticket now activation none d = d
  write_ticket now activation (some ticket_id) d = fs.set d (ticket_path ticket_id) (
      field "accountId" (str (Json.text_or activation "accountId" "")) (
        field "usedAt" (time now)
          (field "expiresAt" (Json.get activation "enrollmentTicketExpiresAt") end)))

  -- A ticket's document is there already.
  unfoldable pub is_used : Db → Option String → Bool
  is_used d none = false
  is_used d (some ticket_id) = exists fs d (ticket_path ticket_id)

  -- The claim of a new Agent's activation; that the new ids are free is not checked apart from the
  -- ticket, since they are random.
  unfoldable pub claim_new : ℕ → Secrets → String → String → Fields → Fields → Action Db Claimed
  claim_new now x id key activation body =
      let name =
        if Json.has body "siteName"
        then Json.get body "siteName"
        else Json.get activation "displayName" in
      lift (bounded_text name "siteName" 120) >>= λ site_name.
      lift (check_ticket now activation) >>= λ ticket. gets (λ d. is_used d ticket) >>= λ used.
      raise_if used 401 "Enrollment ticket was already used"
      >> modify
          (λ d. write_ticket now activation ticket (write_agent now x id site_name activation d))
      >> claim_with now x key x.agent_id x.site_id

  -- An encryption key has 32 bytes.
  unfoldable pub check_key : String → Result (Unit {0})
  check_key key =
      if is_truthy key
      then elim (env.decoded_size key) [
        | none ↦ refuse 400 "Invalid base64 value"
        | some n ↦ if leb 32 n && leb n 32 then ok tt else refuse 400 "Invalid encryptionPublicKey"
      ]
      else ok tt

  unfoldable pub claim_found :
      ℕ → Secrets → String → String → Fields → Fields → Found → Action Db Claimed
  claim_found now x id key activation body none = claim_new now x id key activation body
  claim_found now x id key activation body (some (agent_id, agent)) =
      claim_existing now x id key agent_id agent

  -- `claim_activation`
  unfoldable pub claim_activation : ℕ → Secrets → String → Request → Action Db Claimed
  claim_activation now x id r = lift (json_body env r) >>= λ body.
      lift (bounded_text (Json.get body "activationSecret") "activationSecret" 200) >>= λ secret.
      gets (λ d. get d (activation_path id)) >>= λ found.
      lift (check_activation now (env.hash secret) found) >>= λ activation.
      let key = optional_text (Json.get body "encryptionPublicKey") 100 in
      lift (check_key key)
      >> (gets (λ d. agent_by_key d (Json.get activation "publicKey")) >>= λ agent.
          claim_found now x id key activation body agent)

  -- `activation_status`: whether it is claimed, the Agent's id, and whether it is expired.
  unfoldable pub activation_status : ℕ → String → Request → Action Db (Bool × Json × Bool)
  activation_status now id r = lift (json_body env r) >>= λ body.
      lift (bounded_text (Json.get body "activationSecret") "activationSecret" 200) >>= λ secret.
      gets (λ d. fields_or (get d (activation_path id))) >>= λ activation.
      raise_if
        (not (
          Json.truthy (obj activation)
          && Json.text_or activation "secretHash" "" == env.hash secret))
        401 "Unknown activation"
      >> pure (
        Json.truthy (Json.get activation "claimedAt"),
        (if Json.has activation "agentId" then Json.get activation "agentId" else str ""),
        is_before now (Json.get activation "expiresAt"),
      )
