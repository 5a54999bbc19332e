-- ===== src/Relay/Snapshots.antt =====
-- `publish_secure_snapshot` of pbxsense_agent/relay.py. `encrypt` is `_encrypt_snapshot_for_device`,
-- whose cryptography is a library's: from the text, the Agent's id, a device and a number to an
-- envelope, or nothing where it raises. `hash` is the hexadecimal SHA-256. A clock reading is in
-- microseconds.
use pbxpulse_agent.Prelude.{
  ℕ, ◌+◌, ◌*◌, ℤ, pos, negsuc, String, ◌≡◌, ◌∙◌, ap, sym, Bool, true, false, not, ◌||◌, Option,
  none, some, List, [], ◌∷◌, ◌==◌, eq_iff, arith, if◌then◌else◌, leb, nat_eq, concat, Bool-cases,
  inl, inr,
}
use pbxpulse_agent.Prelude.Clock.{second}
use pbxpulse_agent.Prelude.Sets
use pbxpulse_agent.Json
use pbxpulse_agent.Json.{Json, Items, Fields, null, bool, num, str, arr, obj, nil, cons, end, field}
use pbxpulse_agent.Relay.State.{RelayState, Reply, response, refused, failed}
use pbxpulse_agent.Relay.Publish.{ensure_enrolled}
use pbxpulse_agent.Relay.Requests.{agent_path, ask}
use pbxpulse_agent.Relay.Projection.{secure_snapshot_projection}

-- What the method returns, or that it raises.
pub data Published : Type 0 where
  stored : ℤ → Published
  raised : Published

-- `[device for device in devices if isinstance(device, dict)]`
unfoldable pub objects_of : Items → List Fields
objects_of nil = []
objects_of (cons (obj d) l) = d ∷ objects_of l
objects_of (cons null l) = objects_of l
objects_of (cons (bool b) l) = objects_of l
objects_of (cons (num n) l) = objects_of l
objects_of (cons (str s) l) = objects_of l
objects_of (cons (arr x) l) = objects_of l

-- The devices with an encryption key.
unfoldable pub has_encryption_key : Fields → Bool
has_encryption_key device = Json.truthy (Json.get device "encryptionPublicKey")

-- `f"{device.get('id', '')}:{device.get('encryptionPublicKey', '')}"`
unfoldable pub recipient : Fields → String
recipient device =
    concat (Json.text_or device "id" "" ∷ ":" ∷ Json.text_or device "encryptionPublicKey" "" ∷ [])

unfoldable pub recipients : List Fields → List String
recipients [] = []
recipients (device ∷ l) =
    let rest = recipients l in if has_encryption_key device then recipient device ∷ rest else rest

texts : List String → Items
texts [] = nil
texts (s ∷ l) = cons (str s) (texts l)

unfoldable pub snapshot_fingerprint : (String → String) → String → List Fields → String
unfolding texts
snapshot_fingerprint hash raw devices =
    hash (concat (raw ∷ Json.dumps (arr (texts (Sets.sorted (recipients devices)))) ∷ []))

-- The envelopes for all devices with a key; the first failure is the whole's.
unfoldable pub add_envelope : Option Fields → Option Items → Option Items
add_envelope none rest = none
add_envelope (some e) none = none
add_envelope (some e) (some l) = some (cons (obj e) l)

unfoldable pub envelopes : (Fields → ℕ → Option Fields) → ℕ → List Fields → Option Items
envelopes encrypt sequence [] = some nil
envelopes encrypt sequence (device ∷ l) =
    let rest = envelopes encrypt sequence l in
    if has_encryption_key device then add_envelope (encrypt device sequence) rest else rest

is_nonzero : ℤ → Bool
is_nonzero (pos n) = not (nat_eq n 0)
is_nonzero (negsuc n) = true

-- `int(result.get("stored", 0))`, where `none` is an error
unfoldable pub stored_count : Fields → Option ℤ
stored_count r = Json.to_int (if Json.has r "stored" then Json.get r "stored" else num (pos 0))

-- The state after the relay server has taken the envelopes.
unfoldable pub record_stored : String → ℕ → Option ℤ → RelayState → RelayState × Published
unfolding is_nonzero
record_stored fingerprint sequence none s = (s, raised)
record_stored fingerprint sequence (some n) s = (
  if is_nonzero n
      then record s {
        secure_snapshot_sequence = sequence;
        secure_snapshot_fingerprint = fingerprint;
      }
      else s,
  stored n,
)

unfoldable pub after_publish : String → ℕ → Reply → RelayState → RelayState × Published
after_publish fingerprint sequence (response r) s =
    record_stored fingerprint sequence (stored_count r) s
after_publish fingerprint sequence (refused status message) s = (s, raised)
after_publish fingerprint sequence failed s = (s, raised)

-- What asking for the devices gives: the state, or the result that the method ends with.
pub data Refreshed : Type 0 where
  ready : RelayState → Refreshed
  ended : Published → Refreshed

unfoldable pub refresh_with : ℕ → Json → RelayState → Refreshed
refresh_with now (arr l) s =
    ready (record s { secure_devices = objects_of l; secure_devices_refreshed_at = now })
refresh_with now null s = ended (stored (pos 0))
refresh_with now (bool b) s = ended (stored (pos 0))
refresh_with now (num n) s = ended (stored (pos 0))
refresh_with now (str t) s = ended (stored (pos 0))
refresh_with now (obj d) s = ended (stored (pos 0))

unfoldable pub after_refresh : ℕ → Reply → RelayState → Refreshed
after_refresh now (response r) s =
    refresh_with now (if Json.has r "devices" then Json.get r "devices" else arr nil) s
after_refresh now (refused status message) s = ended raised
after_refresh now failed s = ended raised

unfoldable pub is_stale : ℕ → RelayState → Bool
is_stale now s =
    nat_eq s.secure_devices_refreshed_at 0 || leb (s.secure_devices_refreshed_at + 300 * second) now

envelopes_payload : Items → Fields
envelopes_payload l = field "protocolVersion" (num (pos 1)) (field "envelopes" (arr l) end)

module _ {W : Type 0} (request : W → String → Fields → W × Reply) (hash : String → String)
    (encrypt : String → String → Fields → ℕ → Option Fields) where
  -- The last part: the envelopes are sent, if there are any.
  unfoldable pub send : String → W → RelayState → Option Items → W × RelayState × Published
  unfolding envelopes_payload
  send fingerprint w s none = (w, s, raised)
  send fingerprint w s (some nil) = (w, s, stored (pos 0))
  send fingerprint w s (some (cons e l)) =
      let (w', reply) =
        request w (agent_path s.agent_id "secure/snapshots") (envelopes_payload (cons e l)) in
      let (s', published) = after_publish fingerprint (s.secure_snapshot_sequence + 1) reply s in
      (w', s', published)

  -- The part with the devices known.
  unfoldable pub publish_to_devices : String → W → RelayState → W × RelayState × Published
  publish_to_devices raw w s =
      let fingerprint = snapshot_fingerprint hash raw s.secure_devices in
      let sealed =
        envelopes (encrypt raw s.agent_id) (s.secure_snapshot_sequence + 1) s.secure_devices in
      let sent = send fingerprint w s sealed in
      if s.secure_snapshot_fingerprint == fingerprint then (w, s, stored (pos 0)) else sent

  unfoldable pub publish_refreshed :
      String → RelayState → W → Refreshed → W × RelayState × Published
  publish_refreshed raw old w (ready s) = publish_to_devices raw w s
  publish_refreshed raw old w (ended published) = (w, old, published)

  -- `publish_secure_snapshot`; the clock is read before the devices are asked for and after.
  unfoldable pub publish_secure_snapshot :
      String → ℕ → ℕ → Fields → W → RelayState → W × RelayState × Published
  publish_secure_snapshot url now answered snapshot w s =
      let raw = Json.dumps (obj (secure_snapshot_projection snapshot)) in
      let (w1, s1, enrolled) = ensure_enrolled url (ask request) w s in
      let (w2, reply) = request w1 (agent_path s1.agent_id "devices/list") end in
      let refreshed = publish_refreshed raw s1 w2 (after_refresh answered reply s1) in
      let known = publish_to_devices raw w1 s1 in
      if not enrolled then (w1, s1, raised) else if is_stale now s1 then refreshed else known

-- The relay server has stored something.
unfoldable pub has_stored : Published → Bool
unfolding is_nonzero
has_stored (stored n) = is_nonzero n
has_stored raised = false

-- The state after a snapshot was stored.
abbrev sent_state : String → RelayState → RelayState
sent_state fingerprint s = record s {
  secure_snapshot_sequence = s.secure_snapshot_sequence + 1;
  secure_snapshot_fingerprint = fingerprint;
}

record_stored-has_stored :
    (fingerprint : String) (o : Option ℤ) (s : RelayState)
    → has_stored (record_stored fingerprint (s.secure_snapshot_sequence + 1) o s).1 ≡ true
    → (record_stored fingerprint (s.secure_snapshot_sequence + 1) o s).0 ≡ sent_state fingerprint s
unfolding record_stored has_stored
record_stored-has_stored fingerprint none s h = absurd (ground arith)
record_stored-has_stored fingerprint (some n) s h = simp (h)

after_publish-has_stored :
    (fingerprint : String) (reply : Reply) (s : RelayState)
    → has_stored (after_publish fingerprint (s.secure_snapshot_sequence + 1) reply s).1 ≡ true
    → (after_publish fingerprint (s.secure_snapshot_sequence + 1) reply s).0
      ≡ sent_state fingerprint s
unfolding after_publish has_stored
after_publish-has_stored fingerprint (response r) s h =
    record_stored-has_stored fingerprint (stored_count r) s h
after_publish-has_stored fingerprint (refused status message) s h = absurd (ground arith)
after_publish-has_stored fingerprint failed s h = absurd (ground arith)

module _ {W : Type 0} (request : W → String → Fields → W × Reply) (hash : String → String)
    (encrypt : String → String → Fields → ℕ → Option Fields) where
  send-has_stored :
      (fingerprint : String) (w : W) (s : RelayState) (o : Option Items)
      → has_stored (send request hash encrypt fingerprint w s o).2 ≡ true
      → (send request hash encrypt fingerprint w s o).1 ≡ sent_state fingerprint s
  unfolding send has_stored
  send-has_stored fingerprint w s none h = absurd (ground arith)
  send-has_stored fingerprint w s (some nil) h = absurd (ground arith)
  send-has_stored fingerprint w s (some (cons e l)) h = after_publish-has_stored fingerprint _ s h

  publish_known :
      (raw : String) (w : W) (s : RelayState)
      → s.secure_snapshot_fingerprint ≡ snapshot_fingerprint hash raw s.secure_devices
      → publish_to_devices request hash encrypt raw w s ≡ (w, s, stored (pos 0))
  unfolding publish_to_devices
  publish_known raw w s e =
      let fingerprint = snapshot_fingerprint hash raw s.secure_devices in
      simp ((eq_iff s.secure_snapshot_fingerprint fingerprint).1 e)

  publish_new :
      (raw : String) (w : W) (s : RelayState)
      → s.secure_snapshot_fingerprint == snapshot_fingerprint hash raw s.secure_devices ≡ false
      → publish_to_devices request hash encrypt raw w s
        ≡ send request hash encrypt
            (snapshot_fingerprint hash raw s.secure_devices)
            w
            s
            (envelopes (encrypt raw s.agent_id) (s.secure_snapshot_sequence + 1) s.secure_devices)
  unfolding publish_to_devices
  publish_new raw w s e = simp (e)

  publish_to_devices-has_stored :
      (raw : String) (w : W) (s : RelayState)
      → has_stored (publish_to_devices request hash encrypt raw w s).2 ≡ true
      → (publish_to_devices request hash encrypt raw w s).1
        ≡ sent_state (snapshot_fingerprint hash raw s.secure_devices) s
  unfolding has_stored
  publish_to_devices-has_stored raw w s h =
      let fingerprint = snapshot_fingerprint hash raw s.secure_devices in
      elim (Bool-cases (s.secure_snapshot_fingerprint == fingerprint)) [
        | inl e ↦
            let known =
              publish_known raw w s ((eq_iff s.secure_snapshot_fingerprint fingerprint).0 e) in
            cc (sym h ∙ ap (λ p. has_stored p.2) known)
        | inr e ↦
            let same = publish_new raw w s e in
            ap (λ p. p.1) same
            ∙ send-has_stored fingerprint w s _ (sym (ap (λ p. has_stored p.2) same) ∙ h)
      ]

  -- Once a snapshot was stored, its number is one higher than the last, and publishing the same
  -- snapshot to the same devices again sends nothing and changes nothing.
  pub publish_to_devices_twice :
      (raw : String) (w v : W) (s : RelayState)
      → has_stored (publish_to_devices request hash encrypt raw w s).2 ≡ true
      → let t = (publish_to_devices request hash encrypt raw w s).1 in
        (t.secure_snapshot_sequence ≡ s.secure_snapshot_sequence + 1)
        × (publish_to_devices request hash encrypt raw v t ≡ (v, t, stored (pos 0)))
  publish_to_devices_twice raw w v s h =
      let e = publish_to_devices-has_stored raw w s h in
      (
        ap (λ t. t.secure_snapshot_sequence) e,
        publish_known raw v (publish_to_devices request hash encrypt raw w s).1 (
            ap (λ t. t.secure_snapshot_fingerprint) e
            ∙ ap (λ t. snapshot_fingerprint hash raw t.secure_devices) (sym e)),
      )
