-- ===== src/Tests/Relay.antt =====
-- The theorems on the Agent's relay client at concrete data.
use pbxpulse_agent.Prelude.{
  ℕ, pos, ◌+◌, String, ◌≡◌, refl, true, false, not, Option, none, some, [], ◌∷◌, concat, strip,
  ◌==◌, int_of_text, decimal,
}
use pbxpulse_agent.Prelude.Sets
use pbxpulse_agent.Json
use pbxpulse_agent.Json.{Json, Fields, num, str, arr, obj, nil, cons, end, field}
use pbxpulse_agent.Relay.State.{RelayState, Reply, response}
use pbxpulse_agent.Relay.Activations.{activation, activation-IsStored, result, IsStored}
use pbxpulse_agent.Relay.Registration.{Registration, register_device, deliver}
use pbxpulse_agent.Relay.Publish.{ensure_enrolled}
use pbxpulse_agent.Relay.Registration.Waiting.{register_device-registrations}
use pbxpulse_agent.Relay.Registration.Progress.{Listed, register_device-Sent}
use pbxpulse_agent.Relay.Order.{registrations}
use pbxpulse_agent.Relay.Projection.{
  secure_snapshot_projection, secure_snapshot_projection_hides, has_site_key, lists_key,
}
use pbxpulse_agent.Relay.Requests.{agent_path}
use pbxpulse_agent.Relay.Snapshots
use pbxpulse_agent.Relay.Snapshots.{
  stored, has_stored, publish_to_devices, publish_to_devices_twice,
}

abbrev relay : RelayState
relay = record {
  agent_id = "";
  activation = none;
  outbox = [];
  delivered = [];
  device_registration_attempt_revision = 0;
  device_registration_revision = 0;
  rejected_outbox = [];
  last_outbox_error = "";
  secure_snapshot_sequence = 4;
  secure_snapshot_fingerprint = "old";
  last_heartbeat_at = 0;
  secure_devices = field "id" (str "d1") (field "encryptionPublicKey" (str "k1") end) ∷ [];
  secure_devices_refreshed_at = 1;
}

-- A relay server that issues activations and stores one envelope.
abbrev answers : ℕ → String → Fields → ℕ × Reply
answers n path body = (
  n + 1,
  response (
      field "activationId" (str "a1")
        (field "activationSecret" (str "s1") (field "stored" (num (pos 1)) end))),
)

abbrev hash : String → String
hash s = concat ("#" ∷ s ∷ [])

abbrev encrypt : String → String → Fields → ℕ → Option Fields
encrypt raw agent_id device sequence = some (field "ciphertext" (str raw) end)

activation-IsStored_example :
    IsStored (result (activation answers (λ t. 0) (some "pk") "PBX" "" "https://relay" 5 0 relay))
activation-IsStored_example =
    activation-IsStored answers (λ t. 0) (some "pk") "PBX" "" "https://relay" 5 0 relay

abbrev phone : Registration
phone = record {
  fcm_token = " t1 ";
  meaningful = true;
  activity = true;
  platform = "";
  app_version = "1";
  device_model = "";
  device_name = "";
  os_version = "";
  relay_device_id = "";
  encryption_public_key = "";
}

register_device-registrations_example :
    (registrations "t1" (register_device answers hash "" phone 7 0 relay).1.outbox ≡ 1)
    × ((register_device answers hash "" phone 7 0 relay).2.queued ≡ true)
    × ((register_device answers hash "" phone 7 0 relay).2.delivered ≡ false)
unfolding strip register_device deliver ensure_enrolled
register_device-registrations_example =
    register_device-registrations answers hash "" phone 7 0 relay refl refl

-- A relay server that accepts registrations and lists one device.
abbrev lists_device : ℕ → String → Fields → ℕ × Reply
lists_device n path body =
    (n + 1, response (field "devices" (arr (cons (obj (field "id" (str "d1") end)) nil)) end))

abbrev listed_phone : Registration
listed_phone = record phone { relay_device_id = "d1" }

abbrev enrolled_relay : RelayState
enrolled_relay = record relay { agent_id = "g1" }

register_device-Sent_example :
    ((register_device lists_device hash "u" listed_phone 7 0 enrolled_relay).1.outbox ≡ [])
    × ((register_device lists_device hash "u" listed_phone 7 0 enrolled_relay).2.configured ≡ true)
    × ((register_device lists_device hash "u" listed_phone 7 0 enrolled_relay).2.queued
        ≡ not (register_device lists_device hash "u" listed_phone 7 0 enrolled_relay).2.delivered)
    × (w : ℕ) × Listed lists_device hash "u" listed_phone
        (register_device lists_device hash "u" listed_phone 7 0 enrolled_relay)
        w
unfolding strip
register_device-Sent_example =
    register_device-Sent lists_device hash "u" listed_phone 7 0 enrolled_relay (λ w path body. refl)
      refl refl refl

abbrev snapshot : Fields
snapshot =
    field "connection" (obj (field "pbxHost" (str "10.0.0.1") (field "mode" (str "ami") end))) (
      field "calls"
        (arr (cons (obj (field "recording" (str "r1") (field "id" (str "c1") end))) nil)) end)

secure_snapshot_projection_hides_example :
    (has_site_key (Json.get (secure_snapshot_projection snapshot) "connection") ≡ false)
    × (lists_key "recording" (Json.get (secure_snapshot_projection snapshot) "calls") ≡ false)
    × ((k : String)
        → ("connection" == k) ≡ false
        → ("calls" == k) ≡ false
        → ("internetRelay" == k) ≡ false
        → Json.get (secure_snapshot_projection snapshot) k ≡ Json.get snapshot k)
secure_snapshot_projection_hides_example = secure_snapshot_projection_hides snapshot

publish_to_devices_twice_example :
    let t = (publish_to_devices answers hash encrypt "raw" 0 relay).1 in
    (t.secure_snapshot_sequence ≡ 5)
    × (publish_to_devices answers hash encrypt "raw" 9 t ≡ (9, t, stored (pos 0)))
unfolding publish_to_devices has_stored Snapshots.snapshot_fingerprint concat Json.dumps Sets.sorted
    Snapshots.recipients Snapshots.has_encryption_key Json.truthy Json.get Snapshots.recipient
    Json.has Json.to_text Snapshots.send Snapshots.envelopes Snapshots.add_envelope
    Snapshots.after_publish Snapshots.record_stored Json.int_text Json.to_int Snapshots.stored_count
    agent_path int_of_text decimal strip
publish_to_devices_twice_example =
    publish_to_devices_twice answers hash encrypt "raw" 0 9 relay refl
