-- ===== src/Relay/Projection.antt =====
-- `_secure_snapshot_projection` of pbxsense_agent/relay.py: what of a snapshot leaves the site. A
-- snapshot is a JSON object: `json.loads(json.dumps(…))` gives it back.
use pbxpulse_agent.Prelude.{String, ◌≡◌, refl, ◌∙◌, ap, Bool, false, ◌||◌, ◌==◌, take_text}
use pbxpulse_agent.Json
use pbxpulse_agent.Json.Laws.{get-put, has-put, has-pop}
use pbxpulse_agent.Json.{Json, Items, Fields, null, bool, num, str, arr, obj, nil, cons, end, field}

-- `connection` without the keys that do not leave the site.
unfoldable pub safe_connection : Fields → Fields
safe_connection c =
    Json.put
      (Json.put (Json.pop (Json.pop (Json.pop c "pbxHost") "pbxPort") "pushRelayAgentId") "kind"
        (str "internetRelay"))
      "label" (str "Connected securely")

unfoldable pub safe_call : Json → Json
safe_call (obj c) = obj (Json.pop c "recording")
safe_call null = null
safe_call (bool b) = bool b
safe_call (num n) = num n
safe_call (str s) = str s
safe_call (arr l) = arr l

unfoldable pub safe_calls : Items → Items
unfolding safe_call
safe_calls nil = nil
safe_calls (cons c l) = cons (safe_call c) (safe_calls l)

unfoldable pub safe_relay : Fields → Fields
safe_relay r = field "enabled" (bool (Json.truthy (Json.get r "enabled"))) (
    field "connected" (bool (Json.truthy (Json.get r "connected")))
      (field "lastError" (str (take_text 240 (Json.text_or r "lastError" ""))) end))

-- A part of the snapshot, if it has the expected shape.
unfoldable pub project_connection : Json → Fields → Fields
unfolding safe_connection
project_connection (obj c) s = Json.put s "connection" (obj (safe_connection c))
project_connection null s = s
project_connection (bool b) s = s
project_connection (num n) s = s
project_connection (str t) s = s
project_connection (arr l) s = s

unfoldable pub project_calls : Json → Fields → Fields
unfolding safe_calls
project_calls (arr l) s = Json.put s "calls" (arr (safe_calls l))
project_calls null s = s
project_calls (bool b) s = s
project_calls (num n) s = s
project_calls (str t) s = s
project_calls (obj d) s = s

unfoldable pub project_relay : Json → Fields → Fields
unfolding safe_relay
project_relay (obj r) s = Json.put s "internetRelay" (obj (safe_relay r))
project_relay null s = s
project_relay (bool b) s = s
project_relay (num n) s = s
project_relay (str t) s = s
project_relay (arr l) s = s

unfoldable pub secure_snapshot_projection : Fields → Fields
secure_snapshot_projection s =
    let s1 = project_connection (Json.get s "connection") s in
    let s2 = project_calls (Json.get s1 "calls") s1 in
    project_relay (Json.get s2 "internetRelay") s2

-- A value is an object with the key.
unfoldable pub has_key : String → Json → Bool
has_key k (obj d) = Json.has d k
has_key k null = false
has_key k (bool b) = false
has_key k (num n) = false
has_key k (str s) = false
has_key k (arr l) = false

-- Some item of a list is an object with the key.
unfoldable pub any_has_key : String → Items → Bool
any_has_key k nil = false
any_has_key k (cons c l) = has_key k c || any_has_key k l

unfoldable pub lists_key : String → Json → Bool
lists_key k (arr l) = any_has_key k l
lists_key k null = false
lists_key k (bool b) = false
lists_key k (num n) = false
lists_key k (str s) = false
lists_key k (obj d) = false

-- A connection with one of the keys that do not leave the site.
unfoldable pub has_site_key : Json → Bool
unfolding has_key
has_site_key v = has_key "pbxHost" v || has_key "pbxPort" v || has_key "pushRelayAgentId" v

safe_connection_lem : (c : Fields) → has_site_key (obj (safe_connection c)) ≡ false
unfolding safe_connection has_site_key
safe_connection_lem c = simp (has-put, has-pop)

safe_calls_lem : (l : Items) → any_has_key "recording" (safe_calls l) ≡ false
unfolding safe_calls any_has_key has_key
safe_calls_lem nil = refl
safe_calls_lem (cons (obj c) l) = simp (has-pop, safe_calls_lem l)
safe_calls_lem (cons null l) = safe_calls_lem l
safe_calls_lem (cons (bool b) l) = safe_calls_lem l
safe_calls_lem (cons (num n) l) = safe_calls_lem l
safe_calls_lem (cons (str s) l) = safe_calls_lem l
safe_calls_lem (cons (arr x) l) = safe_calls_lem l

project_connection_lem :
    (v : Json) (s : Fields)
    → Json.get s "connection" ≡ v
    → has_site_key (Json.get (project_connection v s) "connection") ≡ false
unfolding project_connection
project_connection_lem (obj c) s h =
    ap has_site_key (get-put s "connection" (obj (safe_connection c)) "connection")
    ∙ safe_connection_lem c
project_connection_lem null s h = unfold has_site_key in rw h refl
project_connection_lem (bool b) s h = unfold has_site_key in rw h refl
project_connection_lem (num n) s h = unfold has_site_key in rw h refl
project_connection_lem (str t) s h = unfold has_site_key in rw h refl
project_connection_lem (arr l) s h = unfold has_site_key in rw h refl

project_calls_lem :
    (v : Json) (s : Fields)
    → Json.get s "calls" ≡ v
    → lists_key "recording" (Json.get (project_calls v s) "calls") ≡ false
unfolding project_calls lists_key
project_calls_lem (arr l) s h =
    ap (lists_key "recording") (get-put s "calls" (arr (safe_calls l)) "calls") ∙ safe_calls_lem l
project_calls_lem null s h = rw h refl
project_calls_lem (bool b) s h = rw h refl
project_calls_lem (num n) s h = rw h refl
project_calls_lem (str t) s h = rw h refl
project_calls_lem (obj d) s h = rw h refl

project_calls_others :
    (v : Json) (s : Fields) (k : String)
    → ("calls" == k) ≡ false
    → Json.get (project_calls v s) k ≡ Json.get s k
unfolding project_calls
project_calls_others (arr l) s k h = get-put s "calls" (arr (safe_calls l)) k ∙ rw h refl
project_calls_others null s k h = refl
project_calls_others (bool b) s k h = refl
project_calls_others (num n) s k h = refl
project_calls_others (str t) s k h = refl
project_calls_others (obj d) s k h = refl

project_connection_others :
    (v : Json) (s : Fields) (k : String)
    → ("connection" == k) ≡ false
    → Json.get (project_connection v s) k ≡ Json.get s k
unfolding project_connection
project_connection_others (obj c) s k h =
    get-put s "connection" (obj (safe_connection c)) k ∙ rw h refl
project_connection_others null s k h = refl
project_connection_others (bool b) s k h = refl
project_connection_others (num n) s k h = refl
project_connection_others (str t) s k h = refl
project_connection_others (arr l) s k h = refl

project_relay_others :
    (v : Json) (s : Fields) (k : String)
    → ("internetRelay" == k) ≡ false
    → Json.get (project_relay v s) k ≡ Json.get s k
unfolding project_relay
project_relay_others (obj r) s k h = get-put s "internetRelay" (obj (safe_relay r)) k ∙ rw h refl
project_relay_others null s k h = refl
project_relay_others (bool b) s k h = refl
project_relay_others (num n) s k h = refl
project_relay_others (str t) s k h = refl
project_relay_others (arr l) s k h = refl

-- In what leaves the site, `connection` is no object with a key `pbxHost`, `pbxPort` or
-- `pushRelayAgentId`, and no item of a list `calls` has a key `recording`, whatever the snapshot
-- holds. All other keys than `connection`, `calls` and `internetRelay` have the values that they had.
pub secure_snapshot_projection_hides :
    (s : Fields)
    → (has_site_key (Json.get (secure_snapshot_projection s) "connection") ≡ false)
      × (lists_key "recording" (Json.get (secure_snapshot_projection s) "calls") ≡ false)
      × ((k : String)
          → ("connection" == k) ≡ false
          → ("calls" == k) ≡ false
          → ("internetRelay" == k) ≡ false
          → Json.get (secure_snapshot_projection s) k ≡ Json.get s k)
unfolding secure_snapshot_projection
secure_snapshot_projection_hides s =
    let s1 = project_connection (Json.get s "connection") s in
    let s2 = project_calls (Json.get s1 "calls") s1 in
    let v = Json.get s2 "internetRelay" in
    (
      ap has_site_key (
            project_relay_others v s2 "connection" refl
            ∙ project_calls_others (Json.get s1 "calls") s1 "connection" refl)
          ∙ project_connection_lem (Json.get s "connection") s refl,
      ap (lists_key "recording") (project_relay_others v s2 "calls" refl)
          ∙ project_calls_lem (Json.get s1 "calls") s1 refl,
      λ k c l i.
          project_relay_others v s2 k i
          ∙ project_calls_others (Json.get s1 "calls") s1 k l
          ∙ project_connection_others (Json.get s "connection") s k c,
    )
