-- ===== src/Server/Store.antt =====
-- What push_relay/app.py uses of Firestore and of its web framework. Firestore is a parameter: its
-- documents by their paths ("agents/a1/devices/d1"), with the laws that its documentation gives for
-- one client at a time. A document is a JSON object; a timestamp in it is an object with the
-- microseconds. `hash` is the hexadecimal SHA-256, and a clock reading is in microseconds. A handler
-- may raise an HTTP error, and what it wrote before stays written.
use pbxpulse_agent.Prelude.{
  ℕ, pos, negsuc, leb, ltb, String, ◌≡◌, Bool, true, false, Option, none, some, List, [], ◌∷◌, ◌==◌,
  if◌then◌else◌, concat, is_some,
}
use pbxpulse_agent.Prelude.Dict.{Dict}
use pbxpulse_agent.Json
use pbxpulse_agent.Json.{Json, Items, Fields, str, end, field}

pub record Firestore : Type 1 where
  pub Db : Type 0
  pub get : Db → String → Option Fields
  pub set : Db → String → Fields → Db
  pub delete : Db → String → Db
  -- the documents of a collection, with their ids
  pub stream : Db → String → List (String × Fields)
  pub get-set :
      (d : Db) (p : String) (doc : Fields) (q : String)
      → get (set d p doc) q ≡ (if p == q then some doc else get d q)
  pub get-delete : (d : Db) (p q : String) → get (delete d p) q ≡ (if p == q then none else get d q)

-- A notification to the devices with the tokens.
pub record Message : Type 0 where
  pub tokens : List String
  pub title : String
  pub body : String
  pub payload : Fields

-- The documents, the messages handed to FCM so far, and the event windows of the process.
pub record State (D : Type 0) : Type 0 where
  pub db : D
  pub sent : List Message
  pub event_windows : Dict (List ℕ)

-- `HTTPException` with its status and detail.
pub data Result (A : Type 0) : Type 0 where
  ok : A → Result A
  refuse : ℕ → String → Result A

abbrev pub Action : Type 0 → Type 0 → Type 0
Action D A = State D → Result A × State D

module _ {D : Type 0} where
  abbrev pub pure : {A : Type 0} → A → Action D A
  pure a s = (ok a, s)

  abbrev pub raise : {A : Type 0} → ℕ → String → Action D A
  raise status detail s = (refuse status detail, s)

  -- The action is not done if it raises before, and gives its state up to where it raises.
  unfoldable pub bind_result :
      {A B : Type 0} → Result A × State D → (A → Action D B) → Result B × State D
  bind_result (ok a, s) f = f a s
  bind_result (refuse status detail, s) f = (refuse status detail, s)

  infixl 5 ◌>>=◌ ◌>>◌
  abbrev pub ◌>>=◌ : {A B : Type 0} → Action D A → (A → Action D B) → Action D B
  ◌>>=◌ m f s = bind_result (m s) f

  abbrev pub ◌>>◌ : {A B : Type 0} → Action D A → Action D B → Action D B
  m >> k = m >>= λ _. k

  abbrev pub raise_if : Bool → ℕ → String → Action D (Unit {0})
  raise_if c status detail s = (if c then refuse status detail else ok tt, s)

  abbrev pub or_raise : {A : Type 0} → Option A → ℕ → String → Action D A
  or_raise none status detail s = (refuse status detail, s)
  or_raise (some a) status detail s = (ok a, s)

  abbrev pub lift : {A : Type 0} → Result A → Action D A
  lift r s = (r, s)

  abbrev pub gets : {A : Type 0} → (D → A) → Action D A
  gets f s = (ok (f s.db), s)

  abbrev pub modify : (D → D) → Action D (Unit {0})
  modify f s = (ok tt, record s { db = f s.db })

  -- A step only where a test holds.
  abbrev pub run_if : Bool → Action D (Unit {0}) → Action D (Unit {0})
  run_if c m s = if c then m s else (ok tt, s)

-- The values of the second object over those of the first.
unfoldable pub merged : Fields → Fields → Fields
merged d end = d
merged d (field k v rest) = merged (Json.put d k v) rest

abbrev pub fields_or : Option Fields → Fields
fields_or none = end
fields_or (some d) = d

module _ (fs : Firestore) where
  open fs use {Db, get, set}

  abbrev pub exists : Db → String → Bool
  exists d p = is_some (get d p)

  -- `set(…, merge=True)`
  abbrev pub merge_doc : String → Fields → Action Db (Unit {0})
  merge_doc p new = modify (λ d. set d p (merged (fields_or (get d p)) new))

  -- `set(…)`
  abbrev pub set_doc : String → Fields → Action Db (Unit {0})
  set_doc p new = modify (λ d. set d p new)

  -- `update(…)`: with no such document Firestore raises, which the framework answers with 500.
  unfoldable pub update_doc : String → Fields → Action Db (Unit {0})
  update_doc p new s =
      if exists s.db p
      then (ok tt, record s { db = set s.db p (merged (fields_or (get s.db p)) new) })
      else (refuse 500 "Internal Server Error", s)

  -- `create(…)`: whether it is new; `AlreadyExists` is `false`.
  unfoldable pub create_doc : String → Fields → Action Db Bool
  create_doc p new s =
      if exists s.db p then (ok false, s) else (ok true, record s { db = set s.db p new })

  abbrev pub delete_doc : String → Action Db (Unit {0})
  delete_doc p = modify (λ d. fs.delete d p)

-- A `datetime` in a document, and the test `isinstance(v, datetime)`.
unfoldable pub time : ℕ → Json
time now = Json.obj (field "timestamp" (Json.num (pos now)) end)

abbrev number_of : Json → Option ℕ
number_of (Json.num (pos n)) = some n
number_of (Json.num (negsuc n)) = none
number_of Json.null = none
number_of (Json.bool b) = none
number_of (str s) = none
number_of (Json.arr l) = none
number_of (Json.obj d) = none

unfoldable pub time_of : Json → Option ℕ
time_of (Json.obj d) = number_of (Json.get d "timestamp")
time_of Json.null = none
time_of (Json.bool b) = none
time_of (Json.num n) = none
time_of (str s) = none
time_of (Json.arr l) = none

-- `isinstance(v, datetime) and v >= at`
unfoldable pub is_from : ℕ → Json → Bool
is_from at v = elim (time_of v) [ none ↦ false | some t ↦ leb at t ]

-- `isinstance(v, datetime) and v < at`
unfoldable pub is_before : ℕ → Json → Bool
is_before at v = elim (time_of v) [ none ↦ false | some t ↦ ltb t at ]

-- Paths.
abbrev pub agent_path : String → String
agent_path agent_id = concat ("agents/" ∷ agent_id ∷ [])

abbrev pub devices_path : String → String
devices_path agent_id = concat ("agents/" ∷ agent_id ∷ "/devices" ∷ [])

abbrev pub device_path : String → String → String
device_path agent_id device_id = concat ("agents/" ∷ agent_id ∷ "/devices/" ∷ device_id ∷ [])

-- By the hash of a token.
abbrev pub token_path : String → String
token_path digest = concat ("deviceTokens/" ∷ digest ∷ [])

-- `str(pointer.get("devicePath", ""))` of a token's document
abbrev pub pointer_path : Option Fields → String
pointer_path none = ""
pointer_path (some d) = Json.text_or d "devicePath" ""
