-- ===== src/Server/Usage.antt =====
-- The daily counters that push_relay/app.py keeps in the documents of Agents and apps:
-- `_usage_update`, `_current_usage` and `_archive_usage`. `date` is the UTC day of a clock reading
-- as ISO text, and `is_date` is whether `strptime` takes a text as a date.
use pbxpulse_agent.Prelude.{
  ℕ, ◌+◌, ◌-◌, ◌*◌, leb, pos, negsuc, String, Bool, true, false, not, ◌&&◌, List, [], ◌∷◌,
  if◌then◌else◌, concat, take_text, nat_eq,
}
use pbxpulse_agent.Prelude.Clock.{second}
use pbxpulse_agent.Json
use pbxpulse_agent.Json.{Json, Items, Fields, null, bool, num, str, arr, obj, end, field}
use pbxpulse_agent.Server.Store.{
  Firestore, ok, refuse, Action, pure, ◌>>◌, merged, fields_or, exists, time, set_doc, update_doc,
}

abbrev pub day : ℕ
day = 86400 * second

-- The values that are counts, as whole numbers.
unfoldable pub counts : Fields → Fields
counts end = end
counts (field k (num (pos n)) d) = field k (num (pos n)) (counts d)
counts (field k (num (negsuc n)) d) = counts d
counts (field k (bool b) d) = field k (num (pos (if b then 1 else 0))) (counts d)
counts (field k null d) = counts d
counts (field k (str s) d) = counts d
counts (field k (arr l) d) = counts d
counts (field k (obj e) d) = counts d

unfoldable pub counts_of : Json → Fields
counts_of (obj d) = counts d
counts_of null = end
counts_of (bool b) = end
counts_of (num n) = end
counts_of (str s) = end
counts_of (arr l) = end

-- `_current_usage`
unfoldable pub current_usage : Fields → String → Fields
current_usage document today =
    if Json.is_str today (Json.get document "usageDate")
    then counts_of (Json.get document "usage")
    else end

-- `{key: max(0, int(value)) for … if int(value) > 0}`
unfoldable pub positive : List (String × ℕ) → Fields
positive [] = end
positive ((k, n) ∷ l) =
    let rest = positive l in if nat_eq n 0 then rest else field k (num (pos n)) rest

-- `firestore.Increment`: a value that is no number counts as none.
unfoldable pub incremented : Json → ℕ → Json
incremented (num (pos m)) n = num (pos (m + n))
incremented (num (negsuc m)) n = num (if leb (m + 1) n then pos (n - (m + 1)) else negsuc (m - n))
incremented null n = num (pos n)
incremented (bool b) n = num (pos n)
incremented (str s) n = num (pos n)
incremented (arr l) n = num (pos n)
incremented (obj d) n = num (pos n)

fields_of : Json → Fields
fields_of (obj d) = d
fields_of null = end
fields_of (bool b) = end
fields_of (num n) = end
fields_of (str s) = end
fields_of (arr l) = end

-- What `_usage_update` adds to a write: the counters start again, or they are incremented.
pub data UsageUpdate : Type 0 where
  restart : String → Fields → UsageUpdate
  increment : List (String × ℕ) → UsageUpdate

unfoldable pub add_counts : Fields → List (String × ℕ) → Fields
unfolding incremented
add_counts usage [] = usage
add_counts usage ((k, n) ∷ l) =
    add_counts (if nat_eq n 0 then usage else Json.put usage k (incremented (Json.get usage k) n)) l

-- The document that an update with these counters gives.
unfoldable pub with_usage : UsageUpdate → Fields → Fields
unfolding fields_of
with_usage (restart today usage) document =
    Json.put (Json.put document "usageDate" (str today)) "usage" (obj usage)
with_usage (increment counters) document =
    Json.put document "usage" (obj (add_counts (fields_of (Json.get document "usage")) counters))

is_text : Json → Bool
is_text (str s) = true
is_text null = false
is_text (bool b) = false
is_text (num n) = false
is_text (arr l) = false
is_text (obj d) = false

-- Whether the counters of an earlier day are still to be kept.
unfoldable pub is_archivable : (String → Bool) → Fields → String → Bool
unfolding is_text
is_archivable is_date document today =
    is_text (Json.get document "usageDate")
    && not (Json.is_str today (Json.get document "usageDate"))
    && not (
        Json.is_str (Json.to_text (Json.get document "usageDate"))
          (Json.get document "usageArchivedDate"))
    && is_date (Json.to_text (Json.get document "usageDate"))
    && Json.truthy (obj (counts_of (Json.get document "usage")))

module _ (fs : Firestore) (hash : String → String) (date : ℕ → String)
    (is_date : String → Bool) where
  open fs use {Db}

  unfoldable pub usage_path : String → String → String → String
  usage_path usage_date entity_kind entity_id = concat (
      "usageDaily/"
      ∷ usage_date
      ∷ "/entities/"
      ∷ take_text 24 (hash (concat (entity_kind ∷ ":" ∷ entity_id ∷ [])))
      ∷ [])

  -- `_archive_usage`
  unfoldable pub archive_usage : ℕ → String → Fields → String → String → Action Db (Unit {0})
  unfolding usage_path
  archive_usage now path document entity_kind entity_id =
      let usage_date = Json.to_text (Json.get document "usageDate") in
      let entry = field "kind" (str entity_kind) (
        field "usage" (obj (counts_of (Json.get document "usage")))
          (field "archivedAt" (time now) (field "expiresAt" (time (now + 90 * day)) end))) in
      let archived = field "usageArchivedDate" (str usage_date) end in
      if is_archivable is_date document (date now)
      then set_doc fs (usage_path usage_date entity_kind entity_id) entry
        >> update_doc fs path archived
      else pure tt

  -- `_usage_update`
  unfoldable pub usage_update :
      ℕ → String → Fields → String → String → List (String × ℕ) → Action Db UsageUpdate
  usage_update now path document entity_kind entity_id increments =
      archive_usage now path document entity_kind entity_id
      >> pure (
          if Json.is_str (date now) (Json.get document "usageDate")
          then increment increments
          else restart (date now) (positive increments))

  -- An update of a document together with counters.
  unfoldable pub update_counted : String → Fields → UsageUpdate → Action Db (Unit {0})
  update_counted path new usage s =
      let document = with_usage usage (merged (fields_or (fs.get s.db path)) new) in
      if exists fs s.db path
      then (ok tt, record s { db = fs.set s.db path document })
      else (refuse 500 "Internal Server Error", s)
