-- ===== src/Live.antt =====
-- `home_live_events` of pbxsense_agent/live.py: what changed between two home payloads. A payload's
-- part is a value with an equality test (Python's `!=`). A collection is a list whose entries are
-- dicts with a text key, or other values, which the code skips.
pub mod Replay
use pbxpulse_agent.Prelude.{
  ℕ, String, ◌≡◌, ◌↔◌, Bool, true, false, not, ◌&&◌, Option, none, some, List, [], ◌∷◌, ◌++◌,
  if◌then◌else◌, is_truthy,
}
use pbxpulse_agent.Prelude.Dict
use pbxpulse_agent.Prelude.Dict.{Dict}
use pbxpulse_agent.Prelude.Sets

pub record Eq {ℓ} (A : Type ℓ) : Type ℓ where
  pub beq : A → A → Bool
  pub beq_iff : (a b : A) → (beq a b ≡ true) ↔ (a ≡ b)

-- `dict` is an entry with `str(item.get(key, ""))` and the whole dict as a value; `other` is an
-- entry that is no dict.
pub data Item {ℓ} (V : Type ℓ) : Type ℓ where
  dict : String → V → Item V
  other : Item V

-- `none` is a value that is no list.
abbrev pub Collection {ℓ} : Type ℓ → Type ℓ
Collection V = Option (List (Item V))

pub data LiveEvent {ℓ} (V : Type ℓ) : Type ℓ where
  part_updated : String → V → LiveEvent V
  item_changed : String → String → V → LiveEvent V
  item_removed : String → String → LiveEvent V

-- The parts of a home payload that the events are about. The code sends a missing `connection` or
-- `now` as `{}` and a missing `calls` as `[]`; the payloads here have all parts.
pub record HomePayload {ℓ} (V : Type ℓ) : Type ℓ where
  pub connection : V
  pub now : V
  pub signals : Collection V
  pub calls : V
  pub people : Collection V
  pub trunks : Collection V
  pub queues : Collection V

module _ {ℓ} {V : Type ℓ} where
  -- `{str(item.get(key, "")): item for item in items if isinstance(item, dict) and item.get(key)}`
  unfoldable pub by_key : Dict V → List (Item V) → Dict V
  by_key d [] = d
  by_key d (dict k v ∷ l) = by_key (if is_truthy k then Dict.put d k v else d) l
  by_key d (other ∷ l) = by_key d l

  unfoldable pub keys_of : List (Item V) → List String
  keys_of [] = []
  keys_of (dict k v ∷ l) = let rest = keys_of l in if is_truthy k then k ∷ rest else rest
  keys_of (other ∷ l) = keys_of l

  unfoldable pub removed_events : String → List String → List String → List (LiveEvent V)
  removed_events removed_type current [] = []
  removed_events removed_type current (k ∷ l) =
      let rest = removed_events removed_type current l in
      if Sets.member k current then rest else item_removed removed_type k ∷ rest

  unfoldable pub removed_collection_events :
      String → Collection V → Collection V → List (LiveEvent V)
  removed_collection_events removed_type none current = []
  removed_collection_events removed_type (some previous) none = []
  removed_collection_events removed_type (some previous) (some current) =
      removed_events removed_type (keys_of current) (keys_of previous)

module _ {ℓ} {V : Type ℓ} ⦃e : Eq V⦄ where
  -- The event of one current item.
  unfoldable pub item_event : String → String → Option V → String → V → List (LiveEvent V)
  item_event created_type updated_type none k v = item_changed created_type k v ∷ []
  item_event created_type updated_type (some w) k v =
      if e.beq w v then [] else item_changed updated_type k v ∷ []

  unfoldable pub item_events : String → String → Dict V → List (Item V) → List (LiveEvent V)
  item_events created_type updated_type previous [] = []
  item_events created_type updated_type previous (other ∷ l) =
      item_events created_type updated_type previous l
  item_events created_type updated_type previous (dict k v ∷ l) =
      let rest = item_events created_type updated_type previous l in
      if is_truthy k
      then item_event created_type updated_type (Dict.get previous k) k v ++ rest
      else rest

  unfoldable pub collection_events :
      String → String → Collection V → Collection V → List (LiveEvent V)
  collection_events created_type updated_type none current = []
  collection_events created_type updated_type (some previous) none = []
  collection_events created_type updated_type (some previous) (some current) =
      item_events created_type updated_type (by_key [] previous) current

  unfoldable pub part_events : String → V → V → List (LiveEvent V)
  part_events type previous current =
      if e.beq previous current then [] else part_updated type current ∷ []

  unfoldable pub home_live_events : HomePayload V → HomePayload V → List (LiveEvent V)
  home_live_events previous current =
      part_events "connection_updated" previous.connection current.connection
      ++ (part_events "call_updated" previous.now current.now
          ++ (collection_events "signal_created" "signal_updated" previous.signals current.signals
              ++ (removed_collection_events "signal_removed" previous.signals current.signals
                  ++ (part_events "calls_updated" previous.calls current.calls
                      ++ (collection_events "person_updated" "person_updated" previous.people
                            current.people
                          ++ (collection_events "trunk_updated" "trunk_updated" previous.trunks
                                current.trunks
                              ++ collection_events "queue_updated" "queue_updated" previous.queues
                                  current.queues))))))
