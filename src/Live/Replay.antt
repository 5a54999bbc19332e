-- ===== src/Live/Replay.antt =====
-- A client that applies the events of a collection to what it had arrives at the present items.
use pbxpulse_agent.Prelude.{
  String, ◌≡◌, refl, ◌∙◌, ap, Bool, true, false, not, ◌&&◌, ◌||◌, keep, Option, none, some, List,
  [], ◌∷◌, ◌++◌, arith, ◌==◌, eq_iff, if◌then◌else◌, is_some,
}
use pbxpulse_agent.Prelude.Dict
use pbxpulse_agent.Prelude.Dict.{Dict}
use pbxpulse_agent.Prelude.Sets
use pbxpulse_agent.Live.{
  Eq, Item, Collection, HomePayload, dict, other, LiveEvent, part_updated, item_changed,
  item_removed, by_key, keys_of, removed_events, removed_collection_events, item_event, item_events,
  collection_events, part_events, home_live_events,
}

abbrev later {ℓ} : {A : Type ℓ} → Option A → Option A → Option A
later (some a) old = some a
later none old = old

module _ {ℓ} {V : Type ℓ} where
  -- The client's dict of items by key.
  abbrev pub apply : Dict V → LiveEvent V → Dict V
  apply d (part_updated type v) = d
  apply d (item_changed type k v) = Dict.put d k v
  apply d (item_removed type k) = Dict.pop d k

  unfoldable pub replay : Dict V → List (LiveEvent V) → Dict V
  replay d [] = d
  replay d (x ∷ l) = replay (apply d x) l

  -- No key twice among the items.
  unfoldable pub unique : List (Item V) → Bool
  unique [] = true
  unique (dict k v ∷ l) = not (Sets.member k (keys_of l)) && unique l
  unique (other ∷ l) = unique l

  replay-append :
      (d : Dict V) (l m : List (LiveEvent V)) → replay d (l ++ m) ≡ replay (replay d l) m
  unfolding replay
  replay-append d [] m = refl
  replay-append d (x ∷ l) m = replay-append (apply d x) l m

  get-by_key :
      (d : Dict V) (l : List (Item V)) (k : String)
      → Dict.get (by_key d l) k ≡ later (Dict.get (by_key [] l) k) (Dict.get d k)
  unfolding by_key Dict.get
  get-by_key d [] k = refl
  get-by_key d (other ∷ l) k = get-by_key d l k
  get-by_key d (dict j v ∷ l) k = ground (
    arith,
    Dict.get-put d j k v,
    Dict.get-put [] j k v,
    get-by_key (Dict.put d j v) l k,
    get-by_key (Dict.put [] j v) l k,
    get-by_key d l k,
  )

  get-by_key-keys_of :
      (l : List (Item V)) (k : String)
      → is_some (Dict.get (by_key [] l) k) ≡ Sets.member k (keys_of l)
  unfolding by_key keys_of Dict.get Sets.member
  get-by_key-keys_of [] k = refl
  get-by_key-keys_of (other ∷ l) k = get-by_key-keys_of l k
  get-by_key-keys_of (dict j v ∷ l) k =
      ground
        (arith, Dict.get-put [] j k v, get-by_key (Dict.put [] j v) l k, get-by_key-keys_of l k)

  get-removed :
      (d : Dict V) (type : String) (current l : List String) (k : String)
      → Dict.get (replay d (removed_events type current l)) k
        ≡ (if Sets.member k l && not (Sets.member k current) then none else Dict.get d k)
  unfolding replay removed_events Sets.member
  get-removed d type current [] k = refl
  get-removed d type current (j ∷ l) k = ground (
    arith,
    eq_iff j k,
    Dict.get-pop d j k,
    get-removed d type current l k,
    get-removed (Dict.pop d j) type current l k,
  )

module _ {ℓ} {V : Type ℓ} ⦃e : Eq V⦄ where
  replay-item_event :
      (d : Dict V) (created updated : String) (old : Option V) (j : String) (v : V) (k : String)
      → (j ≡ k → Dict.get d k ≡ old)
      → Dict.get (replay d (item_event created updated old j v)) k
        ≡ (if j == k then some v else Dict.get d k)
  unfolding replay item_event
  replay-item_event d created updated none j v k h = Dict.get-put d j k v
  replay-item_event d created updated (some w) j v k h =
      ground (arith, eq_iff j k, e.beq_iff w v, Dict.get-put d j k v)

  replay-item_events :
      (d : Dict V) (created updated : String) (previous : Dict V) (l : List (Item V)) (k : String)
      → unique l ≡ true
      → (Sets.member k (keys_of l) ≡ true → Dict.get d k ≡ Dict.get previous k)
      → Dict.get (replay d (item_events created updated previous l)) k
        ≡ later (Dict.get (by_key [] l) k) (Dict.get d k)
  unfolding replay item_events unique keys_of by_key Dict.get Sets.member
  replay-item_events d created updated previous [] k u h = refl
  replay-item_events d created updated previous (other ∷ l) k u h =
      replay-item_events d created updated previous l k u h
  replay-item_events d created updated previous (dict j v ∷ l) k u h =
      let now = item_event created updated (Dict.get previous j) j v in
      ground (
        arith,
        eq_iff j k,
        get-by_key (Dict.put [] j v) l k,
        get-by_key-keys_of l k,
        Dict.get-put [] j k v,
        replay-append d now (item_events created updated previous l),
        replay-item_event d created updated (Dict.get previous j) j v k,
        replay-item_events (replay d now) created updated previous l k,
        replay-item_events d created updated previous l k,
      )

  replay-collection_events :
      (created updated removed : String) (previous current : List (Item V)) (k : String)
      → unique current ≡ true
      → Dict.get
          (replay (by_key [] previous) (
            collection_events created updated (some previous) (some current)
            ++ removed_collection_events removed (some previous) (some current)))
          k
        ≡ Dict.get (by_key [] current) k
  unfolding collection_events removed_collection_events
  replay-collection_events created updated removed previous current k u =
      let d = by_key [] previous in
      let changes = item_events created updated d current in
      ground (
        arith,
        replay-append d changes (removed_events removed (keys_of current) (keys_of previous)),
        get-removed (replay d changes) removed (keys_of current) (keys_of previous) k,
        replay-item_events d created updated d current k u (λ _. refl),
        get-by_key-keys_of previous k,
        get-by_key-keys_of current k,
      )

module _ {ℓ} {V : Type ℓ} where
  -- The events that are about Signals, by their types.
  unfoldable pub is_of_signals : LiveEvent V → Bool
  is_of_signals (part_updated type v) = false
  is_of_signals (item_changed type k v) = type == "signal_created" || type == "signal_updated"
  is_of_signals (item_removed type k) = type == "signal_removed"

  keep-append :
      (p : LiveEvent V → Bool) (l m : List (LiveEvent V)) → keep p (l ++ m) ≡ keep p l ++ keep p m
  keep-append p [] m = refl
  keep-append p (x ∷ l) m = ground (arith, keep-append p l m)

  append_none : (l : List (LiveEvent V)) → l ++ [] ≡ l
  append_none [] = refl
  append_none (x ∷ l) = ap (◌∷◌ x) (append_none l)

  keep-removed :
      (current l : List String)
      → keep is_of_signals (removed_events "signal_removed" current l)
        ≡ removed_events "signal_removed" current l
  unfolding removed_events is_of_signals
  keep-removed current [] = refl
  keep-removed current (k ∷ l) = ground (arith, keep-removed current l)

module _ {ℓ} {V : Type ℓ} ⦃e : Eq V⦄ where
  keep-part : (type : String) (v w : V) → keep is_of_signals (part_events type v w) ≡ []
  unfolding part_events is_of_signals
  keep-part type v w = ground arith

  keep-item_event :
      (created updated : String) (b : Bool) (old : Option V) (k : String) (v : V)
      → (created == "signal_created" || created == "signal_updated") ≡ b
      → (updated == "signal_created" || updated == "signal_updated") ≡ b
      → keep is_of_signals (item_event created updated old k v)
        ≡ (if b then item_event created updated old k v else [])
  unfolding item_event is_of_signals
  keep-item_event created updated b none k v c u = ground arith
  keep-item_event created updated b (some w) k v c u = ground arith

  keep-item_events :
      (created updated : String) (b : Bool) (previous : Dict V) (l : List (Item V))
      → (created == "signal_created" || created == "signal_updated") ≡ b
      → (updated == "signal_created" || updated == "signal_updated") ≡ b
      → keep is_of_signals (item_events created updated previous l)
        ≡ (if b then item_events created updated previous l else [])
  unfolding item_events
  keep-item_events created updated b previous [] c u = ground arith
  keep-item_events created updated b previous (other ∷ l) c u =
      keep-item_events created updated b previous l c u
  keep-item_events created updated b previous (dict k v ∷ l) c u =
      let one = item_event created updated (Dict.get previous k) k v in
      ground (
        arith,
        keep-append is_of_signals one (item_events created updated previous l),
        keep-item_event created updated b (Dict.get previous k) k v c u,
        keep-item_events created updated b previous l c u,
      )

  keep-collection :
      (created updated : String) (b : Bool) (previous current : Collection V)
      → (created == "signal_created" || created == "signal_updated") ≡ b
      → (updated == "signal_created" || updated == "signal_updated") ≡ b
      → keep is_of_signals (collection_events created updated previous current)
        ≡ (if b then collection_events created updated previous current else [])
  unfolding collection_events
  keep-collection created updated b none current c u = ground arith
  keep-collection created updated b (some l) none c u = ground arith
  keep-collection created updated b (some l) (some m) c u =
      keep-item_events created updated b (by_key [] l) m c u

  keep-home_live_events :
      (previous current : HomePayload V) (l m : List (Item V))
      → previous.signals ≡ some l
      → current.signals ≡ some m
      → keep is_of_signals (home_live_events previous current)
        ≡ collection_events "signal_created" "signal_updated" (some l) (some m)
          ++ removed_collection_events "signal_removed" (some l) (some m)
  unfolding home_live_events removed_collection_events
  keep-home_live_events previous current l m p c = simp (
    append_none {V = V} (removed_events "signal_removed" (keys_of m) (keys_of l)),
    p,
    c,
    keep-append,
    keep-part,
    keep-removed,
    keep-collection "signal_created" "signal_updated" true (some l) (some m) refl refl,
    keep-collection "person_updated" "person_updated" false previous.people current.people refl
        refl,
    keep-collection "trunk_updated" "trunk_updated" false previous.trunks current.trunks refl refl,
    keep-collection "queue_updated" "queue_updated" false previous.queues current.queues refl refl,
  )

  -- A client that holds the Signals of the previous payload by id and applies those of the live
  -- events that are about Signals, in their order, holds the Signals of the current payload by id, if
  -- both payloads have a list of Signals, and no id is there twice in the current one.
  pub replay-home_live_events :
      (previous current : HomePayload V) (l m : List (Item V)) (k : String)
      → previous.signals ≡ some l
      → current.signals ≡ some m
      → unique m ≡ true
      → Dict.get (replay (by_key [] l) (keep is_of_signals (home_live_events previous current))) k
        ≡ Dict.get (by_key [] m) k
  replay-home_live_events previous current l m k p c u =
      ap (λ x. Dict.get (replay (by_key [] l) x) k) (keep-home_live_events previous current l m p c)
      ∙ replay-collection_events "signal_created" "signal_updated" "signal_removed" l m k u
