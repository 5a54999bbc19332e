-- ===== src/Activity/Moment.antt =====
-- `_MomentState`, `_moment_state` and the Activity events of pbxsense_agent/pulse.py.
use Prim.Native.Nat.{Ordering}
use Prim.Native.String.{compare as compare_text}
use pbxpulse_agent.Prelude.{
  ℕ, ◌/◌, String, Bool, true, false, not, ◌&&◌, none, some, List, [], ◌∷◌, map, ◌==◌, any, keep,
  if◌then◌else◌, concat, decimal, join, lower, contains, codes, or_else, to_nat, safe_id, is_truthy,
  leb, split, nat_eq,
}
use pbxpulse_agent.Prelude.Clock.{isoformat}
use pbxpulse_agent.Prelude.Dict
use pbxpulse_agent.Prelude.Dict.{Dict}
use pbxpulse_agent.Prelude.Sets
use pbxpulse_agent.CallKind.{CallKind, missed, ivr_reached, answered, other, interpreted_call_kind}
use pbxpulse_agent.Snapshot.{
  AmiChannel, AmiEndpoint, AmiSnapshot, CdrCall, VoicemailMessage, endpoint_unavailable, is_trunk,
  is_active_channel,
}

pub record MomentState : Type 0 where
  pub reachable : Bool
  pub monitored_extensions : List String
  pub queue_waiting : List (String × ℕ)
  pub unavailable_extensions : List String
  pub voicemail_keys : List String
  pub queue_abandonment_keys : List String
  pub unavailable_trunks : List String
  pub active_trunks : List String

-- Pairs in the order of tuples: by the name, then by the number.
pair_le : String × ℕ → String × ℕ → Bool
pair_le (a, m) (b, n) = elim (compare_text a b) [
  | Ordering.lt ↦ true
  | Ordering.eq ↦ leb m n
  | Ordering.gt ↦ false
]

insert_pair : String × ℕ → List (String × ℕ) → List (String × ℕ)
insert_pair p [] = p ∷ []
insert_pair p (q ∷ l) = if pair_le p q then p ∷ q ∷ l else q ∷ insert_pair p l

unfoldable pub sorted_pairs : List (String × ℕ) → List (String × ℕ)
unfolding pair_le insert_pair
sorted_pairs [] = []
sorted_pairs (p ∷ l) = insert_pair p (sorted_pairs l)

unfoldable pub voicemail_keys_of : List VoicemailMessage → List String
voicemail_keys_of [] = []
voicemail_keys_of (m ∷ l) =
    let rest = voicemail_keys_of l in
    elim m.created_at [
      | none ↦ rest
      | some t ↦ concat (m.mailbox ∷ "|" ∷ m.caller ∷ "|" ∷ isoformat t ∷ []) ∷ rest
    ]

is_missed : CallKind → Bool
is_missed missed = true
is_missed ivr_reached = false
is_missed answered = false
is_missed other = false

mentions_queue : CdrCall → Bool
mentions_queue call =
    contains (codes "queue") (lower (join " " (call.context ∷ call.last_app ∷ call.last_data ∷ [])))

unfoldable pub queue_abandonment_keys_of : List CdrCall → List String
unfolding is_missed mentions_queue
queue_abandonment_keys_of [] = []
queue_abandonment_keys_of (call ∷ l) =
    let rest = queue_abandonment_keys_of l in
    elim call.started_at [
      | none ↦ rest
      | some t ↦
          if is_missed (interpreted_call_kind call) && mentions_queue call
          then concat (call.source ∷ "|" ∷ isoformat t ∷ []) ∷ rest
          else rest
    ]

channel_trunk : AmiChannel → String
channel_trunk channel = or_else channel.endpoint channel.extension

unfoldable pub active_trunks_of : List AmiEndpoint → List AmiChannel → List String
unfolding channel_trunk
active_trunks_of endpoints [] = []
active_trunks_of endpoints (c ∷ l) =
    let rest = active_trunks_of endpoints l in
    if any (λ e. is_trunk e && e.extension == channel_trunk c) endpoints && is_active_channel c
    then channel_trunk c ∷ rest
    else rest

abbrev extensions : List AmiEndpoint → List String
extensions l = Sets.of_list (map (λ e. e.extension) l)

unfoldable pub moment_state : AmiSnapshot → MomentState
moment_state snapshot = record {
  reachable = snapshot.reachable;
  monitored_extensions = extensions (keep (λ e. not (is_trunk e)) snapshot.endpoints);
  queue_waiting = sorted_pairs (map (λ q. (q.name, to_nat q.waiting_callers)) snapshot.queues);
  unavailable_extensions =
      extensions (keep (λ e. not (is_trunk e) && endpoint_unavailable e) snapshot.endpoints);
  voicemail_keys = Sets.of_list (voicemail_keys_of snapshot.voicemails);
  queue_abandonment_keys = Sets.of_list (queue_abandonment_keys_of snapshot.recent_calls);
  unavailable_trunks =
      extensions (keep (λ e. is_trunk e && endpoint_unavailable e) snapshot.endpoints);
  active_trunks = Sets.of_list (active_trunks_of snapshot.endpoints snapshot.channels);
}

-- `dict(queue_waiting)`
unfoldable pub waiting_of : MomentState → Dict ℕ
waiting_of m = Dict.from_entries [] m.queue_waiting

pub record ActivityEvent : Type 0 where
  pub id : String
  pub kind : String
  pub title : String
  pub body : String
  pub why : String
  pub technical : Dict String
  pub observed_at : ℕ
  pub category : String

-- The event that `_add_event` appends; the id ends in the whole seconds of the time.
unfoldable pub make_event :
    ℕ → String → String → String → String → Dict String → String → String → ActivityEvent
make_event observed_at kind title body why technical scope category = record {
  id = concat (
      "sig_moment_"
      ∷ kind
      ∷ "_"
      ∷ (if is_truthy scope then safe_id scope else "office")
      ∷ "_"
      ∷ decimal (observed_at / 1000000)
      ∷ []);
  kind = kind;
  title = title;
  body = body;
  why = why;
  technical = technical;
  observed_at = observed_at;
  category = category;
}

abbrev pub all_recovered : String
all_recovered = "All monitored phones are reachable again."

-- `_activity_event_is_still_current`; `event["technical"][…]` reads a key that the event has.
unfoldable pub is_still_current : ActivityEvent → MomentState → Bool
is_still_current event current =
    if event.kind == "pbx_queue_cleared_activity"
    then nat_eq
        (Dict.get_default (waiting_of current) (Dict.get_default event.technical "queue" "") 0) 0
    else if event.kind == "pbx_phone_recovered_activity"
    then (if event.title == all_recovered
        then not (any (λ _. true) current.unavailable_extensions)
        else Sets.is_disjoint
            (keep is_truthy
              (split b',' (Dict.get_default event.technical "recovered_extensions" "")))
            current.unavailable_extensions)
    else true
