-- ===== src/Home/Feed.antt =====
-- The Activity of the home payload: `_activity_signals` of pbxsense_agent/pulse.py. A time is in
-- microseconds.
use pbxpulse_agent.Prelude.{
  ℕ, suc, ◌+◌, ◌-◌, ◌*◌, ◌/◌, ◌≤◌, String, ◌≡◌, refl, ◌∙◌, ap, sym, Bool, ◌||◌, List, [], ◌∷◌, ◌++◌,
  leb, ltb, nat_eq, arith, if◌then◌else◌, concat, decimal, keep, map, length, take, length-take,
}
use pbxpulse_agent.Prelude.Clock.{second, hour}
use pbxpulse_agent.Prelude.Dict.{Dict}
use pbxpulse_agent.Prelude.Firsts.{firsts}
use pbxpulse_agent.Snapshot.{AmiChannel}
use pbxpulse_agent.Activity.Moment.{ActivityEvent}
use pbxpulse_agent.Home.Calls.{call_group_key, dedupe_call_channels}
use pbxpulse_agent.Home.Calls.Groups.{dedupe_call_channels-firsts}

-- `actionLabel` is always missing here.
pub record FeedSignal : Type 0 where
  pub id : String
  pub kind : String
  pub category : String
  pub importance : String
  pub state : String
  pub title : String
  pub body : String
  pub time_label : String
  pub why : List String
  pub technical : Dict String

-- `_activity_event_time_label`
unfoldable pub activity_event_time_label : ℕ → ℕ → String
activity_event_time_label observed_at now =
    let elapsed_seconds = (now - observed_at) / second in
    if ltb elapsed_seconds 60
    then "Just now"
    else if ltb (elapsed_seconds / 60) 60
    then concat (decimal (elapsed_seconds / 60) ∷ "m ago" ∷ [])
    else "Earlier today"

-- `_valid_moment_hours`
unfoldable pub valid_moment_hours : ℕ → ℕ
valid_moment_hours hours =
    if nat_eq hours 1 || nat_eq hours 3 || nat_eq hours 6 || nat_eq hours 12 || nat_eq hours 24
    then hours
    else 24

unfoldable pub live_calls : List AmiChannel → FeedSignal
live_calls channels = record {
  id = "sig_activity_live_calls";
  kind = "pbx_live_calls_activity";
  category = "activity";
  importance = "feed";
  state = "active";
  title = "Live calls are under way.";
  body = "PBXSense is seeing call activity on the PBX right now.";
  time_label = "Now";
  why =
      "The PBX connector reported active call channels."
      ∷ "This is a live event, not a comparison with earlier call history." ∷ [];
  technical = ("active_calls", decimal (length (dedupe_call_channels channels))) ∷ [];
}

unfoldable pub event_signal : ℕ → ActivityEvent → FeedSignal
event_signal now event = record {
  id = event.id;
  kind = event.kind;
  category = event.category;
  importance = "feed";
  state = "active";
  title = event.title;
  body = event.body;
  time_label = activity_event_time_label event.observed_at now;
  why = "PBXSense observed a change between PBX snapshots." ∷ event.why ∷ [];
  technical = event.technical;
}

-- `event["observed_at"] >= now - moment_hours`
unfoldable pub is_in_hours : ℕ → ℕ → ActivityEvent → Bool
is_in_hours now moment_hours event = leb now (event.observed_at + moment_hours * hour)

unfoldable pub live_part : List AmiChannel → List FeedSignal
live_part [] = []
live_part (c ∷ l) = live_calls (c ∷ l) ∷ []

-- `_activity_signals`
unfoldable pub activity_signals : List AmiChannel → ℕ → ℕ → List ActivityEvent → List FeedSignal
unfolding live_part event_signal is_in_hours
activity_signals channels now moment_hours events =
    take 5
      (live_part channels ++ map (event_signal now) (keep (is_in_hours now moment_hours) events))

length-map {ℓ κ} : {A : Type ℓ} {B : Type κ} (f : A → B) (l : List A) → length (map f l) ≡ length l
length-map f [] = refl
length-map f (x ∷ l) = ap suc (length-map f l)

live_calls-count :
    (channels : List AmiChannel)
    → (live_calls channels).technical
      ≡ ("active_calls", decimal (length (firsts [] (map call_group_key channels)))) ∷ []
unfolding live_calls
live_calls-count channels =
    ap (λ n. ("active_calls", decimal n) ∷ [])
      (sym (length-map call_group_key (dedupe_call_channels channels))
        ∙ ap length (dedupe_call_channels-firsts channels))

-- At most five Signals are shown, with active channels or without. While a channel is active, the
-- first of them says how many different calls there are, by their group keys.
pub activity_signals-firsts :
    (channels : List AmiChannel) (first : AmiChannel) (others : List AmiChannel)
    (now moment_hours : ℕ) (events : List ActivityEvent)
    → (length (activity_signals channels now moment_hours events) ≤ 5)
      × (map (λ s. s.technical) (take 1 (activity_signals (first ∷ others) now moment_hours events))
          ≡ (("active_calls", decimal (length (firsts [] (map call_group_key (first ∷ others)))))
              ∷ [])
            ∷ [])
unfolding activity_signals live_part
activity_signals-firsts channels first others now moment_hours events = (
  omega (
    arith,
    length-take 5
        (live_part channels ++ map (event_signal now) (keep (is_in_hours now moment_hours) events)),
  ),
  ap (λ t. t ∷ []) (live_calls-count (first ∷ others)),
)
