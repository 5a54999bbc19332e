-- ===== src/Relay/Dedupe.antt =====
-- A Signal is published when it is new or has changed, and not again while it stays the same.
use pbxpulse_agent.Prelude.{
  String, ◌≡◌, refl, ◌∙◌, ap, sym, Bool-cases, Option-cases, inl, inr, Bool, true, false, not, ◌&&◌,
  some, List, [], ◌∷◌, ◌++◌, arith, eq_iff, if◌then◌else◌, keep, map, All,
}
use mathlib.Core.Path.{ap₂}
use mathlib.Core.List.{append-nil, append_assoc}
use pbxpulse_agent.Prelude.Dict
use pbxpulse_agent.Prelude.Dict.{Dict}
use pbxpulse_agent.Prelude.Sets
use pbxpulse_agent.Json.{Fields}
use pbxpulse_agent.Relay.State.{RelayState, OutboxItem}
use pbxpulse_agent.Relay.Outbox.{queue}
use pbxpulse_agent.Relay.Publish.{
  should_relay, fingerprint, signal_id, active_ids, event_payload, is_delivered, relay_signal,
  relay_signals, forget_gone, collect,
}

-- No two Signals to be relayed share an id.
unfoldable pub ids_of : List Fields → List String
ids_of [] = []
ids_of (x ∷ l) = let rest = ids_of l in if should_relay x then signal_id x ∷ rest else rest

unfoldable pub unique_ids : List Fields → Bool
unique_ids [] = true
unique_ids (x ∷ l) =
    (if should_relay x then not (Sets.member (signal_id x) (ids_of l)) else true) && unique_ids l

-- The Signals that a record of deliveries calls for.
unfoldable pub is_news : Dict String → Fields → Bool
is_news delivered x = should_relay x && not (is_delivered delivered x)

abbrev pub event_item : Fields → OutboxItem
event_item x = record { kind = "events"; payload = event_payload x }

news_put :
    (d : Dict String) (k f : String) (l : List Fields)
    → Sets.member k (ids_of l) ≡ false
    → keep (is_news (Dict.put d k f)) l ≡ keep (is_news d) l
unfolding Sets.member ids_of is_news is_delivered
news_put d k f [] h = refl
news_put d k f (x ∷ l) h = ground (
  arith,
  eq_iff (signal_id x) k,
  eq_iff k (signal_id x),
  Dict.get-put d k (signal_id x) f,
  news_put d k f l,
)

queue-event :
    (payload : Fields) (s : RelayState)
    → (queue "events" payload s).outbox
      ≡ s.outbox ++ (record { kind = "events"; payload = payload }) ∷ []
unfolding queue
queue-event payload s = refl

relay_signal-cases :
    (s : RelayState) (x : Fields)
    → (is_news s.delivered x ≡ true
        → ((relay_signal s x).outbox ≡ s.outbox ++ event_item x ∷ [])
          × ((relay_signal s x).delivered ≡ Dict.put s.delivered (signal_id x) (fingerprint x)))
      × (is_news s.delivered x ≡ false → relay_signal s x ≡ s)
unfolding relay_signal is_news queue
relay_signal-cases s x = (λ h. ground arith, λ h. ground arith)

-- The events that a run of the loop queues are those of the news, in order.
relay_signals-outbox :
    (s : RelayState) (l : List Fields)
    → unique_ids l ≡ true
    → (relay_signals s l).outbox ≡ s.outbox ++ map event_item (keep (is_news s.delivered) l)
unfolding relay_signals unique_ids
relay_signals-outbox s [] u = sym (append-nil s.outbox)
relay_signals-outbox s (x ∷ l) u =
    let (fresh, stale) = relay_signal-cases s x in
    elim (Bool-cases (is_news s.delivered x)) [
      | inr e ↦
          rw (e) (
            ap (λ t. (relay_signals t l).outbox) (stale e)
            ∙ relay_signals-outbox s l (ground arith))
      | inl e ↦
          let (o, d) = fresh e in
          let same =
            news_put s.delivered (signal_id x) (fingerprint x) l (unfold is_news in ground arith) in
          rw (e) (
            relay_signals-outbox (relay_signal s x) l (ground arith)
            ∙ ap₂ (λ a b. a ++ map event_item (keep (is_news b) l)) o d
            ∙ ap (λ n. (s.outbox ++ event_item x ∷ []) ++ map event_item n) same
            ∙ append_assoc s.outbox (event_item x ∷ []) _)
    ]

-- What the loop leaves of a delivery record under an id that no Signal to be relayed has.
relay_signals-delivered :
    (s : RelayState) (l : List Fields) (k : String)
    → Sets.member k (ids_of l) ≡ false
    → Dict.get (relay_signals s l).delivered k ≡ Dict.get s.delivered k
unfolding relay_signals ids_of Sets.member is_news
relay_signals-delivered s [] k h = refl
relay_signals-delivered s (x ∷ l) k h = ground (
  arith,
  eq_iff (signal_id x) k,
  relay_signal-cases s x,
  Dict.get-put s.delivered (signal_id x) k (fingerprint x),
  relay_signals-delivered (relay_signal s x) l k,
)

delivered_found :
    (d : Dict String) (x : Fields)
    → is_delivered d x ≡ true
    → Dict.get d (signal_id x) ≡ some (fingerprint x)
unfolding is_delivered
delivered_found d x h = elim (Option-cases (Dict.get d (signal_id x))) [
  | inl e ↦ absurd (ground arith)
  | inr (f, e) ↦ ground (arith, eq_iff f (fingerprint x))
]

relay_signal_settled :
    (s : RelayState) (x : Fields)
    → should_relay x ≡ true
    → Dict.get (relay_signal s x).delivered (signal_id x) ≡ some (fingerprint x)
unfolding relay_signal queue
relay_signal_settled s x h = ground (
  arith,
  eq_iff (signal_id x) (signal_id x),
  Dict.get-put s.delivered (signal_id x) (signal_id x) (fingerprint x),
  delivered_found s.delivered x,
)

-- After the loop no Signal of the list is news.
abbrev Settled : Dict String → List Fields → Type 0
Settled d = All (λ x. is_news d x ≡ false)

news_settled :
    (d : Dict String) (x : Fields)
    → (should_relay x ≡ true → Dict.get d (signal_id x) ≡ some (fingerprint x))
    → is_news d x ≡ false
unfolding is_news is_delivered
news_settled d x h = ground (arith, eq_iff (fingerprint x) (fingerprint x))

relay_signals-Settled :
    (s : RelayState) (l : List Fields)
    → unique_ids l ≡ true
    → Settled (relay_signals s l).delivered l
unfolding relay_signals unique_ids
relay_signals-Settled s [] u = tt
relay_signals-Settled s (x ∷ l) u = (
  news_settled (relay_signals (relay_signal s x) l).delivered x (λ h.
      relay_signals-delivered (relay_signal s x) l (signal_id x) (ground arith)
      ∙ relay_signal_settled s x h),
  relay_signals-Settled (relay_signal s x) l (ground arith),
)

keep_none {ℓ} : {A : Type ℓ} (p : A → Bool) (l : List A) → All (λ x. p x ≡ false) l → keep p l ≡ []
keep_none p [] h = refl
keep_none p (x ∷ l) h = ground (arith, keep_none p l h.1)

-- Every id of a Signal to be relayed is active.
ids_active :
    (l : List Fields) (x : Fields)
    → should_relay x ≡ true
    → Sets.member (signal_id x) (active_ids (x ∷ l)) ≡ true
unfolding should_relay active_ids Sets.member
ids_active l x h = ground (arith, eq_iff (signal_id x) (signal_id x))

abbrev AllActive : List String → List Fields → Type 0
AllActive ids = All (λ x. should_relay x ≡ true → Sets.member (signal_id x) ids ≡ true)

AllActive-wider :
    (y : Fields) (l m : List Fields) → AllActive (active_ids m) l → AllActive (active_ids (y ∷ m)) l
unfolding active_ids Sets.member
AllActive-wider y [] m h = tt
AllActive-wider y (x ∷ l) m h = (λ r. ground (arith, h.0 r), AllActive-wider y l m h.1)

AllActive-self : (l : List Fields) → AllActive (active_ids l) l
AllActive-self [] = tt
AllActive-self (x ∷ l) = (ids_active l x, AllActive-wider x l l (AllActive-self l))

news_forget :
    (ids : List String) (d : Dict String) (l : List Fields)
    → AllActive ids l
    → keep (is_news (Dict.keep_keys (λ k. Sets.member k ids) d)) l ≡ keep (is_news d) l
unfolding is_news is_delivered
news_forget ids d [] h = refl
news_forget ids d (x ∷ l) h = ground (
  arith,
  h.0,
  Dict.get-keep_keys (λ k. Sets.member k ids) d (signal_id x),
  news_forget ids d l h.1,
)

-- With no id twice among the Signals to be relayed, one round queues, in order and behind all that
-- waits, exactly the events of those whose fingerprint is not the one recorded as delivered.
pub collect-outbox :
    (signals : List Fields) (s : RelayState)
    → unique_ids signals ≡ true
    → (collect signals s).outbox ≡ s.outbox ++ map event_item (keep (is_news s.delivered) signals)
unfolding collect forget_gone
collect-outbox signals s u =
    relay_signals-outbox (forget_gone signals s) signals u
    ∙ ap (λ n. s.outbox ++ map event_item n)
        (news_forget (active_ids signals) s.delivered signals (AllActive-self signals))

-- With no id twice among the Signals to be relayed, a second round with the same Signals queues
-- nothing, whatever has happened to the outbox, if the recorded deliveries are still those of the
-- first round.
pub collect_twice :
    (signals : List Fields) (s t : RelayState)
    → unique_ids signals ≡ true
    → t.delivered ≡ (collect signals s).delivered
    → (collect signals t).outbox ≡ t.outbox
collect_twice signals s t u same =
    collect-outbox signals t u
    ∙ ap (λ d. t.outbox ++ map event_item (keep (is_news d) signals)) same
    ∙ ap (λ n. t.outbox ++ map event_item n)
        (keep_none (is_news (collect signals s).delivered) signals
          (unfold collect in relay_signals-Settled (forget_gone signals s) signals u))
    ∙ append-nil t.outbox
