-- ===== src/Relay/Order.antt =====
-- The outbox is a queue: it is sent from the front, nothing is lost or reordered, and a device has
-- at most one registration in it.
use pbxpulse_agent.Prelude.{
  ℕ, ◌+◌, ◌≤◌, String, ◌≡◌, refl, ◌∙◌, ap, sym, Bool, true, false, not, List, [], ◌∷◌, ◌++◌, arith,
  ◌==◌, eq_iff, if◌then◌else◌, keep, All, count_if, length, length-take_last-le, Bool-cases, inl,
  inr,
}
use mathlib.Core.Path.{subst}
use pbxpulse_agent.Json.{Fields}
use pbxpulse_agent.Relay.State.{
  RelayState, OutboxItem, Reply, response, refused, failed, is_retryable,
}
use pbxpulse_agent.Relay.Outbox.{
  token_of, is_registration, queue, accept, reject, flush_items, flush,
}

-- The reply leaves the item waiting for a later attempt.
abbrev pub stops : Reply → Bool
stops (response _) = false
stops (refused status _) = is_retryable status
stops failed = true

-- Some attempt on the first item left it waiting.
abbrev pub Waits : {W : Type 0} → (W → OutboxItem → W × Reply) → List OutboxItem → Type 0
Waits post [] = Unit
Waits {W} post (item ∷ rest) = (w : W) × (stops (post w item).1 ≡ true)

-- Some attempt on the item was answered, or refused for good.
abbrev pub IsDone : {W : Type 0} → (W → OutboxItem → W × Reply) → OutboxItem → Type 0
IsDone {W} post item = (w : W) × (stops (post w item).1 ≡ false)

module _ {W : Type 0} (post : W → OutboxItem → W × Reply) (at : ℕ) where
  abbrev pub Split : List OutboxItem → List OutboxItem → Type 0
  Split l left =
      (sent : List OutboxItem) × (l ≡ sent ++ left) × All (IsDone post) sent × Waits post left

  step-Split :
      (item : OutboxItem) (rest left : List OutboxItem) (w : W)
      → stops (post w item).1 ≡ false
      → Split rest left
      → Split (item ∷ rest) left
  step-Split item rest left w h (sent, e, gone, waits) =
      (item ∷ sent, ap (◌∷◌ item) e, ((w, h), gone), waits)

  blocked-Split :
      (item : OutboxItem) (rest left : List OutboxItem) (w : W)
      → left ≡ item ∷ rest
      → stops (post w item).1 ≡ true
      → Split (item ∷ rest) left
  blocked-Split item rest left w o e = ([], sym o, tt, subst (Waits post) (sym o) (w, e))

  -- One item's reply, with the rest of the outbox done.
  reply-Split :
      (item : OutboxItem) (rest : List OutboxItem) (w : W) (s : RelayState) (reply : Reply)
      → (post w item).1 ≡ reply
      → s.outbox ≡ item ∷ rest
      → ((w' : W) (t : RelayState)
          → t.outbox ≡ rest
          → Split rest (flush_items post at rest w' t).1.outbox)
      → Split (item ∷ rest) (flush_items post at (item ∷ rest) w s).1.outbox
  unfolding flush_items accept reject
  reply-Split item rest w s (response r) e o ih =
      rw (e, flush_items)
        (step-Split item rest
          (flush_items post at rest (post w item).0 (accept item rest s)).1.outbox w (ap stops e)
          (ih (post w item).0 (accept item rest s) refl))
  reply-Split item rest w s failed e o ih =
      rw (e, flush_items) (blocked-Split item rest s.outbox w o (ap stops e))
  reply-Split item rest w s (refused status message) e o ih =
      let t = reject at status message item rest s in
      elim (Bool-cases (is_retryable status)) [
        | inl k ↦ rw (e, flush_items, k) (blocked-Split item rest s.outbox w o (ap stops e ∙ k))
        | inr k ↦
            rw (e, flush_items, k)
              (step-Split item rest (flush_items post at rest (post w item).0 t).1.outbox w
                (ap stops e ∙ k) (ih (post w item).0 t refl))
      ]

  flush_items-Split :
      (l : List OutboxItem) (w : W) (s : RelayState)
      → s.outbox ≡ l
      → Split l (flush_items post at l w s).1.outbox
  unfolding flush_items
  flush_items-Split [] w s o = ([], sym o, tt, subst (Waits post) (sym o) tt)
  flush_items-Split (item ∷ rest) w s o =
      reply-Split item rest w s (post w item).1 refl o (λ w' t. flush_items-Split rest w' t)

  -- A flush takes items from the front of the outbox and keeps the others, in order. An attempt on
  -- each item that it takes was answered, or refused with a status that is not to be tried again.
  -- Where it leaves some, an attempt on the first of them failed, or was refused with a status that
  -- is to be tried again.
  pub flush-Split : (w : W) (s : RelayState) → Split s.outbox (flush post at w s).1.outbox
  unfolding flush
  flush-Split w s = flush_items-Split s.outbox w s refl

abbrev HasFewRejected : RelayState → Type 0
HasFewRejected s = length s.rejected_outbox ≤ 20

module _ {W : Type 0} (post : W → OutboxItem → W × Reply) (at : ℕ) where
  reply-HasFewRejected :
      (item : OutboxItem) (rest : List OutboxItem) (w : W) (s : RelayState) (reply : Reply)
      → (post w item).1 ≡ reply
      → HasFewRejected s
      → ((w' : W) (t : RelayState)
          → HasFewRejected t
          → HasFewRejected (flush_items post at rest w' t).1)
      → HasFewRejected (flush_items post at (item ∷ rest) w s).1
  unfolding flush_items accept reject
  reply-HasFewRejected item rest w s (response r) e h ih =
      rw (e, flush_items) (ih (post w item).0 (accept item rest s) h)
  reply-HasFewRejected item rest w s failed e h ih = rw (e, flush_items) h
  reply-HasFewRejected item rest w s (refused status message) e h ih =
      elim (Bool-cases (is_retryable status)) [
        | inl k ↦ rw (e, flush_items, k) h
        | inr k ↦
            rw (e, flush_items, k)
              (ih (post w item).0 (reject at status message item rest s) (
                length-take_last-le 20 (
                  s.rejected_outbox
                  ++ (record { kind = item.kind; status = status; at = at }) ∷ [])))
      ]

  -- However many items a flush has refused for good, the state remembers at most twenty of them.
  pub flush_items-HasFewRejected :
      (l : List OutboxItem) (w : W) (s : RelayState)
      → HasFewRejected s
      → HasFewRejected (flush_items post at l w s).1
  unfolding flush_items
  flush_items-HasFewRejected [] w s h = h
  flush_items-HasFewRejected (item ∷ rest) w s h =
      reply-HasFewRejected item rest w s (post w item).1 refl h
        (λ w' t. flush_items-HasFewRejected rest w' t)

-- How many registrations of a token the outbox holds.
abbrev pub registrations : String → List OutboxItem → ℕ
registrations token = count_if (is_registration token)

registrations-append :
    (token : String) (l : List OutboxItem) (item : OutboxItem)
    → registrations token (l ++ item ∷ [])
      ≡ registrations token l + (if is_registration token item then 1 else 0)
registrations-append token [] item = ground arith
registrations-append token (x ∷ l) item = ground (arith, registrations-append token l item)

registrations-keep :
    (token other : String) (l : List OutboxItem)
    → registrations token (keep (λ i. not (is_registration other i)) l)
      ≡ (if other == token then 0 else registrations token l)
unfolding is_registration
registrations-keep token other [] = ground arith
registrations-keep token other (x ∷ l) = ground (
  arith,
  eq_iff other token,
  eq_iff (token_of x.payload) token,
  eq_iff (token_of x.payload) other,
  registrations-keep token other l,
)

-- What the outbox holds besides the registrations of a token, in order.
abbrev pub others : String → List OutboxItem → List OutboxItem
others token = keep (λ i. not (is_registration token i))

others-append :
    (token : String) (l : List OutboxItem) (item : OutboxItem)
    → is_registration token item ≡ true
    → others token (l ++ item ∷ []) ≡ others token l
others-append token [] item h = ground arith
others-append token (x ∷ l) item h = ground (arith, others-append token l item h)

others-others :
    (token : String) (l : List OutboxItem) → others token (others token l) ≡ others token l
others-others token [] = refl
others-others token (x ∷ l) = ground (arith, others-others token l)

is_registration-kind :
    (payload : Fields) (token : String)
    → is_registration token (record { kind = "devices"; payload = payload })
      ≡ (token_of payload == token)
unfolding is_registration
is_registration-kind payload token = refl

is_registration_self :
    (payload : Fields)
    → is_registration (token_of payload) (record { kind = "devices"; payload = payload }) ≡ true
unfolding is_registration
is_registration_self payload = ground (arith, eq_iff (token_of payload) (token_of payload))

-- Queueing a registration leaves exactly one of its token, the new one at the end, keeps all else in
-- order, and does not touch the registrations of other tokens.
pub queue-registrations :
    (payload : Fields) (s : RelayState) (token : String)
    → (registrations token (queue "devices" payload s).outbox
        ≡ (if token_of payload == token then 1 else registrations token s.outbox))
      × (others (token_of payload) (queue "devices" payload s).outbox
          ≡ others (token_of payload) s.outbox)
      × ((queue "devices" payload s).outbox
          ≡ others (token_of payload) s.outbox
            ++ (record { kind = "devices"; payload = payload }) ∷ [])
unfolding queue
queue-registrations payload s token =
    let kept = others (token_of payload) s.outbox in
    let item : OutboxItem = record { kind = "devices"; payload = payload } in
    let same = is_registration_self payload in
    (
      ground (
        arith,
        registrations-append token kept item,
        registrations-keep token (token_of payload) s.outbox,
        is_registration-kind payload token,
      ),
      others-append (token_of payload) kept item same ∙ others-others (token_of payload) s.outbox,
      refl,
    )
