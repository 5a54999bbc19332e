-- ===== src/Session/Commands.antt =====
-- What a session answers and keeps.
use pbxpulse_agent.Prelude.{
  ℕ, zero, suc, ℤ, pos, negsuc, ◌≤◌, String, ◌≡◌, refl, ◌∙◌, ap, sym, true, false, ◌&&◌, Option,
  none, some, List, [], ◌∷◌, ◌++◌, arith, leb, if◌then◌else◌, length, take, length-append,
  Bool-cases, inl, inr,
}
use mathlib.Core.Path.{subst}
use pbxpulse_agent.Json
use pbxpulse_agent.Json.{Json, Items, Fields, null, bool, num, str, arr, obj, nil, cons}
use pbxpulse_agent.Session.{
  Session, Response, response_to, responses_to, count, accept_commands, Outcome, done, raised,
  with_seconds, accept_policy, Exchanged, result, error, after_commands, after_exchange, is_due,
  fail, succeed, exchange_step, publish_step, finish, settle, poll, commands_of,
}

-- A session has at most twenty responses to send, and its interval lies in the policy's bounds.
pub record IsValid (s : Session) : Type 0 where
  pub few : length s.pending_responses ≤ 20
  pub low : 60 ≤ s.control_exchange_seconds
  pub high : s.control_exchange_seconds ≤ 900

length-response_to : (now : ℕ) (raw : Json) → length (response_to now raw) ≤ 1
unfolding response_to
length-response_to now (obj raw) = ground arith
length-response_to now null = omega arith
length-response_to now (bool b) = omega arith
length-response_to now (num n) = omega arith
length-response_to now (str s) = omega arith
length-response_to now (arr l) = omega arith

length-responses_to : (now : ℕ) (l : Items) → length (responses_to now l) ≤ count l
unfolding responses_to count
length-responses_to now nil = omega arith
length-responses_to now (cons raw l) = ground (
  arith,
  length-append (response_to now raw) (responses_to now l),
  length-response_to now raw,
  length-responses_to now l,
)

with_seconds-IsValid : (n : ℤ) (s : Session) → IsValid s → IsValid (with_seconds n s)
unfolding with_seconds
with_seconds-IsValid (negsuc n) s h = h
with_seconds-IsValid (pos n) s h = elim (Bool-cases (leb 60 n && leb n 900)) [
  | inl e ↦ rw (e) (record { few = h.few; low = ground arith; high = ground arith })
  | inr e ↦ rw (e) h
]

accept_policy-IsValid : (p : Json) (s : Session) → IsValid s → IsValid (accept_policy p s)
unfolding accept_policy
accept_policy-IsValid (obj d) s h = with_seconds-IsValid _ s h
accept_policy-IsValid null s h = h
accept_policy-IsValid (bool b) s h = h
accept_policy-IsValid (num n) s h = h
accept_policy-IsValid (str t) s h = h
accept_policy-IsValid (arr l) s h = h

abbrev IsValidOutcome : Outcome → Type 0
IsValidOutcome (raised message) = Unit
IsValidOutcome (done s) = IsValid s

accept_commands-IsValidOutcome :
    (now : ℕ) (raw : Json) (s : Session)
    → IsValid s
    → s.pending_responses ≡ []
    → IsValidOutcome (accept_commands now raw s)
unfolding accept_commands
accept_commands-IsValidOutcome now (arr raw) s h e = elim (Bool-cases (leb 21 (count raw))) [
  | inl f ↦ rw (f) tt
  | inr f ↦ rw (f) (record {
    few = ground (
      arith,
      length-append s.pending_responses (responses_to now raw),
      length-responses_to now raw,
    );
    low = h.low;
    high = h.high;
  })
]
accept_commands-IsValidOutcome now null s h e = tt
accept_commands-IsValidOutcome now (bool b) s h e = tt
accept_commands-IsValidOutcome now (num n) s h e = tt
accept_commands-IsValidOutcome now (str x) s h e = tt
accept_commands-IsValidOutcome now (obj d) s h e = tt

after_commands-IsValid :
    (now : ℕ) (r : Fields) (sent : Session) (o : Outcome)
    → IsValid sent
    → IsValidOutcome o
    → IsValid (after_commands now r sent o).0
unfolding after_commands
after_commands-IsValid now r sent (raised message) h k = h
after_commands-IsValid now r sent (done s) h k =
    let p = accept_policy-IsValid (Json.get r "policy") s k in
    record { few = p.few; low = p.low; high = p.high }

after_exchange-IsValid :
    (now : ℕ) (reply : Exchanged) (s : Session) → IsValid s → IsValid (after_exchange now reply s).0
unfolding after_exchange
after_exchange-IsValid now (error message) s h = h
after_exchange-IsValid now (result received r) s h =
    let sent : IsValid (record s { pending_responses = [] }) = record {
      few = omega arith;
      low = h.low;
      high = h.high;
    } in
    after_commands-IsValid now r _ _ sent (accept_commands-IsValidOutcome _ _ _ sent refl)

-- The answers to the commands of a reply.
unfoldable pub answered : ℕ → Json → List Response
answered received (arr raw) = if leb (count raw) 20 then responses_to received raw else []
answered received null = []
answered received (bool b) = []
answered received (num n) = []
answered received (str s) = []
answered received (obj d) = []

with_seconds-pending :
    (n : ℤ) (s : Session) → (with_seconds n s).pending_responses ≡ s.pending_responses
unfolding with_seconds
with_seconds-pending (negsuc n) s = refl
with_seconds-pending (pos n) s = ground arith

accept_policy-pending :
    (p : Json) (s : Session) → (accept_policy p s).pending_responses ≡ s.pending_responses
unfolding accept_policy
accept_policy-pending (obj d) s = with_seconds-pending _ s
accept_policy-pending null s = refl
accept_policy-pending (bool b) s = refl
accept_policy-pending (num n) s = refl
accept_policy-pending (str t) s = refl
accept_policy-pending (arr l) s = refl

-- What the server says decides what is to be sent next.
abbrev pub pending_after : ℕ → Exchanged → List Response → List Response
pending_after now (error message) pending = pending
pending_after now (result received r) pending = answered received (commands_of r)

after_commands-answered :
    (now received : ℕ) (r : Fields) (sent : Session) (raw : Json)
    → sent.pending_responses ≡ []
    → (after_commands now r sent (accept_commands received raw sent)).0.pending_responses
      ≡ answered received raw
unfolding answered accept_commands after_commands
after_commands-answered now received r sent (arr raw) e = elim (Bool-cases (leb 21 (count raw))) [
  | inl f ↦ ground (arith, e)
  | inr f ↦ ground (
    arith,
    e,
    accept_policy-pending (Json.get r "policy")
        (record sent { pending_responses = sent.pending_responses ++ responses_to received raw }),
  )
]
after_commands-answered now received r sent null e = e
after_commands-answered now received r sent (bool b) e = e
after_commands-answered now received r sent (num n) e = e
after_commands-answered now received r sent (str t) e = e
after_commands-answered now received r sent (obj d) e = e

after_exchange-pending_after :
    (now : ℕ) (reply : Exchanged) (s : Session)
    → (after_exchange now reply s).0.pending_responses ≡ pending_after now reply s.pending_responses
unfolding after_exchange
after_exchange-pending_after now (error message) s = refl
after_exchange-pending_after now (result received r) s =
    after_commands-answered now received r _ (commands_of r) refl

take_few : (l : List Response) (n : ℕ) → length l ≤ n → take n l ≡ l
take_few [] zero h = refl
take_few [] (suc n) h = refl
take_few (x ∷ l) zero h = absurd (omega (arith, h))
take_few (x ∷ l) (suc n) h = ap (◌∷◌ x) (take_few l n (omega (arith, h)))

-- The session after a poll is that of the exchange, but for its connection and its error.
pub record SameExchange (s t : Session) : Type 0 where
  pub pending : t.pending_responses ≡ s.pending_responses
  pub seconds : t.control_exchange_seconds ≡ s.control_exchange_seconds
  pub last : t.last_exchange_at ≡ s.last_exchange_at

settle-SameExchange :
    {W : Type 0} (w : W) (s : Session) (o : Option String) → SameExchange s (settle w s o).1
unfolding settle succeed fail
settle-SameExchange w s none = record { pending = refl; seconds = refl; last = refl }
settle-SameExchange w s (some message) = record { pending = refl; seconds = refl; last = refl }

module _ {W : Type 0} (exchange : W → List Response → W × Exchanged)
    (publish : Option (W → W × Option String)) where
  finish-SameExchange :
      (w : W) (s : Session) (o : Option String) (f : Option (W → W × Option String))
      → SameExchange s (finish exchange f w s o).1
  unfolding finish publish_step
  finish-SameExchange w s (some message) f = settle-SameExchange w s (some message)
  finish-SameExchange w s none none = settle-SameExchange w s none
  finish-SameExchange w s none (some g) = settle-SameExchange (g w).0 s (g w).1

  poll_on :
      (now : ℕ) (w : W) (s : Session)
      → s.enabled ≡ true
      → poll exchange publish now w s
        ≡ finish exchange publish
            (exchange_step exchange publish now w s).0
            (exchange_step exchange publish now w s).1
            (exchange_step exchange publish now w s).2
  unfolding poll
  poll_on now w s on = simp (on)

  poll_off :
      (now : ℕ) (w : W) (s : Session) → s.enabled ≡ false → poll exchange publish now w s ≡ (w, s)
  unfolding poll
  poll_off now w s off = simp (off)

  poll-SameExchange :
      (now : ℕ) (w : W) (s : Session)
      → s.enabled ≡ true
      → SameExchange (exchange_step exchange publish now w s).1 (poll exchange publish now w s).1
  poll-SameExchange now w s on =
      let (w', s', problem) = exchange_step exchange publish now w s in
      subst (λ p. SameExchange s' p.1) (sym (poll_on now w s on))
        (finish-SameExchange w' s' problem publish)

  exchange_step-IsValid :
      (now : ℕ) (w : W) (s : Session)
      → IsValid s
      → IsValid (exchange_step exchange publish now w s).1
  unfolding exchange_step
  exchange_step-IsValid now w s h = elim (Bool-cases (is_due now s)) [
    | inl e ↦ rw (e) (after_exchange-IsValid now _ s h)
    | inr e ↦ rw (e) h
  ]

  -- Whatever the server and the publisher answer, a poll leaves at most twenty responses to send and
  -- an interval between 60 and 900 seconds, if it was so before.
  pub poll-IsValid :
      (now : ℕ) (w : W) (s : Session) → IsValid s → IsValid (poll exchange publish now w s).1
  unfolding poll
  poll-IsValid now w s h = elim (Bool-cases s.enabled) [
    | inr e ↦ subst (λ p. IsValid p.1) (sym (poll_off now w s e)) h
    | inl e ↦
        let t = exchange_step-IsValid now w s h in
        let k = poll-SameExchange now w s e in
        record {
          few = ground (arith, t.few, k.pending);
          low = ground (arith, t.low, k.seconds);
          high = ground (arith, t.high, k.seconds);
        }
  ]

  exchange_step-pending_after :
      (now : ℕ) (w : W) (s : Session)
      → IsValid s
      → is_due now s ≡ true
      → (exchange_step exchange publish now w s).1.pending_responses
        ≡ pending_after now (exchange w s.pending_responses).1 s.pending_responses
  unfolding exchange_step
  exchange_step-pending_after now w s h due = simp (due) (
      after_exchange-pending_after now (exchange w (take 20 s.pending_responses)).1 s
      ∙ ap (λ l. pending_after now (exchange w l).1 s.pending_responses)
          (take_few s.pending_responses 20 h.few))

  -- In an enabled session with at most twenty pending responses, when an exchange is due, all of
  -- them are sent. They stay pending if the exchange
  -- fails. If it succeeds, what is pending next are the answers to the commands of the reply, in
  -- their order, or nothing where the commands are no list or more than twenty.
  pub poll-pending :
      (now : ℕ) (w : W) (s : Session)
      → IsValid s
      → s.enabled ≡ true
      → is_due now s ≡ true
      → (poll exchange publish now w s).1.pending_responses
        ≡ pending_after now (exchange w s.pending_responses).1 s.pending_responses
  poll-pending now w s h on due =
      (poll-SameExchange now w s on).pending ∙ exchange_step-pending_after now w s h due
