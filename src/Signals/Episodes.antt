-- ===== src/Signals/Episodes.antt =====
-- One extension against its outages: a Signal belongs to the outage that is going on, and is shown
-- once an observation finds that outage as old as the confirmation period.
use pbxpulse_agent.Prelude.{
  ℕ, ◌+◌, String, ◌≡◌, refl, Bool, true, false, ◌||◌, Option, none, some, arith, leb, is_truthy,
  is_truthy-append, concat,
}
use pbxpulse_agent.Signals.{
  EndpointSignalState, SignalTracker, fresh_id, begin_outage, ensure_id, confirm_outage,
  observe_unavailable, observe_available,
}
use pbxpulse_agent.Signals.Pointwise.{react}

-- No outage is going on; or one is, since a time, and it has or has not been confirmed.
pub data Outage : Type 0 where
  up : Outage
  down : ℕ → Bool → Outage

unfoldable pub next_outage : ℕ → ℕ → Option Bool → Outage → Outage
next_outage period now (some true) up = down now (leb (now + period) now)
next_outage period now (some true) (down since confirmed) =
    down since (confirmed || leb (since + period) now)
next_outage period now (some false) outage = up
next_outage period now none outage = up

unfoldable pub is_confirmed : Outage → Bool
is_confirmed up = false
is_confirmed (down since confirmed) = confirmed

-- What the tracker may remember of an extension with that outage.
abbrev pub Remembers : String → Outage → Option EndpointSignalState → Type 0
Remembers k up none = Unit
Remembers k up (some s) =
    (s.episode_notified ≡ true)
    × (s.signal_visible ≡ false)
    × ((t : ℕ) × (s.recovery_started_at ≡ some t))
Remembers k (down since confirmed) none = ⊥
Remembers k (down since confirmed) (some s) =
    (s.outage_started_at ≡ some since)
    × (s.recovery_started_at ≡ none)
    × (s.signal_visible ≡ confirmed)
    × (s.episode_notified ≡ confirmed)
    × (s.notification_id ≡ fresh_id k since)

pub fresh_id_truthy : (k : String) (now : ℕ) → is_truthy (fresh_id k now) ≡ true
unfolding fresh_id concat
fresh_id_truthy k now = is_truthy-append "sig_endpoint_" _ refl

abbrev restarted : ℕ → EndpointSignalState
restarted now = record {
  outage_started_at = some now;
  recovery_started_at = none;
  episode_notified = false;
  signal_visible = false;
  notification_id = "";
}

begin_outage_recovering :
    (now t : ℕ) (s : EndpointSignalState)
    → s.recovery_started_at ≡ some t
    → begin_outage now s ≡ restarted now
unfolding begin_outage
begin_outage_recovering now t s h = rw h

observe_unavailable_lem :
    (period now : ℕ) (k : String) (s : EndpointSignalState)
    → observe_unavailable period k now s
      ≡ confirm_outage period now (ensure_id k now (begin_outage now s))
unfolding observe_unavailable
observe_unavailable_lem period now k s = refl

-- An outage that cuts a recovery short is a new one.
restart-Remembers :
    (t : SignalTracker) (now since : ℕ) (k : String) (s : EndpointSignalState)
    → s.recovery_started_at ≡ some since
    → Remembers k
        (next_outage t.outage_confirmation now (some true) up)
        (some (observe_unavailable t.outage_confirmation k now s))
      × ((observe_unavailable t.outage_confirmation k now s).signal_visible
          ≡ is_confirmed (next_outage t.outage_confirmation now (some true) up))
unfolding next_outage is_confirmed ensure_id confirm_outage
restart-Remembers t now since k s h =
    rw
      (observe_unavailable_lem t.outage_confirmation now k s, begin_outage_recovering now since s h)
      (ground (arith, fresh_id_truthy k now))

-- The machine of an extension keeps to its outage, and shows its Signal exactly while the outage
-- is confirmed.
pub react-Remembers :
    (t : SignalTracker) (now : ℕ) (k : String) (r : Option Bool) (o : Outage)
    (old : Option EndpointSignalState)
    → Remembers k o old
    → Remembers k (next_outage t.outage_confirmation now r o) (react t now k r old).0
      × ((react t now k r old).1 ≡ is_confirmed (next_outage t.outage_confirmation now r o))
unfolding react next_outage is_confirmed observe_unavailable observe_available
react-Remembers t now k none o old h = (tt, refl)
react-Remembers t now k (some true) up none h = ground (arith, fresh_id_truthy k now)
react-Remembers t now k (some true) up (some s) h = restart-Remembers t now h.2.0 k s h.2.1
react-Remembers t now k (some true) (down since confirmed) none h = absurd h
react-Remembers t now k (some true) (down since confirmed) (some s) h =
    ground (arith, fresh_id_truthy k since)
react-Remembers t now k (some false) up none h = ground (arith, fresh_id_truthy k now)
react-Remembers t now k (some false) up (some s) h = ground (arith, fresh_id_truthy k now)
react-Remembers t now k (some false) (down since confirmed) none h = absurd h
react-Remembers t now k (some false) (down since confirmed) (some s) h =
    ground (arith, fresh_id_truthy k since)
