-- ===== src/Prelude/Clock.antt =====
-- Times are whole microseconds. `isoformat` is that of a Python `datetime` with no time zone, which
-- is counted from 1970-01-01 00:00 of its own wall clock.
use Prim.Native.Nat.{ℕ, ◌+◌, ◌-◌, ◌*◌, ◌/◌, ◌%◌}
use Prim.Native.String.{String}
use mathlib.Core.Path.{◌≡◌, refl}
use mathlib.Core.List.{[], ◌∷◌}
use pbxpulse_agent.Prelude.Tests.{ltb, leb, ◌==◌, if◌then◌else◌}
use pbxpulse_agent.Prelude.Text.{concat, decimal}

abbrev pub second : ℕ
second = 1000000

abbrev pub hour : ℕ
hour = 3600 * 1000000

abbrev pub day : ℕ
day = 86400 * 1000000

pad2 : ℕ → String
pad2 n = if ltb n 10 then concat ("0" ∷ decimal n ∷ []) else decimal n

pad4 : ℕ → String
pad4 n =
    if ltb n 10
    then concat ("000" ∷ decimal n ∷ [])
    else if ltb n 100
    then concat ("00" ∷ decimal n ∷ [])
    else if ltb n 1000
    then concat ("0" ∷ decimal n ∷ [])
    else decimal n

pad6 : ℕ → String
pad6 n =
    if ltb n 100
    then concat ("0000" ∷ pad2 n ∷ [])
    else if ltb n 10000
    then concat ("00" ∷ pad4 n ∷ [])
    else if ltb n 100000
    then concat ("0" ∷ decimal n ∷ [])
    else decimal n

-- The Gregorian date of a day, counted from 1970-01-01, by the 400-year cycle from 0000-03-01.
date_text : ℕ → String
date_text days =
    let z = days + 719468 in
    let cycle = z % 146097 in
    let year = (cycle - cycle / 1460 + cycle / 36524 - cycle / 146096) / 365 in
    let rest = cycle - (365 * year + year / 4 - year / 100) in
    let m = (5 * rest + 2) / 153 in
    let d = rest - (153 * m + 2) / 5 + 1 in
    let month = if ltb m 10 then m + 3 else m - 9 in
    let y = year + z / 146097 * 400 + (if leb month 2 then 1 else 0) in
    concat (pad4 y ∷ "-" ∷ pad2 month ∷ "-" ∷ pad2 d ∷ [])

fraction_text : ℕ → String
fraction_text micros = if micros == 0 then "" else concat ("." ∷ pad6 micros ∷ [])

-- `value.isoformat()`
unfoldable pub isoformat : ℕ → String
unfolding pad2 pad4 pad6 date_text fraction_text concat decimal
isoformat t =
    let s = t / 1000000 in
    concat (
      date_text (s / 86400)
      ∷ "T"
      ∷ pad2 (s / 3600 % 24)
      ∷ ":"
      ∷ pad2 (s / 60 % 60)
      ∷ ":"
      ∷ pad2 (s % 60)
      ∷ fraction_text (t % 1000000)
      ∷ [])

isoformat_leap : isoformat (951782399 * 1000000 + 5040) ≡ "2000-02-28T23:59:59.005040"
unfolding isoformat
isoformat_leap = refl

isoformat_later : isoformat (1767225600 * 1000000) ≡ "2026-01-01T00:00:00"
unfolding isoformat
isoformat_later = refl
