-- ===== src/Zones.antt =====
-- `resolve_timezone` of backend/app/services/scheduling.py, over the time zones of the `zoneinfo`
-- package. A moment is a count of microseconds; a zone turns it into the microseconds of its wall
-- clock, counted from a midnight, and back.
use text.Mathlib.Text.{◌==◌ as str_eq}
use realty_lead_ai_agent.Common.{
  ℕ, ◌+◌, ◌-◌, ◌/◌, ◌%◌, ◌≤◌, ◌<◌, String, ◌≡◌, Option, none, some, arith, if◌then◌else◌, get_or,
}

abbrev pub hour_us : ℕ
hour_us = 3_600_000_000

abbrev pub minute_us : ℕ
minute_us = 60_000_000

abbrev pub day_us : ℕ
day_us = 86_400_000_000

pub record Zone : Type 0 where
  -- `moment.astimezone(tz)`, read as a wall clock
  pub to_local : ℕ → ℕ
  -- `local.astimezone(UTC)`
  pub to_utc : ℕ → ℕ

-- What a zone does while its offset from UTC does not change, as Asia/Kolkata's never does.
pub record IsRegular (z : Zone) : Type 0 where
  pub strict : (m n : ℕ) → m < n → z.to_local m < z.to_local n
  pub round : (m l : ℕ) → z.to_local m ≤ l → z.to_local (z.to_utc l) ≡ l

-- The database of zones: `ZoneInfo(name)`, which raises for an unknown name, and the fallback.
pub record ZoneDb : Type 0 where
  pub zone_info : String → Option Zone
  pub fallback : Zone

-- An empty name is false, so it reads as no name at all.
unfoldable pub resolve_timezone : ZoneDb → Option String → Zone
resolve_timezone db none = db.fallback
resolve_timezone db (some name) =
    if str_eq name "" then db.fallback else get_or (db.zone_info name) db.fallback

-- `local.hour` and `local.minute`
abbrev pub hour_of : ℕ → ℕ
hour_of l = l / hour_us % 24

abbrev pub minute_of : ℕ → ℕ
minute_of l = l / minute_us % 60

-- Asia/Kolkata: UTC+05:30.
abbrev pub kolkata : Zone
kolkata = record { to_local = λ m. m + 19_800_000_000; to_utc = λ l. l - 19_800_000_000 }

pub kolkata-IsRegular : IsRegular kolkata
kolkata-IsRegular = record { strict = λ m n h. omega arith; round = λ m l h. omega arith }

abbrev pub kolkata_only : ZoneDb
kolkata_only = record { zone_info = λ _. none; fallback = kolkata }

-- A zone that keeps order both ways.
module _ {z : Zone} (r : IsRegular z) where
  pub to_local-reflects : (m n : ℕ) → z.to_local m < z.to_local n → m < n
  to_local-reflects m n h = ground (arith, r.strict n m)

  pub to_utc-lt : (m n l : ℕ) → z.to_local m ≤ l → n < z.to_utc l → z.to_local n < l
  to_utc-lt m n l h k = omega (arith, r.strict n (z.to_utc l) k, r.round m l h)

  pub le-to_utc : (m l : ℕ) → z.to_local m < l → m < z.to_utc l
  le-to_utc m l h = to_local-reflects m (z.to_utc l) (rw (r.round m l (omega arith)) h)
