-- ===== src/QuietHours.antt =====
-- backend/app/services/quiet_hours.py: the nightly window in which no nudge is sent.
pub mod Earliest
mod Examples
use realty_lead_ai_agent.Common.{
  ℕ, ◌+◌, ◌*◌, ◌/◌, ◌%◌, ◌≤◌, ◌<◌, Bool, true, false, ◌&&◌, ◌||◌, ltb, leb, ◌==◌, if◌then◌else◌,
}
use realty_lead_ai_agent.Zones.{Zone, hour_us, day_us, hour_of}

-- The test on the hour of the wall clock.
abbrev pub in_window : ℕ → ℕ → ℕ → Bool
in_window local_hour start_hour end_hour =
    if start_hour == end_hour
    then false
    else if ltb start_hour end_hour
    then leb start_hour local_hour && ltb local_hour end_hour
    else leb start_hour local_hour || ltb local_hour end_hour

unfoldable pub is_quiet_hour : ℕ → Zone → ℕ → ℕ → Bool
is_quiet_hour moment tz start_hour end_hour =
    in_window (hour_of (tz.to_local moment)) start_hour end_hour

-- `local.replace(hour=end_hour, minute=0, ...)`, a day later if that has passed
unfoldable pub candidate : ℕ → ℕ → ℕ
candidate local end_hour =
    let same_day = local / day_us * day_us + end_hour * hour_us in
    if leb same_day local then same_day + day_us else same_day

unfoldable pub next_send_time : ℕ → Zone → ℕ → ℕ → ℕ
next_send_time moment tz start_hour end_hour =
    if is_quiet_hour moment tz start_hour end_hour
    then tz.to_utc (candidate (tz.to_local moment) end_hour)
    else moment
