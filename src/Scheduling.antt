-- ===== src/Scheduling.antt =====
-- backend/app/services/scheduling.py: the open slots of an agent's working hours. A local day is the
-- number of its midnight, counted from a Monday; a time of day is a count of microseconds. The loop
-- over one window has a round for each slot that fits and one more.
pub mod Grid
pub mod Loop
pub mod Offers
pub mod Shape
pub mod Clear
pub mod Hours
pub mod Open
mod Examples
use text.Mathlib.Text.{◌==◌ as str_eq}
use Prim.Native.Char.{code}
use realty_lead_ai_agent.Common.{
  ℕ, zero, suc, ◌+◌, ◌-◌, ◌*◌, ◌/◌, ◌%◌, max, String, Bool, true, false, ◌&&◌, ◌||◌, not, Option,
  none, some, List, [], ◌∷◌, ◌++◌, map, ltb, leb, ◌==◌, if◌then◌else◌, length, filter,
}
use realty_lead_ai_agent.Common.Int.{ℤ, pos, negsuc}
use realty_lead_ai_agent.Models.Enums.{AppointmentType, AppointmentStatus}
use realty_lead_ai_agent.Models.Rows.{Agent, Appointment}
use realty_lead_ai_agent.Models.Db.{Db}
use realty_lead_ai_agent.Channels.{is_set}
use realty_lead_ai_agent.RateLimit.Store.{Reply, ok, raised}
use realty_lead_ai_agent.Zones.{
  Zone, ZoneDb, hour_us, minute_us, day_us, minute_of, resolve_timezone,
}
use realty_lead_ai_agent.GoogleCalendar.{
  GoogleCalendarClient, CalendarReply, answered, revoked, not_connected, unreachable, crashed,
  Interval,
}

-- `SLOT_MINUTES`
abbrev pub slot_minutes : AppointmentType → ℕ
slot_minutes AppointmentType.call = 30
slot_minutes AppointmentType.site_visit = 60

abbrev pub min_lead_time : ℕ
min_lead_time = 2 * hour_us

pub record Slot : Type 0 where
  pub starts_at : ℕ
  pub ends_at : ℕ

-- What the slots depend on from outside: the zones, `int()` of a text, and the calendar client.
pub record Services : Type 0 where
  pub zones : ZoneDb
  pub int_of : String → Option ℤ
  pub calendar : Option GoogleCalendarClient

-- `value.partition(":")`: what stands before the first colon, and after it
unfoldable pub before_colon : String → String
before_colon String.[] = String.[]
before_colon (String.◌∷◌ c s) =
    let rest = before_colon s in if code c == 58 then String.[] else String.◌∷◌ c rest

unfoldable pub after_colon : String → String
after_colon String.[] = String.[]
after_colon (String.◌∷◌ c s) = let rest = after_colon s in if code c == 58 then s else rest

-- `time(hour, minute)`, which raises out of range
unfoldable pub time_of : Option ℤ → Option ℤ → Reply ℕ
time_of (some (pos h)) (some (pos m)) =
    if ltb h 24 && ltb m 60 then ok (h * hour_us + m * minute_us) else raised
time_of _ _ = raised

unfoldable pub parse_hhmm : (String → Option ℤ) → String → Reply ℕ
parse_hhmm int_of value =
    let minute = after_colon value in
    time_of (int_of (before_colon value)) (if str_eq minute "" then some (pos 0) else int_of minute)

-- `WEEKDAY_KEYS`
abbrev pub weekday_key : ℕ → String
weekday_key day =
    if day == 0
    then "mon"
    else if day == 1
    then "tue"
    else if day == 2
    then "wed"
    else if day == 3
    then "thu"
    else if day == 4
    then "fri"
    else if day == 5
    then "sat"
    else "sun"

-- `working_hours.get(key) or []`
unfoldable pub hours_for : String → List (String × List String) → List String
hours_for key [] = []
hours_for key ((k, hs) ∷ rest) =
    let later = hours_for key rest in if str_eq k key then hs else later

abbrev pub span_of : Reply ℕ → Reply ℕ → Reply (List Interval)
span_of (ok start) (ok end) = ok (if leb end start then [] else (start, end) ∷ [])
span_of _ _ = raised

-- The times of day between which the agent works.
unfoldable pub opening : (String → Option ℤ) → List String → Reply (List Interval)
opening int_of (a ∷ b ∷ []) = span_of (parse_hhmm int_of a) (parse_hhmm int_of b)
opening int_of _ = ok []

-- `datetime.combine(day, t, tzinfo=tz).astimezone(UTC)`
abbrev pub combine : Zone → ℕ → ℕ → ℕ
combine tz day t = tz.to_utc (day * day_us + t)

abbrev pub on_day : Zone → ℕ → Reply (List Interval) → Reply (List Interval)
on_day tz day (ok spans) = ok (map (λ s. (combine tz day s.0, combine tz day s.1)) spans)
on_day tz day raised = raised

unfoldable pub day_windows : (String → Option ℤ) → Agent → ℕ → Zone → Reply (List Interval)
day_windows int_of agent day tz =
    on_day tz day (opening int_of (hours_for (weekday_key (day % 7)) agent.working_hours))

-- `status.in_([PENDING, CONFIRMED])`
abbrev pub is_live : AppointmentStatus → Bool
is_live AppointmentStatus.pending = true
is_live AppointmentStatus.confirmed = true
is_live _ = false

abbrev pub blocks : ℕ → ℕ → ℕ → Appointment → Bool
blocks agent_id window_start window_end a =
    a.agent_id == agent_id
    && is_live a.status
    && ltb window_start a.ends_at
    && ltb a.starts_at window_end

unfoldable pub appointment_intervals : Db → ℕ → ℕ → ℕ → List Interval
appointment_intervals db agent_id window_start window_end =
    map (λ a. (a.starts_at, a.ends_at))
      (filter (blocks agent_id window_start window_end) db.appointments)

abbrev pub is_connected : Agent → Bool
is_connected agent = is_set agent.google_refresh_token && is_set agent.google_calendar_id

-- A calendar that is revoked or unreachable leaves the agent's own appointments.
abbrev pub extend : List Interval → CalendarReply (List Interval) → Reply (List Interval)
extend own (answered others) = ok (own ++ others)
extend own crashed = raised
extend own _ = ok own

unfoldable pub busy_intervals : Services → Db → Agent → ℕ → ℕ → ℕ → Reply (List Interval)
busy_intervals services db agent window_start window_end now =
    let own = appointment_intervals db agent.id window_start window_end in
    elim services.calendar [
      | none ↦ ok own
      | some calendar ↦
          if is_connected agent
          then extend own (calendar.free_busy agent window_start window_end now)
          else ok own
    ]

unfoldable pub overlaps : Slot → List Interval → Bool
overlaps slot [] = false
overlaps slot ((start, end) ∷ busy) =
    (ltb slot.starts_at end && ltb start slot.ends_at) || overlaps slot busy

-- The next half hour, where the moment is not on one.
unfoldable pub align : ℕ → ℕ
align cursor =
    if (minute_of cursor % 30 == 0) && (cursor % minute_us == 0)
    then cursor
    else (cursor + (30 - minute_of cursor % 30) * minute_us) / minute_us * minute_us

abbrev pub slot_at : ℕ → ℕ → Slot
slot_at duration cursor = record { starts_at = cursor; ends_at = cursor + duration }

-- The slots so far, and whether the limit is reached, at which the function returns.
pub data Scan : Type 0 where
  going full : List Slot → Scan

module _ (busy : List Interval) (duration limit : ℕ) where
  -- The `while` loop over one window.
  unfoldable pub scan_window : ℕ → ℕ → ℕ → List Slot → Scan
  scan_window zero end cursor slots = going slots
  scan_window (suc fuel) end cursor slots = elim (leb (cursor + duration) end) [
    | false ↦ going slots
    | true ↦ elim (overlaps (slot_at duration cursor) busy) [
      | true ↦ scan_window fuel end (cursor + duration) slots
      | false ↦
          let slots' = slots ++ slot_at duration cursor ∷ [] in
          elim (leb limit (length slots')) [
            | true ↦ full slots'
            | false ↦ scan_window fuel end (cursor + duration) slots'
          ]
    ]
  ]

  abbrev pub rounds : ℕ → ℕ → ℕ
  rounds end cursor = suc ((end - cursor) / duration)

  unfoldable pub scan_windows : ℕ → List Interval → Scan → Scan
  scan_windows earliest [] scan = scan
  scan_windows earliest (w ∷ ws) (full slots) = full slots
  scan_windows earliest ((start, end) ∷ ws) (going slots) =
      let cursor = align (max start earliest) in
      scan_windows earliest ws (scan_window (rounds end cursor) end cursor slots)

  -- The days that are left, and the offset of the first of them.
  unfoldable pub scan_days : (String → Option ℤ) → Agent → Zone → ℕ → ℕ → ℕ → Scan → Reply Scan
  scan_days int_of agent tz now zero offset scan = ok scan
  scan_days int_of agent tz now (suc days) offset (full slots) = ok (full slots)
  scan_days int_of agent tz now (suc days) offset (going slots) =
      elim (day_windows int_of agent ((tz.to_local now + offset * day_us) / day_us) tz) [
        | raised ↦ raised
        | ok ws ↦
            scan_days int_of agent tz now days (suc offset)
              (scan_windows (now + min_lead_time) ws (going slots))
      ]

abbrev pub slots_of : Scan → List Slot
slots_of (going slots) = slots
slots_of (full slots) = slots

unfoldable pub find_available_slots :
    Services → Db → Agent → AppointmentType → ℕ → ℕ → ℕ → Reply (List Slot)
find_available_slots services db agent appointment_type search_days limit now =
    elim (busy_intervals services db agent now (now + search_days * day_us) now) [
      | raised ↦ raised
      | ok busy ↦
          elim (scan_days busy (slot_minutes appointment_type * minute_us) limit services.int_of
            agent (resolve_timezone services.zones agent.timezone) now search_days 0 (going [])) [
              | raised ↦ raised
              | ok scan ↦ ok (slots_of scan)
            ]
    ]
