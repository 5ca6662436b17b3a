-- ===== src/Scheduling/Grid.antt =====
-- The slots of find_available_slots in backend/app/services/scheduling.py, described without its
-- loops: the grid of slots that fit in a window, less those that are taken.
use realty_lead_ai_agent.Common.{
  ℕ, zero, suc, ◌+◌, ◌-◌, ◌*◌, ◌/◌, max, String, Bool, not, Option, List, [], ◌∷◌, ◌++◌, filter,
}
use realty_lead_ai_agent.Common.Int.{ℤ}
use realty_lead_ai_agent.Models.Enums.{AppointmentType}
use realty_lead_ai_agent.Models.Rows.{Agent}
use realty_lead_ai_agent.RateLimit.Store.{Reply, ok, raised}
use realty_lead_ai_agent.Zones.{Zone, minute_us, day_us, resolve_timezone}
use realty_lead_ai_agent.GoogleCalendar.{Interval}
use realty_lead_ai_agent.Scheduling.{
  Services, Slot, slot_at, slot_minutes, min_lead_time, overlaps, align, day_windows,
}

abbrev pub is_free : List Interval → Slot → Bool
is_free busy s = not (overlaps s busy)

-- Consecutive slots.
unfoldable pub grid : ℕ → ℕ → ℕ → List Slot
grid duration zero cursor = []
grid duration (suc n) cursor = slot_at duration cursor ∷ grid duration n (cursor + duration)

-- As many slots as fit between the aligned start and the end.
unfoldable pub fitting : ℕ → ℕ → Interval → List Slot
fitting duration earliest (start, end) =
    let cursor = align (max start earliest) in grid duration ((end - cursor) / duration) cursor

-- A day whose hours are unreadable has no window.
abbrev pub windows_of : Reply (List Interval) → List Interval
windows_of (ok ws) = ws
windows_of raised = []

-- The windows of one day, by its offset from today.
abbrev pub windows_at : (String → Option ℤ) → Agent → Zone → ℕ → ℕ → List Interval
windows_at int_of agent tz now offset =
    windows_of (day_windows int_of agent ((tz.to_local now + offset * day_us) / day_us) tz)

module _ (busy : List Interval) (duration : ℕ) where
  unfoldable pub free_in : ℕ → List Interval → List Slot
  free_in earliest [] = []
  free_in earliest (w ∷ ws) =
      filter (is_free busy) (fitting duration earliest w) ++ free_in earliest ws

  unfoldable pub free_on : (String → Option ℤ) → Agent → Zone → ℕ → ℕ → ℕ → List Slot
  free_on int_of agent tz now zero offset = []
  free_on int_of agent tz now (suc days) offset =
      free_in (now + min_lead_time) (windows_at int_of agent tz now offset)
      ++ free_on int_of agent tz now days (suc offset)

-- The free slots of the next days, in their order.
abbrev pub free_slots : Services → Agent → List Interval → AppointmentType → ℕ → ℕ → List Slot
free_slots services agent busy appointment_type search_days now =
    free_on busy (slot_minutes appointment_type * minute_us) services.int_of agent
      (resolve_timezone services.zones agent.timezone) now search_days 0
