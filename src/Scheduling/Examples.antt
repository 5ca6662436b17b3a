-- ===== src/Scheduling/Examples.antt =====
-- Tests of the slots: one agent in India who works from 10:00 to 12:00 on Wednesdays and Thursdays,
-- asked on a Wednesday at 10:10 with a call at 13:00 in the book.
use realty_lead_ai_agent.Common.{◌+◌, ◌*◌, max, ◌≡◌, refl, List, [], ◌∷◌, take, map, All}
use realty_lead_ai_agent.Models.Enums.{AppointmentType}
use realty_lead_ai_agent.RateLimit.Store.{ok}
use realty_lead_ai_agent.Zones.{minute_us, day_us, resolve_timezone}
use realty_lead_ai_agent.Fixtures.{ravi-IsReadable, desk, diary, digits, ravi, afternoon}
use realty_lead_ai_agent.Scheduling.{
  Slot, find_available_slots, busy_intervals, scan_days, day_windows, opening, hours_for,
  parse_hhmm, time_of, before_colon, after_colon, scan_windows, scan_window, align, overlaps,
  appointment_intervals,
}
use realty_lead_ai_agent.Scheduling.Grid.{free_slots}
use realty_lead_ai_agent.Scheduling.Offers.{find_available_slots-free}
use realty_lead_ai_agent.Scheduling.Hours.{kolkata-IsSteady}
use realty_lead_ai_agent.Scheduling.Open.{IsOpen, find_available_slots-IsOpen}

-- 17:30 today, and tomorrow from 10:30 on.
abbrev offered : List Slot
offered =
    map (λ s. record { starts_at = s; ends_at = s + 30 * minute_us })
      (216_000_000_000 ∷ 277_200_000_000 ∷ 279_000_000_000 ∷ [])

finds_three : find_available_slots desk diary ravi AppointmentType.call 2 3 afternoon ≡ ok offered
unfolding find_available_slots busy_intervals scan_days day_windows opening hours_for parse_hhmm
    time_of before_colon after_colon scan_windows scan_window align overlaps appointment_intervals
    resolve_timezone digits
finds_three = refl

finds_busy :
    busy_intervals desk diary ravi afternoon (afternoon + 2 * day_us) afternoon
    ≡ ok ((275_400_000_000, 277_200_000_000) ∷ [])
unfolding busy_intervals appointment_intervals
finds_busy = refl

find_available_slots-free_example :
    find_available_slots desk diary ravi AppointmentType.call 2 3 afternoon
    ≡ ok (
        take (max 3 1) (
          free_slots desk ravi
            ((275_400_000_000, 277_200_000_000) ∷ [])
            AppointmentType.call
            2
            afternoon))
find_available_slots-free_example =
    find_available_slots-free desk diary ravi AppointmentType.call 2 3 afternoon ravi-IsReadable
      ((275_400_000_000, 277_200_000_000) ∷ []) finds_busy

find_available_slots-IsOpen_example :
    All (IsOpen desk diary ravi AppointmentType.call 2 afternoon) offered
unfolding resolve_timezone
find_available_slots-IsOpen_example =
    find_available_slots-IsOpen desk diary ravi AppointmentType.call 2 3 afternoon kolkata-IsSteady
      offered finds_three
