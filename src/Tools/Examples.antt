-- ===== src/Tools/Examples.antt =====
-- Tests of the tools: a call is booked next to the one in the book, and not on top of it.
use realty_lead_ai_agent.Common.{
  true, false, some, ◌+◌, arith, ℕ, String, ◌≡◌, refl, none, List, [], ◌∷◌, map,
}
use realty_lead_ai_agent.Models.Enums.{AppointmentType, AppointmentStatus}
use realty_lead_ai_agent.Zones.{resolve_timezone}
use realty_lead_ai_agent.Fixtures.{ravi-IsReadable, desk, digits_only, number, asha_writes}
use realty_lead_ai_agent.Scheduling.Hours.{kolkata-IsSteady}
use realty_lead_ai_agent.Tools.{
  Booking, check_availability, new_appointment, add_appointment, ToolCall, dispatch,
  book_appointment, book_slot, is_offered, confirm,
}
use realty_lead_ai_agent.Booking.{sync_to_calendar}
use realty_lead_ai_agent.Models.Db.{update_where}
use realty_lead_ai_agent.Scheduling.{
  Slot, find_available_slots, busy_intervals, scan_days, day_windows, opening, hours_for,
  parse_hhmm, time_of, before_colon, after_colon, scan_windows, scan_window, align, overlaps,
  appointment_intervals,
}
use realty_lead_ai_agent.Tools.Offers.{dispatch-offered}
use realty_lead_ai_agent.Tools.Context.{result, Payload, aware}
use realty_lead_ai_agent.Tools.Bookings.{IsBooked, dispatch-IsBooked}

abbrev call_at : String → Booking
call_at start = record {
  starts_at = start;
  appointment_type = AppointmentType.call;
  listing_id = none;
  notes = none;
}

abbrev at : String → ToolCall
at start = ToolCall.book (call_at start)

abbrev half_past_ten : Booking
half_past_ten = call_at "277200000000"

abbrev starts : ToolCall → List ℕ
starts call = map (λ a. a.starts_at) (dispatch desk digits_only asha_writes call).1.db.appointments

booked_next :
    (starts (at "277200000000") ≡ 275_400_000_000 ∷ 277_200_000_000 ∷ [])
    × (starts (at "275400000000") ≡ 275_400_000_000 ∷ [])
unfolding dispatch book_appointment book_slot is_offered confirm sync_to_calendar number
    resolve_timezone update_where find_available_slots busy_intervals scan_days day_windows opening
    hours_for parse_hhmm time_of before_colon after_colon scan_windows scan_window align overlaps
    appointment_intervals
booked_next = (refl, refl)

dispatch-IsBooked_example : IsBooked (dispatch desk digits_only asha_writes (at "277200000000")).1
unfolding resolve_timezone
dispatch-IsBooked_example =
    dispatch-IsBooked desk digits_only asha_writes (at "277200000000") kolkata-IsSteady (tt, tt)

-- 17:30 today, and tomorrow from 10:30 on.
abbrev six : List Slot
six =
    map (λ s. record { starts_at = s; ends_at = s + 1_800_000_000 })
      (216_000_000_000 ∷ 277_200_000_000 ∷ 279_000_000_000 ∷ 280_800_000_000 ∷ 282_600_000_000
        ∷ 284_400_000_000 ∷ [])

offers_six :
    (dispatch desk digits_only asha_writes (ToolCall.availability AppointmentType.call (some 2))).0
    ≡ result (Payload.availability six)
unfolding dispatch check_availability resolve_timezone number find_available_slots busy_intervals
    scan_days day_windows opening hours_for parse_hhmm time_of before_colon after_colon scan_windows
    scan_window align overlaps appointment_intervals
offers_six = refl

has_second : is_offered 277_200_000_000 six ≡ true
unfolding is_offered
has_second = refl

reads_start : digits_only.from_iso "277200000000" ≡ some (aware 277_200_000_000)
unfolding number
reads_start = refl

dispatch-offered_example :
    let a = new_appointment asha_writes half_past_ten none 277_200_000_000 in
    dispatch desk digits_only asha_writes (ToolCall.book half_past_ten) ≡ (
      result (
          Payload.booked a.id 277_200_000_000 AppointmentType.call AppointmentStatus.confirmed false
            none),
      add_appointment asha_writes a,
    )
unfolding resolve_timezone
dispatch-offered_example =
    dispatch-offered desk digits_only asha_writes half_past_ten (some 2) six 277_200_000_000
      kolkata-IsSteady ravi-IsReadable refl (omega arith) offers_six has_second reads_start refl
