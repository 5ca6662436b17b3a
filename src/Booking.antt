-- ===== src/Booking.antt =====
-- backend/app/services/booking.py: putting a booked appointment on the agent's calendar. The client
-- makes the event's texts from the rows that it is given; every caller passes the time.
use text.Mathlib.Text.{◌==◌ as str_eq}
use realty_lead_ai_agent.Common.{
  ℕ, String, Bool, true, false, not, ◌&&◌, Option, none, some, if◌then◌else◌, is_none,
}
use realty_lead_ai_agent.Models.Enums.{AppointmentType}
use realty_lead_ai_agent.Models.Rows.{Agent, Lead, Appointment}
use realty_lead_ai_agent.Models.Listings.{Listing}
use realty_lead_ai_agent.Channels.{is_set, or_text}
use realty_lead_ai_agent.RateLimit.Store.{Reply, ok, raised}
use realty_lead_ai_agent.Templates.Text.{concat}
use realty_lead_ai_agent.Scheduling.{is_connected}
use realty_lead_ai_agent.GoogleCalendar.{
  GoogleCalendarClient, CalendarReply, CalendarEvent, answered, revoked, not_connected, unreachable,
  crashed,
}

pub record SyncOutcome : Type 0 where
  pub synced : Bool
  pub event_id : Option String
  pub html_link : Option String
  pub reason : Option String

-- `SyncOutcome.needs_attention`
abbrev pub needs_attention : SyncOutcome → Bool
needs_attention s = not s.synced && not (is_none s.reason)

abbrev not_synced : Option String → SyncOutcome
not_synced reason = record { synced = false; event_id = none; html_link = none; reason = reason }

abbrev is_site_visit : AppointmentType → Bool
is_site_visit AppointmentType.site_visit = true
is_site_visit AppointmentType.call = false

-- `", ".join(filter(None, [listing.locality, listing.city]))`
unfoldable pub address : Listing → String
address listing =
    if is_set listing.locality
    then (if str_eq listing.city ""
        then or_text listing.locality ""
        else concat (or_text listing.locality "") (concat ", " listing.city))
    else listing.city

abbrev place_of : Appointment → Option Listing → Option String
place_of appointment none = none
place_of appointment (some listing) =
    if is_site_visit appointment.appointment_type then some (address listing) else none

-- `location or appointment.location`
abbrev location_of : Appointment → Option Listing → Option String
location_of appointment listing =
    let place = place_of appointment listing in if is_set place then place else appointment.location

-- What the event leaves on the appointment's row.
pub record Stamp : Type 0 where
  pub google_event_id : String
  pub confirmation_sent_at : ℕ

abbrev of_reply : ℕ → CalendarReply CalendarEvent → Reply (SyncOutcome × Option Stamp)
of_reply now (answered event) = ok (
  record {
    synced = true;
    event_id = some event.event_id;
    html_link = event.html_link;
    reason = none;
  },
  some (record { google_event_id = event.event_id; confirmation_sent_at = now }),
)
of_reply now revoked = ok (
  not_synced (some "Google Calendar access was revoked — the booking is not on the calendar"),
  none,
)
of_reply now not_connected = ok (not_synced none, none)
of_reply now unreachable =
    ok (not_synced (some "Google Calendar was unreachable — the booking is not on it"), none)
of_reply now crashed = raised

-- The outcome, and what is written on the appointment.
unfoldable pub sync_to_calendar :
    Option GoogleCalendarClient
    → Agent
    → Lead
    → Appointment
    → Option Listing
    → ℕ
    → Reply (SyncOutcome × Option Stamp)
sync_to_calendar none agent lead appointment listing now = ok (not_synced none, none)
sync_to_calendar (some calendar) agent lead appointment listing now =
    if is_connected agent
    then of_reply now
        (calendar.create_event agent lead appointment listing (location_of appointment listing) now)
    else ok (not_synced none, none)

abbrev removed : CalendarReply Bool → Reply Bool
removed (answered b) = ok b
removed crashed = raised
removed _ = ok false

unfoldable pub cancel_calendar_event :
    Option GoogleCalendarClient → Agent → Appointment → ℕ → Reply Bool
cancel_calendar_event none agent appointment now = ok false
cancel_calendar_event (some calendar) agent appointment now =
    if is_set appointment.google_event_id && is_set agent.google_calendar_id
    then removed (calendar.cancel_event agent (or_text appointment.google_event_id "") now)
    else ok false
