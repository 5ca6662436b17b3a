-- ===== src/GoogleCalendar.antt =====
-- backend/app/services/google_calendar.py: what its callers see of it. The client itself is a
-- parameter: a call answers, or raises one of the errors that the callers tell apart.
use realty_lead_ai_agent.Common.{ℕ, String, Option, List, Bool}
use realty_lead_ai_agent.Models.Rows.{Agent, Lead, Appointment}
use realty_lead_ai_agent.Models.Listings.{Listing}

-- A reply, `GoogleAuthRevokedError`, `GoogleNotConnectedError`, another `GoogleCalendarError`, or an
-- exception of no such class.
pub data CalendarReply {ℓ} (A : Type ℓ) : Type ℓ where
  answered : A → CalendarReply A
  revoked not_connected unreachable crashed : CalendarReply A

pub record CalendarEvent : Type 0 where
  pub event_id : String
  pub html_link : Option String

-- A span of time, from its start up to its end.
abbrev pub Interval : Type 0
Interval = ℕ × ℕ

pub record GoogleCalendarClient : Type 0 where
  -- the agent, the window and the time of the call
  pub free_busy : Agent → ℕ → ℕ → ℕ → CalendarReply (List Interval)
  -- with the place of the meeting; the event's texts are made from these rows
  pub create_event :
      Agent → Lead → Appointment → Option Listing → Option String → ℕ → CalendarReply CalendarEvent
  pub cancel_event : Agent → String → ℕ → CalendarReply Bool
