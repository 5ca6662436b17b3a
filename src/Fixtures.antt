-- ===== src/Fixtures.antt =====
-- Rows that the tests of several modules share: one agent, one lead who has not answered for a day,
-- and the nudge that is scheduled for them.
use realty_lead_ai_agent.Common.{
  List, ◌≢◌, ℕ, ◌+◌, ◌-◌, ◌*◌, true, false, Option, none, some, [], ◌∷◌, String, leb, ◌&&◌, ◌||◌,
  ◌==◌, if◌then◌else◌,
}
use Prim.Native.Char.{code}
use realty_lead_ai_agent.Common.Int.{ℤ, pos}
use realty_lead_ai_agent.Models.Enums.{
  Language, LeadTemperature, LeadPurpose, LeadStatus, ConsentStatus, Channel, ConversationStatus,
  FollowUpStatus, AppointmentType, AppointmentStatus,
}
use realty_lead_ai_agent.Models.Rows.{Lead, Agent, FollowUpTask, Conversation, Appointment}
use realty_lead_ai_agent.Templates.Text.{contains}
use realty_lead_ai_agent.Zones.{kolkata_only}
use realty_lead_ai_agent.RateLimit.Store.{raised}
use realty_lead_ai_agent.Scheduling.{
  Services, opening, parse_hhmm, time_of, before_colon, after_colon,
}
use realty_lead_ai_agent.Scheduling.Offers.{IsReadable}
use realty_lead_ai_agent.Models.Settings.{default_settings}
use realty_lead_ai_agent.Optout.{Unicode}
use realty_lead_ai_agent.Tools.{ToolCall}
use realty_lead_ai_agent.Engine.Model.{Chat, Env, LlmReply, responded}
use realty_lead_ai_agent.Tools.Context.{ToolContext, Parsers, aware}
use realty_lead_ai_agent.Models.Db.{Db}

-- 15:30 in India, two days into the count
abbrev pub afternoon : ℕ
afternoon = 208_800_000_000

-- 21:30 in India, six hours later
abbrev pub night : ℕ
night = 230_400_000_000

-- `int()` of a text of digits
unfoldable pub digits_from : ℕ → String → Option ℤ
digits_from n String.[] = some (pos n)
digits_from n (String.◌∷◌ c s) =
    let rest = digits_from (10 * n + (code c - 48)) s in
    if leb 48 (code c) && leb (code c) 57 then rest else none

unfoldable pub digits : String → Option ℤ
unfolding digits_from
digits String.[] = none
digits (String.◌∷◌ c s) = digits_from 0 (String.◌∷◌ c s)

abbrev pub asha : Lead
asha = record {
  id = 7;
  agent_id = 1;
  name = some "  Asha Patel ";
  phone = "+910000000000";
  source = "whatsapp";
  language = Language.hindi;
  timezone = none;
  status = LeadStatus.engaged;
  consent_status = ConsentStatus.opted_in;
  opted_out_at = none;
  last_inbound_at = some 100_000_000_000;
  last_outbound_at = none;
  follow_up_count = 0;
  handed_off_at = none;
  handoff_reason = none;
  email = none;
  budget_min = none;
  budget_max = none;
  preferred_locations = [];
  property_type = none;
  bhk = none;
  timeline_months = none;
  loan_preapproved = none;
  site_visit_willing = none;
  purpose = LeadPurpose.unknown;
  notes = none;
  score = 0;
  temperature = LeadTemperature.cold;
  score_reasons = [];
  scored_at = none;
}

abbrev pub ravi : Agent
ravi = record {
  id = 1;
  name = "Ravi";
  timezone = none;
  whatsapp_phone_number_id = some "555";
  is_active = true;
  working_hours = ("wed", "10:00" ∷ "18:00" ∷ []) ∷ ("thu", "10:00" ∷ "18:00" ∷ []) ∷ [];
  escalation_budget_threshold = none;
  google_refresh_token = none;
  google_calendar_id = none;
}

abbrev pub nudge : FollowUpTask
nudge = record {
  id = 3;
  lead_id = 7;
  attempt_number = 1;
  scheduled_for = 186_400_000_000;
  baseline_at = some 100_000_000_000;
  channel = Channel.whatsapp;
  status = FollowUpStatus.scheduled;
  template_name = none;
  sent_at = none;
  outcome_reason = none;
}

abbrev pub chat : Conversation
chat = record {
  id = 5;
  lead_id = 7;
  channel = Channel.whatsapp;
  status = ConversationStatus.active;
  last_message_at = some 100_000_000_000;
}

abbrev pub office : Db
office = record {
  agents = ravi ∷ [];
  leads = asha ∷ [];
  tasks = nudge ∷ [];
  conversations = chat ∷ [];
  messages = [];
  listings = [];
  appointments = [];
  next_id = 8;
}

-- Zones, numbers and no calendar.
abbrev pub desk : Services
desk = record { zones = kolkata_only; int_of = digits; calendar = none }

-- A call tomorrow from 10:00 to 10:30.
abbrev pub booked : Appointment
booked = record {
  id = 11;
  lead_id = 7;
  agent_id = 1;
  listing_id = none;
  appointment_type = AppointmentType.call;
  status = AppointmentStatus.confirmed;
  starts_at = 275_400_000_000;
  ends_at = 277_200_000_000;
  timezone = none;
  location = none;
  notes = none;
  google_event_id = none;
  confirmation_sent_at = none;
}

abbrev pub diary : Db
diary = record office { appointments = booked ∷ [] }

unfoldable pub number : String → Option ℕ
unfolding digits
number s = elim (digits s) [ some (pos n) ↦ some n | _ ↦ none ]

-- Amounts, ids and times are written in digits.
abbrev pub digits_only : Parsers
digits_only = record {
  decimal = number;
  uuid = number;
  from_iso = λ s. elim (number s) [ none ↦ none | some n ↦ some (aware n) ];
  ilike = λ value pattern. contains pattern value;
}

-- Asha writes to Ravi's assistant.
abbrev pub asha_writes : ToolContext
asha_writes = record {
  db = diary;
  agent = ravi;
  lead = asha;
  conversation = chat;
  inbound_message_count = 1;
  now = afternoon;
  escalated = false;
  escalation_reason = none;
  booked_appointment_id = none;
  calendar_sync_failed = none;
}

-- For texts in lower case.
abbrev pub ascii : Unicode
ascii = record {
  lower = λ s. s;
  is_word = λ c. (leb 48 c && leb c 57) || (leb 97 c && leb c 122) || c == 95;
}

-- A model that scores the lead and then greets them.
abbrev pub model : ToolContext → List Chat → LlmReply
model ctx [] = responded (record {
  refused = false;
  text = "";
  tool_uses = record { id = "t1"; call = ToolCall.score } ∷ [];
})
model ctx (m ∷ ms) = responded (record { refused = false; text = " Welcome! "; tool_uses = [] })

abbrev pub engine : Env
engine = record {
  services = desk;
  parsers = digits_only;
  unicode = ascii;
  settings = default_settings;
  rupees = λ n. "";
  complete = model;
}

pub ravi-IsReadable : IsReadable digits ravi
unfolding opening digits parse_hhmm time_of before_colon after_colon
ravi-IsReadable = (fine, (fine, tt))
  where
    fine : opening digits ("10:00" ∷ "18:00" ∷ []) ≢ raised
    fine e = cc
