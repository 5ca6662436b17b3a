-- ===== src/Tools/Context.antt =====
-- backend/app/agent/tools.py: what a tool reads and changes, and how it may end.
use realty_lead_ai_agent.Common.{ℕ, String, Bool, Option, List, ◌==◌}
use realty_lead_ai_agent.Models.Enums.{LeadStatus, AppointmentType, AppointmentStatus}
use realty_lead_ai_agent.Models.Rows.{Lead, Agent, Conversation}
use realty_lead_ai_agent.Models.Listings.{Listing}
use realty_lead_ai_agent.Models.Db.{Db, update_where, save_lead}
use realty_lead_ai_agent.Scoring.{LeadScore}
use realty_lead_ai_agent.Scheduling.{Slot}

-- `datetime.fromisoformat`: with an offset, or without one.
pub data Timestamp : Type 0 where
  aware naive : ℕ → Timestamp

-- Python's parsers of the arguments, and the database's `ILIKE '%pattern%'`. A decimal is a sum in
-- paise.
pub record Parsers : Type 0 where
  pub decimal : String → Option ℕ
  pub uuid : String → Option ℕ
  pub from_iso : String → Option Timestamp
  pub ilike : String → String → Bool

-- `ToolContext`, with the tables of its session; the calendar is in the services.
pub record ToolContext : Type 0 where
  pub db : Db
  pub agent : Agent
  pub lead : Lead
  pub conversation : Conversation
  pub inbound_message_count : ℕ
  pub now : ℕ
  pub escalated : Bool
  pub escalation_reason : Option String
  pub booked_appointment_id : Option ℕ
  pub calendar_sync_failed : Option String

-- `ToolError`, by its message.
pub data ToolError : Type 0 where
  not_an_amount not_a_listing_id not_a_timestamp unknown_tool : String → ToolError
  in_the_past no_longer_available : ToolError

-- The dicts that the handlers return.
pub data Payload : Type 0 where
  listings : List Listing → Payload
  updated : List String → LeadStatus → Payload
  scored : LeadScore → Payload
  availability : List Slot → Payload
  booked : ℕ → ℕ → AppointmentType → AppointmentStatus → Bool → Option String → Payload
  handed_over : String → Payload

-- A result, a `ToolError`, or any other exception.
pub data ToolReply : Type 0 where
  result : Payload → ToolReply
  tool_error : ToolError → ToolReply
  crashed : ToolReply

abbrev pub save_conversation : Db → Conversation → Db
save_conversation db c = record db {
  conversations = update_where (λ d. d.id == c.id) (λ _. c) db.conversations;
}

-- `session.flush()`: the rows that the turn holds are written.
abbrev pub flush : ToolContext → ToolContext
flush ctx = record ctx { db = save_conversation (save_lead ctx.db ctx.lead) ctx.conversation }
