-- ===== src/Models/Rows.antt =====
-- backend/app/models: the rows of the tables, with the columns that the modelled code reads or
-- writes. An id (a random UUID in the program) is a number, a moment is a count of microseconds, and
-- a sum of money a count of paise. Rows that a query orders by `created_at` stand in that order.
use realty_lead_ai_agent.Common.{ℕ, Bool, true, false, not, String, Option, List, [], ◌∷◌}
use realty_lead_ai_agent.Models.Enums.{
  Language, PropertyType, LeadTemperature, LeadPurpose, AppointmentType, AppointmentStatus,
  LeadStatus, ConsentStatus, Channel, MessageRole, MessageDirection, MessageStatus,
  ConversationStatus, FollowUpStatus,
}
use realty_lead_ai_agent.Scoring.Reasons.{ScoreReason}

pub record Lead : Type 0 where
  pub id : ℕ
  pub agent_id : ℕ
  pub name : Option String
  pub phone : String
  pub source : String
  pub language : Language
  pub timezone : Option String
  pub status : LeadStatus
  pub consent_status : ConsentStatus
  pub opted_out_at : Option ℕ
  pub last_inbound_at : Option ℕ
  pub last_outbound_at : Option ℕ
  pub follow_up_count : ℕ
  pub handed_off_at : Option ℕ
  pub handoff_reason : Option String
  pub email : Option String
  pub budget_min : Option ℕ
  pub budget_max : Option ℕ
  pub preferred_locations : List String
  pub property_type : Option PropertyType
  pub bhk : Option ℕ
  pub timeline_months : Option ℕ
  pub loan_preapproved : Option Bool
  pub site_visit_willing : Option Bool
  pub purpose : LeadPurpose
  pub notes : Option String
  pub score : ℕ
  pub temperature : LeadTemperature
  pub score_reasons : List ScoreReason
  pub scored_at : Option ℕ

-- `consent_status is ConsentStatus.OPTED_OUT`
abbrev pub is_opted_out : ConsentStatus → Bool
is_opted_out ConsentStatus.opted_out = true
is_opted_out _ = false

-- `Lead.is_contactable`
abbrev pub is_contactable : Lead → Bool
is_contactable lead = not (is_opted_out lead.consent_status)

pub record Agent : Type 0 where
  pub id : ℕ
  pub name : String
  pub timezone : Option String
  pub whatsapp_phone_number_id : Option String
  pub is_active : Bool
  -- for each weekday's key, the texts of the opening and the closing time
  pub working_hours : List (String × List String)
  -- in rupees
  pub escalation_budget_threshold : Option ℕ
  pub google_refresh_token : Option String
  pub google_calendar_id : Option String

pub record FollowUpTask : Type 0 where
  pub id : ℕ
  pub lead_id : ℕ
  pub attempt_number : ℕ
  pub scheduled_for : ℕ
  pub baseline_at : Option ℕ
  pub channel : Channel
  pub status : FollowUpStatus
  pub template_name : Option String
  pub sent_at : Option ℕ
  pub outcome_reason : Option String

-- `status == FollowUpStatus.SCHEDULED`
abbrev pub is_scheduled : FollowUpStatus → Bool
is_scheduled FollowUpStatus.scheduled = true
is_scheduled _ = false

pub record Conversation : Type 0 where
  pub id : ℕ
  pub lead_id : ℕ
  pub channel : Channel
  pub status : ConversationStatus
  pub last_message_at : Option ℕ

abbrev pub is_human_takeover : ConversationStatus → Bool
is_human_takeover ConversationStatus.human_takeover = true
is_human_takeover _ = false

abbrev pub is_closed : ConversationStatus → Bool
is_closed ConversationStatus.closed = true
is_closed _ = false

pub record Message : Type 0 where
  pub id : ℕ
  pub conversation_id : ℕ
  pub role : MessageRole
  pub direction : MessageDirection
  pub channel : Channel
  pub status : MessageStatus
  pub content : String
  pub external_id : Option String
  -- `meta["delivery_error"]`
  pub delivery_error : Option String
  pub sent_at : Option ℕ

-- `FOLLOW_UP_CADENCE_DAYS`
abbrev pub follow_up_cadence_days : List ℕ
follow_up_cadence_days = 1 ∷ 3 ∷ 7 ∷ 14 ∷ 44 ∷ 74 ∷ []

pub record Appointment : Type 0 where
  pub id : ℕ
  pub lead_id : ℕ
  pub agent_id : ℕ
  pub listing_id : Option ℕ
  pub appointment_type : AppointmentType
  pub status : AppointmentStatus
  pub starts_at : ℕ
  pub ends_at : ℕ
  pub timezone : Option String
  pub location : Option String
  pub notes : Option String
  pub google_event_id : Option String
  pub confirmation_sent_at : Option ℕ
