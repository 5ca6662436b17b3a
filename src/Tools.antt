-- ===== src/Tools.antt =====
-- backend/app/agent/tools.py: the tools that the model may call, over the rows of one turn. The rows
-- of the lead and of the conversation are written back where the code flushes the session; what a
-- result tells the model in words is left to the constructor of its data.
pub mod Context
pub mod Listings
pub mod Profile
pub mod Cases
pub mod Bookings
pub mod Offers
mod Examples
use realty_lead_ai_agent.Common.{
  ℕ, suc, ◌+◌, ◌*◌, String, Bool, true, false, not, ◌&&◌, Option, none, some, List, [], ◌∷◌, ◌++◌,
  leb, ◌==◌, if◌then◌else◌, filter, get_or, is_none,
}
use realty_lead_ai_agent.Models.Enums.{
  LeadStatus, LeadTemperature, AppointmentType, AppointmentStatus, ConversationStatus,
}
use realty_lead_ai_agent.Models.Rows.{Appointment}
use realty_lead_ai_agent.Models.Listings.{Listing}
use realty_lead_ai_agent.Models.Db.{Db, find, update_where}
use realty_lead_ai_agent.Channels.{is_set, or_text}
use realty_lead_ai_agent.RateLimit.Store.{Reply, ok, raised}
use realty_lead_ai_agent.Templates.Text.{truncate}
use realty_lead_ai_agent.Zones.{minute_us}
use realty_lead_ai_agent.Scoring.{
  ScoringInput, LeadScore, score_lead as score_of, active_listing_prices,
}
use realty_lead_ai_agent.Scheduling.{Services, Slot, slot_minutes, find_available_slots}
use realty_lead_ai_agent.Booking.{SyncOutcome, Stamp, needs_attention, sync_to_calendar}
use realty_lead_ai_agent.Tools.Context.{
  ToolContext, Parsers, ToolError, Payload, ToolReply, result, tool_error, crashed, Timestamp,
  aware, naive, flush,
}
use realty_lead_ai_agent.Tools.Listings.{ListingQuery, get_listing_details}
use realty_lead_ai_agent.Tools.Profile.{ProfileUpdate, update_lead_profile}

pub record Booking : Type 0 where
  pub starts_at : String
  pub appointment_type : AppointmentType
  pub listing_id : Option String
  pub notes : Option String

-- A call of a tool, by its name, with the arguments that its schema guarantees. Numbers among them are
-- natural: a model that sends negative ones, which the handlers accept, is not represented.
pub data ToolCall : Type 0 where
  get_listing : ListingQuery → ToolCall
  update_profile : ProfileUpdate → ToolCall
  score : ToolCall
  availability : AppointmentType → Option ℕ → ToolCall
  book : Booking → ToolCall
  escalate : String → String → ToolCall
  other : String → ToolCall

abbrev is_engaged : LeadStatus → Bool
is_engaged LeadStatus.engaged = true
is_engaged _ = false

abbrev is_cold : LeadTemperature → Bool
is_cold LeadTemperature.cold = true
is_cold _ = false

abbrev pub scoring_input : ToolContext → ScoringInput
scoring_input ctx = record {
  budget_min = ctx.lead.budget_min;
  budget_max = ctx.lead.budget_max;
  timeline_months = ctx.lead.timeline_months;
  loan_preapproved = ctx.lead.loan_preapproved;
  site_visit_willing = ctx.lead.site_visit_willing;
  inbound_message_count = ctx.inbound_message_count;
  status = ctx.lead.status;
}

unfoldable pub score_lead : ToolContext → ToolReply × ToolContext
score_lead ctx =
    let prices = active_listing_prices (filter (λ l. l.agent_id == ctx.agent.id) ctx.db.listings) in
    let outcome = score_of (scoring_input ctx) prices in
    let lead = record ctx.lead {
      score = outcome.score;
      temperature = outcome.temperature;
      score_reasons = outcome.reasons;
      scored_at = some ctx.now;
      status =
          if not (is_cold outcome.temperature) && is_engaged ctx.lead.status
          then LeadStatus.qualified
          else ctx.lead.status;
    } in
    (result (Payload.scored outcome), flush (record ctx { lead = lead }))

-- `args.get("search_days") or 7`
abbrev pub days_or_7 : Option ℕ → ℕ
days_or_7 none = 7
days_or_7 (some n) = if n == 0 then 7 else n

-- The default limit of find_available_slots is 6.
unfoldable pub check_availability : Services → ToolContext → AppointmentType → Option ℕ → ToolReply
check_availability services ctx t search_days =
    elim (find_available_slots services ctx.db ctx.agent t (days_or_7 search_days) 6 ctx.now) [
      | raised ↦ crashed
      | ok slots ↦ result (Payload.availability slots)
    ]

-- `starts_at.replace(tzinfo=UTC)` where it has no zone
abbrev pub moment_of : Timestamp → ℕ
moment_of (aware m) = m
moment_of (naive m) = m

-- `any(slot.starts_at == starts_at for slot in available)`
unfoldable pub is_offered : ℕ → List Slot → Bool
is_offered start [] = false
is_offered start (s ∷ slots) =
    let rest = is_offered start slots in if s.starts_at == start then true else rest

abbrev pub new_appointment : ToolContext → Booking → Option ℕ → ℕ → Appointment
new_appointment ctx args listing_id start = record {
  id = ctx.db.next_id;
  lead_id = ctx.lead.id;
  agent_id = ctx.agent.id;
  listing_id = listing_id;
  appointment_type = args.appointment_type;
  status = AppointmentStatus.confirmed;
  starts_at = start;
  ends_at = start + slot_minutes args.appointment_type * minute_us;
  timezone = ctx.agent.timezone;
  location = none;
  notes = args.notes;
  google_event_id = none;
  confirmation_sent_at = none;
}

-- The row is added and the lead marked before the calendar is asked.
abbrev pub add_appointment : ToolContext → Appointment → ToolContext
add_appointment ctx a =
    let kept = flush (record ctx { lead = record ctx.lead { status = LeadStatus.booked } }) in
    record kept {
      db = record kept.db {
        appointments = kept.db.appointments ++ a ∷ [];
        next_id = suc kept.db.next_id;
      };
      booked_appointment_id = some a.id;
    }

abbrev pub stamp : ToolContext → ℕ → Option Stamp → ToolContext
stamp ctx id none = ctx
stamp ctx id (some s) = record ctx {
  db = record ctx.db {
    appointments =
        update_where (λ a. a.id == id)
          (λ a. record a {
            google_event_id = some s.google_event_id;
            confirmation_sent_at = some s.confirmation_sent_at;
          })
          ctx.db.appointments;
  };
}

-- What the calendar's answer does to a booking that stands.
abbrev pub synced :
    ToolContext → Appointment → Reply (SyncOutcome × Option Stamp) → ToolReply × ToolContext
synced ctx a raised = (crashed, ctx)
synced ctx a (ok (outcome, written)) =
    let after = stamp ctx a.id written in
    (
      result (
          Payload.booked a.id a.starts_at a.appointment_type a.status outcome.synced
            outcome.reason),
      if needs_attention outcome
          then record after { calendar_sync_failed = outcome.reason }
          else after,
    )

abbrev pub listing_of : ToolContext → Option ℕ → Option Listing
listing_of ctx none = none
listing_of ctx (some id) = find (λ l. l.id == id) ctx.db.listings

-- The foreign key of `listing_id`
abbrev pub has_listing : ToolContext → Option ℕ → Bool
has_listing ctx none = true
has_listing ctx (some id) = not (is_none (find (λ l. l.id == id) ctx.db.listings))

-- The flush raises for a listing that there is not, with the lead already marked.
unfoldable pub confirm : Services → ToolContext → Booking → Option ℕ → ℕ → ToolReply × ToolContext
confirm services ctx args listing_id start =
    let a = new_appointment ctx args listing_id start in
    let after = add_appointment ctx a in
    if has_listing ctx listing_id
    then synced after a (
        sync_to_calendar services.calendar after.agent after.lead a (listing_of after listing_id)
          after.now)
    else (crashed, record ctx { lead = record ctx.lead { status = LeadStatus.booked } })

-- The slots are found again: 30 days ahead, 200 at most.
unfoldable pub book_slot : Services → ToolContext → Booking → Option ℕ → ℕ → ToolReply × ToolContext
book_slot services ctx args listing_id start =
    elim (find_available_slots services ctx.db ctx.agent args.appointment_type 30 200 ctx.now) [
      | raised ↦ (crashed, ctx)
      | ok slots ↦
          if is_offered start slots
          then confirm services ctx args listing_id start
          else (tool_error ToolError.no_longer_available, ctx)
    ]

abbrev pub book_at : Services → Parsers → ToolContext → Booking → ℕ → ToolReply × ToolContext
book_at services parsers ctx args start =
    if leb start ctx.now
    then (tool_error ToolError.in_the_past, ctx)
    else if is_set args.listing_id
    then elim (parsers.uuid (or_text args.listing_id "")) [
      | none ↦ (tool_error (ToolError.not_a_listing_id (or_text args.listing_id "")), ctx)
      | some id ↦ book_slot services ctx args (some id) start
    ]
    else book_slot services ctx args none start

unfoldable pub book_appointment :
    Services → Parsers → ToolContext → Booking → ToolReply × ToolContext
book_appointment services parsers ctx args = elim (parsers.from_iso args.starts_at) [
  | none ↦ (tool_error (ToolError.not_a_timestamp args.starts_at), ctx)
  | some t ↦ book_at services parsers ctx args (moment_of t)
]

unfoldable pub escalate_to_human : ToolContext → String → String → ToolReply × ToolContext
escalate_to_human ctx reason urgency =
    let changed = record ctx {
      lead = record ctx.lead {
        status = LeadStatus.handed_off;
        handed_off_at = some ctx.now;
        handoff_reason = some (truncate 255 reason);
      };
      conversation = record ctx.conversation { status = ConversationStatus.human_takeover };
    } in
    (
      result (Payload.handed_over urgency),
      record (flush changed) { escalated = true; escalation_reason = some reason },
    )

unfoldable pub dispatch : Services → Parsers → ToolContext → ToolCall → ToolReply × ToolContext
dispatch services parsers ctx (get_listing query) = (get_listing_details parsers ctx query, ctx)
dispatch services parsers ctx (update_profile args) = update_lead_profile parsers ctx args
dispatch services parsers ctx score = score_lead ctx
dispatch services parsers ctx (availability t days) = (check_availability services ctx t days, ctx)
dispatch services parsers ctx (book args) = book_appointment services parsers ctx args
dispatch services parsers ctx (escalate reason urgency) = escalate_to_human ctx reason urgency
dispatch services parsers ctx (other name) = (tool_error (ToolError.unknown_tool name), ctx)
