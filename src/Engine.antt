-- ===== src/Engine.antt =====
-- backend/app/agent/engine.py: one inbound message in, one reply out, with tool calls in between. The
-- rows of the turn stand in the tools' context; flushing writes them to the tables.
pub mod Model
pub mod Records
pub mod History
pub mod Loop
pub mod Rounds
pub mod Requests
pub mod Quiet
pub mod Escalates
mod Examples
use realty_lead_ai_agent.Common.{
  ℕ, zero, suc, ◌+◌, ◌*◌, String, Bool, true, false, not, ◌&&◌, ◌||◌, Option, none, some, List, [],
  ◌∷◌, ◌++◌, ltb, leb, ◌==◌, if◌then◌else◌, get_or, length, filter,
}
use text.Mathlib.Text.{◌==◌ as str_eq}
use realty_lead_ai_agent.Models.Enums.{
  Language, LeadStatus, Channel, ConsentStatus, ConversationStatus, MessageRole, MessageDirection,
  MessageStatus,
}
use realty_lead_ai_agent.Models.Rows.{Lead, Agent, Conversation, Message, is_human_takeover}
use realty_lead_ai_agent.Models.Settings.{Settings}
use realty_lead_ai_agent.Models.Db.{Db, find}
use realty_lead_ai_agent.RateLimit.Store.{Reply, ok, raised}
use realty_lead_ai_agent.Templates.Text.{concat, strip}
use realty_lead_ai_agent.FollowUps.{cancel_pending, schedule_next}
use realty_lead_ai_agent.Ingestion.{get_or_create_conversation}
use realty_lead_ai_agent.Scheduling.{Services}
use realty_lead_ai_agent.Tools.Context.{ToolContext, Parsers, ToolReply, flush}
use realty_lead_ai_agent.Tools.{ToolCall, dispatch}
use realty_lead_ai_agent.Optout.{Unicode, is_opt_out, opt_out_confirmation}
use realty_lead_ai_agent.Engine.Model.{
  ToolUse, LlmResponse, LlmReply, responded, llm_error, crashed, Role, user, assistant, ToolResult,
  Content, plain, response, results, Chat, Env, EngineResult, fallback_reply, Turn, Ending, replied,
  failed, broke,
}
use realty_lead_ai_agent.Engine.Records.{is_handed_off, is_inbound, record_message, send_and_record}
use realty_lead_ai_agent.Engine.History.{
  same_role, add_text, from_user, history_as_messages, inbound_count,
}
use realty_lead_ai_agent.Engine.Loop.{
  escalate_for_failure, threshold, budget_of, is_over_budget, apply_budget_escalation, run_tools,
  fall_back, conclude, no_tools, iterate, run_turn,
}

module _ (env : Env) where
  open env use {services, parsers, unicode, settings}

  abbrev opt_in : ConsentStatus → ConsentStatus
  opt_in ConsentStatus.unknown = ConsentStatus.opted_in
  opt_in c = c

  -- Messaging first is consent.
  abbrev pub begin : Db → Lead → Agent → Conversation → ℕ → ToolContext
  begin db lead agent conversation now = flush (record {
    db = db;
    agent = agent;
    lead = record lead { consent_status = opt_in lead.consent_status };
    conversation = conversation;
    inbound_message_count = 0;
    now = now;
    escalated = false;
    escalation_reason = none;
    booked_appointment_id = none;
    calendar_sync_failed = none;
  })

  -- The rows once the message is there. A message that the caller recorded names its conversation,
  -- which `get_one` needs to find.
  unfoldable pub receive :
      Db → Lead → Agent → String → Channel → Option String → ℕ → Option Message → Reply ToolContext
  receive db lead agent content channel external_id now (some m) =
      elim (find (λ c. c.id == m.conversation_id) db.conversations) [
        | none ↦ raised
        | some conversation ↦ ok (
            begin db (record lead { last_inbound_at = some (get_or m.sent_at now) }) agent
              conversation now)
      ]
  receive db lead agent content channel external_id now none =
      let (db', conversation) = get_or_create_conversation db lead channel in
      ok (
        record_message
          (begin db' (record lead { last_inbound_at = some now }) agent conversation now)
          MessageRole.lead MessageDirection.inbound content channel MessageStatus.received
          external_id)

  abbrev pub result_of : ToolContext → String → List ToolCall → EngineResult
  result_of ctx reply calls = record {
    reply = reply;
    escalated = ctx.escalated;
    escalation_reason = ctx.escalation_reason;
    opted_out = false;
    tool_calls = calls;
    error = none;
  }

  -- `_handle_opt_out`
  unfoldable pub handle_opt_out : ToolContext → Channel → EngineResult × ToolContext
  handle_opt_out ctx channel =
      let out = flush (record ctx {
        lead = record ctx.lead {
          consent_status = ConsentStatus.opted_out;
          opted_out_at = some ctx.now;
          status = LeadStatus.opted_out;
        };
        conversation = record ctx.conversation { status = ConversationStatus.closed };
      }) in
      let cancelled = record out { db = (cancel_pending out.db out.lead.id "lead opted out").0 } in
      let reply = opt_out_confirmation ctx.lead.language in
      (
        record (result_of cancelled reply []) {
          escalated = false;
          escalation_reason = none;
          opted_out = true;
        },
        send_and_record cancelled reply channel,
      )

  abbrev pub human_owns : ToolContext → Bool
  human_owns ctx = is_human_takeover ctx.conversation.status || is_handed_off ctx.lead.status

  unfoldable pub stay_quiet : ToolContext → EngineResult × ToolContext
  stay_quiet ctx =
      let held = flush (record ctx {
        conversation = record ctx.conversation { status = ConversationStatus.human_takeover };
      }) in
      (
        record (result_of ctx "" []) {
          escalated = true;
          escalation_reason = some "human_takeover";
        },
        record held {
          db = (cancel_pending held.db held.lead.id "human took over the conversation").0;
        },
      )

  -- The reply is recorded and the next nudge scheduled.
  unfoldable pub reply_with : ToolContext → String → Channel → ToolContext
  reply_with ctx reply channel =
      let sent = send_and_record ctx reply channel in
      record sent {
        db = (schedule_next services.zones settings sent.db sent.lead sent.now channel).0;
      }

  abbrev pub settle_calendar : ToolContext → Option String → ToolContext
  settle_calendar ctx none = ctx
  settle_calendar ctx (some reason) =
      if str_eq reason "" then ctx else escalate_for_failure env ctx reason

  -- After the turn: the reply, the fallback after an `LLMError`, or the exception.
  unfoldable pub after_turn : Channel → Ending × Turn → Reply EngineResult × Turn
  after_turn channel (broke, t) = (raised, t)
  after_turn channel (failed e, t) =
      let reply = fallback_reply t.ctx.lead.language t.ctx.agent.name in
      let ctx = reply_with (escalate_for_failure env t.ctx e) reply channel in
      (
        ok (record (result_of ctx reply []) {
          escalated = true;
          escalation_reason = some "engine_error";
          error = some e;
        }),
        record t { ctx = ctx },
      )
  after_turn channel (replied reply, t) =
      let ctx = reply_with (settle_calendar t.ctx t.ctx.calendar_sync_failed) reply channel in
      (ok (result_of ctx reply t.tool_calls), record t { ctx = ctx })

  -- A turn with no request to the model.
  abbrev pub silent : EngineResult × ToolContext → Reply EngineResult × Turn
  silent (result, ctx) = (ok result, record { ctx = ctx; tool_calls = []; requests = [] })

  unfoldable pub respond : ToolContext → String → Channel → Reply EngineResult × Turn
  respond ctx content channel = elim (is_opt_out unicode content) [
    | true ↦ silent (handle_opt_out ctx channel)
    | false ↦ elim (human_owns ctx) [
      | true ↦ silent (stay_quiet ctx)
      | false ↦
          let counted = record ctx {
            inbound_message_count = inbound_count ctx.db ctx.conversation;
          } in
          after_turn channel (run_turn env (apply_budget_escalation env counted))
    ]
  ]

  -- None where it raises before the turn.
  unfoldable pub handle_inbound :
      Db
      → Lead
      → Agent
      → String
      → Channel
      → Option String
      → ℕ
      → Option Message
      → Option (Reply EngineResult × Turn)
  handle_inbound db lead agent content channel external_id now recorded =
      elim (receive db lead agent content channel external_id now recorded) [
        | raised ↦ none
        | ok ctx ↦ some (respond ctx content channel)
      ]
