-- ===== src/Delivery.antt =====
-- backend/app/services/ingestion.py: process_claimed and deliver, which run the engine on a claimed
-- message and send its reply; and within_service_window of backend/app/channels/whatsapp.py.
pub mod Answers
mod Examples
use text.Mathlib.Text.{◌==◌ as str_eq}
use realty_lead_ai_agent.Common.{
  ℕ, ◌+◌, ◌*◌, String, Bool, true, false, not, ◌&&◌, Option, none, some, List, [], ◌∷◌, ◌++◌, ltb,
  ◌==◌, if◌then◌else◌,
}
use realty_lead_ai_agent.Models.Enums.{Channel, MessageDirection, MessageStatus}
use realty_lead_ai_agent.Models.Rows.{Lead, Agent, Message}
use realty_lead_ai_agent.Models.Db.{
  Db, find, find_lead, find_agent, latest, update_where, save_lead,
}
use realty_lead_ai_agent.Channels.{Adapter, OutboundMessage, DeliveryResult}
use realty_lead_ai_agent.RateLimit.Store.{Reply, ok, raised}
use realty_lead_ai_agent.Zones.{hour_us}
use realty_lead_ai_agent.InboundQueue.Redis.{Claim}
use realty_lead_ai_agent.Turn.{World}
use realty_lead_ai_agent.Tools.Context.{ToolContext}
use realty_lead_ai_agent.Engine.Model.{EngineResult, Turn}
use realty_lead_ai_agent.Engine.Model.{Env as Engine}
use realty_lead_ai_agent.Engine.Records.{is_inbound}
use realty_lead_ai_agent.Engine.{handle_inbound}

unfoldable pub within_service_window : Option ℕ → ℕ → ℕ → Bool
within_service_window none now window_hours = false
within_service_window (some last) now window_hours = ltb now (last + window_hours * hour_us)

-- `select(Message)` of the conversation's outbound rows, the latest one
abbrev pub outbound_row : ToolContext → Option Message
outbound_row ctx =
    latest (λ m. m.conversation_id == ctx.conversation.id && not (is_inbound m.direction))
      ctx.db.messages

-- Write on the row, if there is one.
abbrev pub write_row : Db → Option Message → (Message → Message) → Db
write_row db none f = db
write_row db (some m) f = record db { messages = update_where (λ n. n.id == m.id) f db.messages }

abbrev pub reply_message : ToolContext → EngineResult → Channel → OutboundMessage
reply_message ctx result channel = record {
  channel = channel;
  recipient = ctx.lead.phone;
  text = result.reply;
  lead_id = ctx.lead.id;
  template_name = none;
  template_variables = none;
}

module _ {S : Type 0} (engine : Engine) (send : Adapter) (now : ℕ) where
  open engine use {settings}

  -- A rejected reply marks the row and raises `DeliveryRejectedError`.
  abbrev pub delivered : ToolContext → World S → Reply DeliveryResult → Reply (Unit {0}) × World S
  delivered ctx w raised = (raised, w)
  delivered ctx w (ok d) =
      if d.accepted
      then (
        ok tt,
        record w {
          db =
              save_lead
                (write_row ctx.db (outbound_row ctx)
                  (λ m. record m { external_id = d.external_id; status = MessageStatus.sent }))
                (record ctx.lead { last_outbound_at = some now });
        },
      )
      else (
        raised,
        record w {
          db =
              write_row ctx.db (outbound_row ctx)
                (λ m. record m { external_id = d.external_id; status = MessageStatus.failed });
        },
      )

  unfoldable pub deliver :
      ToolContext → EngineResult → Channel → World S → Reply (Unit {0}) × World S
  deliver ctx result channel w =
      if within_service_window ctx.lead.last_inbound_at now settings.whatsapp_service_window_hours
      then (let m = reply_message ctx result channel in
          delivered ctx (record w { outbox = w.outbox ++ m ∷ [] }) (send w.outbox m))
      else (
        ok tt,
        record w {
          db =
              write_row ctx.db (outbound_row ctx) (λ m. record m { status = MessageStatus.failed });
        },
      )

  -- An empty reply is not sent.
  abbrev pub answer : Channel → World S → Reply EngineResult × Turn → Reply (Unit {0}) × World S
  answer channel w (raised, t) = (raised, record w { db = t.ctx.db })
  answer channel w (ok result, t) =
      let after = record w { db = t.ctx.db } in
      if str_eq result.reply "" then (ok tt, after) else deliver t.ctx result channel after

  abbrev pub answer_loaded :
      Claim → World S → Option Lead → Option Agent → Option Message → Reply (Unit {0}) × World S
  answer_loaded claim w (some lead) (some agent) (some message) =
      elim (handle_inbound engine w.db lead agent claim.text claim.channel none now
        (some message)) [ none ↦ (raised, w) | some r ↦ answer claim.channel w r ]
  answer_loaded claim w _ _ _ = (raised, w)

  -- `get_one` raises where a row is gone.
  unfoldable pub process_claimed : Claim → World S → Reply (Unit {0}) × World S
  process_claimed claim w =
      answer_loaded claim w (find_lead w.db claim.lead_id) (find_agent w.db claim.agent_id)
        (find (λ m. m.id == claim.message_id) w.db.messages)
