-- ===== src/FollowUpWorker/State.antt =====
-- backend/app/workers/followup_worker.py: what a pass is given and changes, and what it records of a
-- nudge that it sent.
use realty_lead_ai_agent.Common.{
  ℕ, suc, ◌+◌, ◌*◌, String, Bool, true, false, Option, none, some, List, [], ◌∷◌, ◌++◌, ◌==◌, ◌&&◌,
}
use realty_lead_ai_agent.Models.Enums.{
  Channel, same_channel, FollowUpStatus, MessageRole, MessageDirection, MessageStatus,
  ConversationStatus,
}
use realty_lead_ai_agent.Models.Rows.{Lead, Agent, FollowUpTask, Conversation, Message}
use realty_lead_ai_agent.Models.Settings.{Settings}
use realty_lead_ai_agent.Models.Db.{Db, latest, update_where}
use realty_lead_ai_agent.Channels.{OutboundMessage, DeliveryResult, Adapter}
use realty_lead_ai_agent.Templates.Table.{MessageTemplate}
use realty_lead_ai_agent.Templates.{first_name, render}
use realty_lead_ai_agent.Zones.{ZoneDb}
use realty_lead_ai_agent.RateLimit.Store.{Counters}
use realty_lead_ai_agent.FollowUps.{SkipReason, skip_text}

-- What a pass is given: Redis and the hash of its keys, the text of an agent's id, the zones, the
-- settings, the clock, the adapter that a test injects, and WhatsApp's for a phone number id, if a
-- token is set.
pub record Env : Type 1 where
  pub redis : Counters
  pub digest : String → String
  pub id_text : ℕ → String
  pub zones : ZoneDb
  pub settings : Settings
  pub now : ℕ
  pub adapter : Option Adapter
  pub whatsapp : String → Option Adapter

pub record RunReport : Type 0 where
  pub sent : ℕ
  pub skipped : ℕ
  pub deferred : ℕ
  pub failed : ℕ
  pub skip_reasons : List String

abbrev pub empty_report : RunReport
empty_report = record { sent = 0; skipped = 0; deferred = 0; failed = 0; skip_reasons = [] }

-- `RunReport.processed`
abbrev pub processed : RunReport → ℕ
processed r = r.sent + r.skipped + r.deferred + r.failed

pub record World (S : Type 0) : Type 0 where
  pub db : Db
  pub redis : S
  pub outbox : List OutboundMessage
  pub report : RunReport

-- The microseconds of `timedelta(seconds=n)`
abbrev pub seconds : ℕ → ℕ
seconds n = n * 1_000_000

abbrev pub count_skip : RunReport → SkipReason → RunReport
count_skip r reason = record r {
  skipped = r.skipped + 1;
  skip_reasons = r.skip_reasons ++ skip_text reason ∷ [];
}

abbrev pub count_deferred : RunReport → RunReport
count_deferred r = record r { deferred = r.deferred + 1 }

abbrev pub count_failed : RunReport → RunReport
count_failed r = record r { failed = r.failed + 1 }

abbrev pub count_sent : RunReport → RunReport
count_sent r = record r { sent = r.sent + 1 }

-- CANCELLED, but SKIPPED for the cap
abbrev pub refused_status : SkipReason → FollowUpStatus
refused_status SkipReason.cap_reached = FollowUpStatus.skipped
refused_status _ = FollowUpStatus.cancelled

abbrev pub is_reply : SkipReason → Bool
is_reply SkipReason.lead_replied = true
is_reply _ = false

abbrev pub of_lead : ℕ → Channel → (Channel → Channel → Bool) → Conversation → Bool
of_lead id channel same c = c.lead_id == id && same c.channel channel

-- The conversation that a nudge is recorded in; a new one where the lead has none on the channel.
unfoldable pub conversation_for : Db → Lead → Channel → Db × Conversation
unfolding same_channel
conversation_for db lead channel =
    elim (latest (of_lead lead.id channel same_channel) db.conversations) [
      | some c ↦ (db, c)
      | none ↦
          let c : Conversation = record {
            id = db.next_id;
            lead_id = lead.id;
            channel = channel;
            status = ConversationStatus.active;
            last_message_at = none;
          } in
          (record db { conversations = db.conversations ++ c ∷ []; next_id = suc db.next_id }, c)
    ]

-- `_record_outbound`
unfoldable pub record_outbound : Db → Lead → FollowUpTask → String → DeliveryResult → Db
record_outbound db lead task text delivery =
    let (db', c) = conversation_for db lead task.channel in
    let m : Message = record {
      id = db'.next_id;
      conversation_id = c.id;
      role = MessageRole.assistant;
      direction = MessageDirection.outbound;
      channel = task.channel;
      status = MessageStatus.sent;
      content = text;
      external_id = delivery.external_id;
      delivery_error = none;
      sent_at = task.sent_at;
    } in
    record db' {
      messages = db'.messages ++ m ∷ [];
      next_id = suc db'.next_id;
      conversations =
          update_where (λ x. x.id == c.id) (λ x. record x { last_message_at = task.sent_at })
            db'.conversations;
    }

abbrev pub nudge_message : FollowUpTask → Lead → Agent → MessageTemplate → OutboundMessage
nudge_message task lead agent template =
    let greeting = first_name lead.name lead.language in
    record {
      channel = task.channel;
      recipient = lead.phone;
      text = render template greeting agent.name;
      lead_id = lead.id;
      template_name = some template.name;
      template_variables =
          some (record { language = template.language; name = greeting; agent = agent.name });
    }
