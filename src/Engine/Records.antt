-- ===== src/Engine/Records.antt =====
-- Writing messages in backend/app/agent/engine.py: `_record_message` and `_send_and_record`.
use realty_lead_ai_agent.Common.{
  suc, String, Bool, true, false, Option, none, some, [], ◌∷◌, ◌++◌, if◌then◌else◌,
}
use text.Mathlib.Text.{◌==◌ as str_eq}
use realty_lead_ai_agent.Models.Enums.{
  LeadStatus, Channel, MessageRole, MessageDirection, MessageStatus,
}
use realty_lead_ai_agent.Models.Rows.{Message}
use realty_lead_ai_agent.Tools.Context.{ToolContext, flush}

abbrev pub is_handed_off : LeadStatus → Bool
is_handed_off LeadStatus.handed_off = true
is_handed_off _ = false

abbrev pub is_inbound : MessageDirection → Bool
is_inbound MessageDirection.inbound = true
is_inbound MessageDirection.outbound = false

-- `_record_message`
unfoldable pub record_message :
    ToolContext
    → MessageRole
    → MessageDirection
    → String
    → Channel
    → MessageStatus
    → Option String
    → ToolContext
record_message ctx role direction content channel status external_id =
    let m : Message = record {
      id = ctx.db.next_id;
      conversation_id = ctx.conversation.id;
      role = role;
      direction = direction;
      channel = channel;
      status = status;
      content = content;
      external_id = external_id;
      delivery_error = none;
      sent_at = some ctx.now;
    } in
    flush (record ctx {
      db = record ctx.db { messages = ctx.db.messages ++ m ∷ []; next_id = suc ctx.db.next_id };
      conversation = record ctx.conversation { last_message_at = some ctx.now };
    })

-- `_send_and_record`
unfoldable pub send_and_record : ToolContext → String → Channel → ToolContext
send_and_record ctx reply channel =
    if str_eq reply ""
    then ctx
    else let sent =
        record_message ctx MessageRole.assistant MessageDirection.outbound reply channel
          MessageStatus.pending none in
      flush (record sent { lead = record sent.lead { last_outbound_at = some ctx.now } })
