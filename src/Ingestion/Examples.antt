-- ===== src/Ingestion/Examples.antt =====
-- Tests of one inbound message and of two receipts.
use realty_lead_ai_agent.Common.{◌≡◌, ◌≢◌, refl, none, some, List, [], ◌∷◌, map}
use realty_lead_ai_agent.Models.Enums.{Channel, MessageRole, MessageDirection, MessageStatus}
use realty_lead_ai_agent.Models.Rows.{Message}
use realty_lead_ai_agent.Models.Db.{find}
use realty_lead_ai_agent.Fixtures.{office, asha}
use realty_lead_ai_agent.Ingestion.{
  InboundMessage, Race, integrity_error, StatusUpdate, unknown_agent, duplicate, recorded,
  resolve_agent, get_or_create_lead, get_or_create_conversation, flush_claim, claim_inbound, rank,
  apply_status_updates,
}
use realty_lead_ai_agent.Ingestion.Once.{claim_inbound_twice}
use realty_lead_ai_agent.Ingestion.Receipts.{received, highest, apply_status_updates-highest}

abbrev hello : InboundMessage
hello = record {
  channel = Channel.whatsapp;
  sender = "+911111111111";
  text = "Hello";
  external_id = some "wamid.1";
  received_at = none;
  profile_name = some "Meera";
  recipient = some "555";
}

-- A reply that was sent.
abbrev reply : Message
reply = record {
  id = 20;
  conversation_id = 5;
  role = MessageRole.assistant;
  direction = MessageDirection.outbound;
  channel = Channel.whatsapp;
  status = MessageStatus.sent;
  content = "Hi";
  external_id = some "wamid.9";
  delivery_error = none;
  sent_at = none;
}

-- No other delivery commits meanwhile.
abbrev alone : Race
alone = record { messages = []; leads = [] }

agent_known : (claim_inbound office alone 100 hello "whatsapp").0 ≢ unknown_agent
unfolding claim_inbound resolve_agent find flush_claim get_or_create_lead get_or_create_conversation
    recorded
agent_known h = cc

claims : (claim_inbound office alone 100 hello "whatsapp").0 ≢ integrity_error
unfolding claim_inbound resolve_agent find flush_claim get_or_create_lead get_or_create_conversation
    recorded
claims h = cc

-- Another delivery of a new lead's first message has added the lead.
meanwhile :
    (claim_inbound office
      (record {
        messages = [];
        leads = record asha { id = 30; agent_id = 1; phone = "+911111111111" } ∷ [];
      })
      100
      hello
      "whatsapp").0
    ≡ integrity_error
unfolding claim_inbound resolve_agent find recorded
meanwhile = refl

claim_inbound_twice_example :
    let db' = (claim_inbound office alone 100 hello "whatsapp").1 in
    claim_inbound db' alone 200 hello "whatsapp" ≡ (duplicate, db')
claim_inbound_twice_example =
    claim_inbound_twice office alone 100 hello "whatsapp" alone 200 "whatsapp" refl agent_known
      claims

-- The receipts come in the wrong order.
abbrev receipts : List StatusUpdate
receipts =
    record { external_id = "wamid.9"; status = MessageStatus.read; error = none }
    ∷ record { external_id = "wamid.9"; status = MessageStatus.delivered; error = none }
    ∷ []

apply_status_updates-highest_example :
    let ms' = (apply_status_updates receipts (reply ∷ [])).0 in
    (ms' ≡ map (received receipts) (reply ∷ []))
    × (map (λ m. rank m.status) ms' ≡ map (highest receipts) (reply ∷ []))
apply_status_updates-highest_example = apply_status_updates-highest receipts (reply ∷ [])
