-- ===== src/Delivery/Examples.antt =====
-- Tests of a turn over the engine: Asha's message is answered.
use realty_lead_ai_agent.Common.{◌≡◌, ◌≢◌, ◌⊎◌, true, false, none, some, [], ◌∷◌}
use realty_lead_ai_agent.Models.Enums.{Channel, MessageRole, MessageDirection, MessageStatus}
use realty_lead_ai_agent.Models.Rows.{Message}
use realty_lead_ai_agent.Models.Settings.{default_settings}
use realty_lead_ai_agent.Channels.{Adapter}
use realty_lead_ai_agent.RateLimit.Store.{ok, raised, table, empty_table}
use realty_lead_ai_agent.InboundQueue.Redis.{Claim}
use realty_lead_ai_agent.Fixtures.{office, engine, afternoon}
use realty_lead_ai_agent.Turn.{TurnOutcome, Env, Turn, run_claim}
use realty_lead_ai_agent.Delivery.Answers.{IsAnswered, over, run_claim-IsAnswered}

abbrev question : Message
question = record {
  id = 4;
  conversation_id = 5;
  role = MessageRole.lead;
  direction = MessageDirection.inbound;
  channel = Channel.whatsapp;
  status = MessageStatus.received;
  content = "hello";
  external_id = some "wamid.1";
  delivery_error = none;
  sent_at = some 208_700_000_000;
}

abbrev asked : Claim
asked = record {
  lead_id = 7;
  agent_id = 1;
  message_id = 4;
  text = "hello";
  channel = Channel.whatsapp;
}

abbrev env : Env
env = record {
  redis = table;
  digest = λ s. s;
  id_text = λ n. "lead";
  settings = default_settings;
  has_llm = true;
  has_channel = λ n. true;
  has_calendar = false;
  process_claimed = λ c w. (raised, w);
  commits = λ db. true;
}

abbrev start : Turn env
start = record { db = record office { messages = question ∷ [] }; redis = empty_table; outbox = [] }

abbrev accepts : Adapter
accepts sent m = ok (record { external_id = some "wamid.2"; accepted = true; error = none })

run_claim-IsAnswered_example :
    let (o, w') = run_claim (over engine accepts afternoon env) asked start in
    ((o ≡ ok TurnOutcome.completed)
      × IsAnswered engine accepts afternoon asked start.db [] w'.outbox)
    ⊎ ((o ≢ ok TurnOutcome.completed) × (w'.db ≡ start.db))
run_claim-IsAnswered_example = run_claim-IsAnswered engine accepts afternoon env asked start
