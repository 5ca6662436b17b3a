-- ===== src/Turn/Examples.antt =====
-- Tests of one turn.
use realty_lead_ai_agent.Common.{◌≡◌, ◌≢◌, ◌⊎◌, refl, true, false, [], some}
use realty_lead_ai_agent.Models.Enums.{Channel}
use realty_lead_ai_agent.Models.Settings.{default_settings}
use realty_lead_ai_agent.RateLimit.Store.{ok, table, empty_table}
use realty_lead_ai_agent.RateLimit.{check}
use realty_lead_ai_agent.InboundQueue.Redis.{Claim}
use realty_lead_ai_agent.Fixtures.{office}
use realty_lead_ai_agent.Turn.{TurnOutcome, Env, Turn, run, run_claim}
use realty_lead_ai_agent.Turn.Outcomes.{counted, run_claim_atomic}

abbrev question : Claim
question = record {
  lead_id = 7;
  agent_id = 1;
  message_id = 4;
  text = "2BHK?";
  channel = Channel.whatsapp;
}

abbrev env : Env
env = record {
  redis = table;
  digest = λ s. s;
  id_text = λ n. "lead";
  settings = default_settings;
  has_llm = true;
  has_channel = λ n. true;
  has_calendar = false;
  process_claimed = λ c w. (ok tt, record w { db = record w.db { next_id = 9 } });
  commits = λ db. true;
}

abbrev start : Turn env
start = record { db = office; redis = empty_table; outbox = [] }

run_claim_atomic_example :
    let (o, w') = run_claim env question start in
    let (r, x) = env.process_claimed question (counted env question start) in
    ((o ≡ ok TurnOutcome.completed) × (r ≡ ok tt) × (w' ≡ x))
    ⊎ ((o ≢ ok TurnOutcome.completed) × (w'.db ≡ start.db))
run_claim_atomic_example = run_claim_atomic env question start

-- The lead has sent 20 messages in this window.
abbrev busy : Turn env
busy = record start { redis = record { counts = λ _. 20; lefts = λ _. some 60 } }

limited : (run_claim env question busy).0 ≡ ok TurnOutcome.rate_limited
unfolding run_claim run check
limited = refl
