-- ===== src/InboundWorker/Examples.antt =====
-- Tests of a pass over one entry.
use realty_lead_ai_agent.Common.{◌≡◌, inl, refl, true, false, [], none, some, arith, if◌then◌else◌}
use realty_lead_ai_agent.Models.Enums.{Channel}
use realty_lead_ai_agent.Models.Settings.{default_settings}
use realty_lead_ai_agent.Models.Db.{find}
use realty_lead_ai_agent.RateLimit.Store.{ok, raised, table, empty_table}
use realty_lead_ai_agent.RateLimit.{check}
use realty_lead_ai_agent.Fixtures.{office}
use realty_lead_ai_agent.InboundQueue.Redis.{Claim, Fields}
use realty_lead_ai_agent.InboundQueue.Held.{IsHeld}
use realty_lead_ai_agent.InboundQueue.Fake.{
  fake, fake-IsStreams, FakeState, codec, loads-dumps, fake_live, fake_room,
}
use realty_lead_ai_agent.InboundQueue.{QueuedClaim}
use realty_lead_ai_agent.Turn.{Env, run, run_claim, with_agent}
use realty_lead_ai_agent.InboundWorker.{State, empty_report, handle, settle, run_once}
use realty_lead_ai_agent.InboundWorker.Release.{IsRetry, handle-releases}
use realty_lead_ai_agent.InboundWorker.Turns.{turns_of_pass}
use realty_lead_ai_agent.InboundWorker.Pass.{IsSafe, run_once-IsSafe}
use text.Mathlib.Text.{◌==◌ as str_eq}

abbrev question : Claim
question = record {
  lead_id = 7;
  agent_id = 1;
  message_id = 4;
  text = "2BHK?";
  channel = Channel.whatsapp;
}

-- The model fails.
abbrev env : Env
env = record {
  redis = table;
  digest = λ s. s;
  id_text = λ n. "lead";
  settings = default_settings;
  has_llm = true;
  has_channel = λ n. true;
  has_calendar = false;
  process_claimed = λ c w. (raised, w);
  commits = λ db. true;
}

abbrev entry : Fields
entry = record {
  claim = some (codec.dumps question);
  attempts = some (codec.show 1);
  enqueued_at = some "Z";
  reason = none;
  dead_lettered_at = none;
}

abbrev waiting : FakeState
waiting = record {
  live = λ i. if str_eq i "I." then some entry else none;
  dead = [];
  next = 2;
  oldest = "I.";
}

abbrev start : State fake codec 0 env
start = record {
  queue = waiting;
  turn = record { db = office; redis = empty_table; outbox = [] };
  report = empty_report;
}

abbrev taken : QueuedClaim
taken = record { entry_id = "I."; claim = question; attempts = 1; enqueued_at = "Z" }

held : IsHeld fake-IsStreams codec 0 question waiting
held = inl ("I.", entry, fake_live waiting "I." entry refl, loads-dumps question)

run_once-IsSafe_example :
    IsSafe fake-IsStreams codec 0 env question
      (run_once fake codec 0 env "a" 10 5_000 true start).1.queue
      (turns_of_pass fake codec 0 env "a" 10 5_000 true start)
run_once-IsSafe_example =
    run_once-IsSafe fake-IsStreams codec 0 env start "a" 10 5_000 true question
      (λ k. omega (arith, fake_room waiting k)) held

handled : (handle fake codec 0 env taken start).0 ≡ ok tt
unfolding handle settle run_claim run check with_agent find
handled = refl

left_pending : (handle fake codec 0 env taken start).1.queue ≡ waiting
unfolding handle settle run_claim run check with_agent find
left_pending = refl

handle-releases_example : IsRetry taken (run_claim env question start.turn).0
handle-releases_example =
    handle-releases fake-IsStreams codec 0 env start taken entry handled
      (rw left_pending (fake_live waiting "I." entry refl))
