-- ===== src/InboundWorker.antt =====
-- backend/app/workers/inbound_worker.py: one pass that recovers stale entries, takes a batch from the
-- queue, runs a turn for each entry and settles it by the outcome.
pub mod Turns
pub mod Settle
pub mod Release
pub mod Take
pub mod Pass
mod Examples
use realty_lead_ai_agent.Common.{
  ℕ, ◌+◌, ◌*◌, String, Bool, true, false, Option, none, some, List, [], ◌∷◌, if◌then◌else◌,
}
use realty_lead_ai_agent.RateLimit.Store.{Reply, ok, raised}
use realty_lead_ai_agent.InboundQueue.Redis.{Codec, Streams}
use realty_lead_ai_agent.InboundQueue.{
  QueuedClaim, ReclaimReport, is_last_attempt, ensure_group, consume, ack, dead_letter,
  reclaim_stale,
}
use realty_lead_ai_agent.Turn.{TurnOutcome, Turn, run_claim}
use realty_lead_ai_agent.Turn as TurnModule

pub record RunReport : Type 0 where
  pub completed : ℕ
  pub rate_limited : ℕ
  pub not_configured : ℕ
  pub failed : ℕ
  pub reclaimed : Option ReclaimReport

abbrev pub empty_report : RunReport
empty_report = record {
  completed = 0;
  rate_limited = 0;
  not_configured = 0;
  failed = 0;
  reclaimed = none;
}

-- `RunReport.processed`
abbrev pub processed : RunReport → ℕ
processed r = r.completed + r.rate_limited + r.not_configured + r.failed

-- The worker's world: the streams, and what turns change. The keys of the streams and of the rate
-- limits are apart, so each is a state of its own.
pub record World (S T : Type 0) : Type 0 where
  pub queue : S
  pub turn : T
  pub report : RunReport

module _ (redis : Streams) (codec : Codec) (now : ℕ) (env : TurnModule.Env) where
  abbrev pub State : Type 0
  State = World redis.State (Turn env)

  -- A call on the queue.
  abbrev pub on_queue :
      {A : Type 0} → (redis.State → Reply A × redis.State) → State → Reply A × State
  on_queue m w = let (r, s) = m w.queue in (r, record w { queue = s })

  abbrev add_completed : State → State
  add_completed w = record w { report = record w.report { completed = w.report.completed + 1 } }

  abbrev add_rate_limited : State → State
  add_rate_limited w = record w {
    report = record w.report { rate_limited = w.report.rate_limited + 1 };
  }

  abbrev add_not_configured : State → State
  add_not_configured w = record w {
    report = record w.report { not_configured = w.report.not_configured + 1 };
  }

  abbrev add_failed : State → State
  add_failed w = record w { report = record w.report { failed = w.report.failed + 1 } }

  -- What becomes of an entry whose turn is over. A turn that failed stays unacknowledged, but for the
  -- last attempt.
  unfoldable pub settle : QueuedClaim → Reply TurnOutcome → State → Reply (Unit {0}) × State
  settle q raised w = (raised, w)
  settle q (ok TurnOutcome.completed) w = on_queue (ack redis codec now q) (add_completed w)
  settle q (ok TurnOutcome.rate_limited) w = on_queue (ack redis codec now q) (add_rate_limited w)
  settle q (ok TurnOutcome.not_configured) w =
      on_queue (dead_letter redis codec now q "agent not configured for messaging")
        (add_not_configured w)
  settle q (ok TurnOutcome.failed) w =
      if is_last_attempt q
      then on_queue (dead_letter redis codec now q "failed on the final attempt") (add_failed w)
      else (ok tt, add_failed w)

  unfoldable pub handle : QueuedClaim → State → Reply (Unit {0}) × State
  handle q w = let (o, t) = run_claim env q.claim w.turn in settle q o (record w { turn = t })

  unfoldable pub handle_all : List QueuedClaim → State → Reply (Unit {0}) × State
  handle_all [] w = (ok tt, w)
  handle_all (q ∷ qs) w =
      let (r, w') = handle q w in elim r [ raised ↦ (raised, w') | ok _ ↦ handle_all qs w' ]

  abbrev after_consume : Reply (List QueuedClaim) × State → Reply (Unit {0}) × State
  after_consume (raised, w) = (raised, w)
  after_consume (ok qs, w) = handle_all qs w

  unfoldable pub drain : String → ℕ → ℕ → State → Reply (Unit {0}) × State
  drain consumer batch_size block_ms w =
      after_consume (on_queue (consume redis codec now consumer batch_size block_ms) w)

  abbrev after_reclaim : String → ℕ → ℕ → Reply ReclaimReport × State → Reply (Unit {0}) × State
  after_reclaim consumer batch_size block_ms (raised, w) = (raised, w)
  after_reclaim consumer batch_size block_ms (ok r, w) =
      drain consumer batch_size block_ms
        (record w { report = record w.report { reclaimed = some r } })

  abbrev after_ensure : String → ℕ → ℕ → Bool → Reply (Unit {0}) × State → Reply (Unit {0}) × State
  after_ensure consumer batch_size block_ms reclaim (raised, w) = (raised, w)
  after_ensure consumer batch_size block_ms reclaim (ok _, w) =
      if reclaim
      then after_reclaim consumer batch_size block_ms (
          on_queue
            (reclaim_stale redis codec now consumer
              (env.settings.inbound_retry_after_seconds * 1000) batch_size)
            w)
      else drain consumer batch_size block_ms w

  -- A pass begins with an empty report.
  unfoldable pub run_once : String → ℕ → ℕ → Bool → State → Reply (Unit {0}) × State
  run_once consumer batch_size block_ms reclaim w =
      after_ensure consumer batch_size block_ms reclaim
        (on_queue (ensure_group redis codec now) (record w { report = empty_report }))
