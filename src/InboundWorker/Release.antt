-- ===== src/InboundWorker/Release.antt =====
-- Which entries `handle` of backend/app/workers/inbound_worker.py lets go of, and what it counts.
use realty_lead_ai_agent.Common.{ℕ, ◌+◌, ◌≡◌, false, arith, String}
use realty_lead_ai_agent.RateLimit.Store.{Reply, ok, raised}
use realty_lead_ai_agent.InboundQueue.Redis.{dead, Fields, Codec, Streams, IsStreams}
use realty_lead_ai_agent.InboundQueue.{
  QueuedClaim, ack, dead_letter, dead_fields, is_last_attempt, max_stream_length,
}
use realty_lead_ai_agent.Turn.{TurnOutcome, Env, run_claim}
use realty_lead_ai_agent.InboundWorker.{State, settle, handle, processed}

-- The turn failed and the entry has attempts left.
abbrev pub IsRetry : QueuedClaim → Reply TurnOutcome → Type 0
IsRetry q o = (o ≡ ok TurnOutcome.failed) × (is_last_attempt q ≡ false)

abbrev pub count_outcome : Reply TurnOutcome → ℕ
count_outcome raised = 0
count_outcome (ok _) = 1

module _ {redis : Streams} (laws : IsStreams redis) (codec : Codec) (now : ℕ) (env : Env) where
  open redis use {xack, xadd}
  open laws use {IsLive}

  dead_letter-releases :
      (s : redis.State) (q : QueuedClaim) (reason : String) (g : Fields)
      → (dead_letter redis codec now q reason s).0 ≡ ok tt
      → ¬ IsLive (dead_letter redis codec now q reason s).1 q.entry_id g
  unfolding dead_letter
  dead_letter-releases s q reason g h l =
      let f = dead_fields redis codec now q reason in
      let s1 = (xadd dead f max_stream_length s).1 in
      ground (arith, h, laws.xack_removes s1 q.entry_id g, l)

  settle-releases :
      (w : State redis codec now env) (q : QueuedClaim) (o : Reply TurnOutcome) (g : Fields)
      → (settle redis codec now env q o w).0 ≡ ok tt
      → IsLive (settle redis codec now env q o w).1.queue q.entry_id g
      → IsRetry q o
  unfolding settle ack
  settle-releases w q raised g h l = cc
  settle-releases w q (ok TurnOutcome.completed) g h l =
      absurd (laws.xack_removes w.queue q.entry_id g h l)
  settle-releases w q (ok TurnOutcome.rate_limited) g h l =
      absurd (laws.xack_removes w.queue q.entry_id g h l)
  settle-releases w q (ok TurnOutcome.not_configured) g h l =
      absurd (dead_letter-releases w.queue q _ g h l)
  settle-releases w q (ok TurnOutcome.failed) g h l =
      ground (arith, h, l, dead_letter-releases w.queue q "failed on the final attempt" g)

  -- An entry that `handle` leaves unacknowledged, without raising, is one to be retried: its turn
  -- failed, and it was not at its last attempt. Every other entry is acknowledged.
  pub handle-releases :
      (w : State redis codec now env) (q : QueuedClaim) (g : Fields)
      → (handle redis codec now env q w).0 ≡ ok tt
      → IsLive (handle redis codec now env q w).1.queue q.entry_id g
      → IsRetry q (run_claim env q.claim w.turn).0
  unfolding handle
  handle-releases w q g h l =
      settle-releases (record w { turn = (run_claim env q.claim w.turn).1 }) q
        (run_claim env q.claim w.turn).0 g h l

module _ (redis : Streams) (codec : Codec) (now : ℕ) (env : Env) where
  -- Each entry that is handled is counted once in the report, also where Redis fails afterwards; it is
  -- not counted if the turn's commit raised.
  pub handle-processed :
      (w : State redis codec now env) (q : QueuedClaim)
      → processed (handle redis codec now env q w).1.report
        ≡ processed w.report + count_outcome (run_claim env q.claim w.turn).0
  unfolding handle settle
  handle-processed w q = ground arith
