-- ===== src/InboundWorker/Turns.antt =====
-- The turns that a pass of backend/app/workers/inbound_worker.py runs, in their order: the claim of each
-- and what `run_claim` returned for it, on the tables as the turns before it left them.
use realty_lead_ai_agent.Common.{ℕ, ◌*◌, String, Bool, ◌≡◌, ◌⊎◌, List, [], ◌∷◌, if◌then◌else◌, some}
use realty_lead_ai_agent.RateLimit.Store.{Reply, ok, raised}
use realty_lead_ai_agent.InboundQueue.Redis.{Claim, Codec, Streams}
use realty_lead_ai_agent.InboundQueue.{
  QueuedClaim, ReclaimReport, ensure_group, consume, reclaim_stale,
}
use realty_lead_ai_agent.Turn.{TurnOutcome, Env, run_claim}
use realty_lead_ai_agent.InboundWorker.{State, empty_report, on_queue, handle}

abbrev pub Turns : Type 0
Turns = List (Claim × Reply TurnOutcome)

-- The turn was completed, or refused by the limit of its lead.
abbrev pub IsDone : Reply TurnOutcome → Type 0
IsDone o = (o ≡ ok TurnOutcome.completed) ⊎ (o ≡ ok TurnOutcome.rate_limited)

-- One of the turns was for the claim, and is done.
abbrev pub IsAnswered : Claim → Turns → Type 0
IsAnswered c [] = ⊥
IsAnswered c ((d, o) ∷ rest) = ((d ≡ c) × IsDone o) ⊎ IsAnswered c rest

module _ (redis : Streams) (codec : Codec) (now : ℕ) (env : Env) where
  -- A turn whose settling raises is the last one.
  unfoldable pub turns_all : List QueuedClaim → State redis codec now env → Turns
  turns_all [] w = []
  turns_all (q ∷ qs) w =
      let (r, w') = handle redis codec now env q w in
      (q.claim, (run_claim env q.claim w.turn).0) ∷ elim r [ raised ↦ [] | ok _ ↦ turns_all qs w' ]

  abbrev turns_consumed : Reply (List QueuedClaim) × State redis codec now env → Turns
  turns_consumed (raised, w) = []
  turns_consumed (ok qs, w) = turns_all qs w

  unfoldable pub turns_drained : String → ℕ → ℕ → State redis codec now env → Turns
  turns_drained consumer batch_size block_ms w =
      turns_consumed
        (on_queue redis codec now env (consume redis codec now consumer batch_size block_ms) w)

  abbrev pub turns_reclaimed :
      String → ℕ → ℕ → Reply ReclaimReport × State redis codec now env → Turns
  turns_reclaimed consumer batch_size block_ms (raised, w) = []
  turns_reclaimed consumer batch_size block_ms (ok r, w) =
      turns_drained consumer batch_size block_ms
        (record w { report = record w.report { reclaimed = some r } })

  abbrev pub turns_ensured :
      String → ℕ → ℕ → Bool → Reply (Unit {0}) × State redis codec now env → Turns
  turns_ensured consumer batch_size block_ms reclaim (raised, w) = []
  turns_ensured consumer batch_size block_ms reclaim (ok _, w) =
      if reclaim
      then turns_reclaimed consumer batch_size block_ms (
          on_queue redis codec now env
            (reclaim_stale redis codec now consumer
              (env.settings.inbound_retry_after_seconds * 1000) batch_size)
            w)
      else turns_drained consumer batch_size block_ms w

  -- The turns of `run_once`.
  unfoldable pub turns_of_pass : String → ℕ → ℕ → Bool → State redis codec now env → Turns
  turns_of_pass consumer batch_size block_ms reclaim w =
      turns_ensured consumer batch_size block_ms reclaim (
        on_queue redis codec now env (ensure_group redis codec now)
          (record w { report = empty_report }))
