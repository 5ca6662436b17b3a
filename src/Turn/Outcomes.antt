-- ===== src/Turn/Outcomes.antt =====
-- What `run_claim` of backend/app/services/turn.py leaves behind, by its outcome.
use realty_lead_ai_agent.Common.{◌≡◌, ◌≢◌, refl, ◌∙◌, ◌⊎◌, inl, inr, arith}
use realty_lead_ai_agent.RateLimit.Store.{Reply, ok, raised}
use realty_lead_ai_agent.RateLimit.{check, inbound_limit}
use realty_lead_ai_agent.InboundQueue.Redis.{Claim}
use realty_lead_ai_agent.Turn.{TurnOutcome, Env, Turn, run, run_claim, with_agent}

completed-cases :
    (r : Reply TurnOutcome) → (r ≡ ok TurnOutcome.completed) ⊎ (r ≢ ok TurnOutcome.completed)
completed-cases raised = ground arith
completed-cases (ok TurnOutcome.completed) = inl refl
completed-cases (ok TurnOutcome.rate_limited) = ground arith
completed-cases (ok TurnOutcome.not_configured) = ground arith
completed-cases (ok TurnOutcome.failed) = ground arith

module _ (env : Env) where
  -- The state once Redis has counted the message against the lead's limit.
  abbrev pub counted : Claim → Turn env → Turn env
  counted claim w = record w {
    redis =
        (check env.redis env.digest (inbound_limit env.settings) (env.id_text claim.lead_id)
          w.redis).1;
  }

  run-completed :
      (claim : Claim) (w : Turn env)
      → (run env claim w).0 ≡ TurnOutcome.completed
      → (env.process_claimed claim (counted claim w)).0 ≡ ok tt
        × ((run env claim w).1 ≡ (env.process_claimed claim (counted claim w)).1)
  unfolding run with_agent
  run-completed claim w h = ground arith

  run_claim-ok :
      (claim : Claim) (w : Turn env)
      → (run_claim env claim w).0 ≡ ok TurnOutcome.completed
      → ((run env claim w).0 ≡ TurnOutcome.completed)
        × ((run_claim env claim w).1 ≡ (run env claim w).1)
  unfolding run_claim
  run_claim-ok claim w h = ground arith

  rolled_back :
      (claim : Claim) (w : Turn env)
      → (run_claim env claim w).0 ≢ ok TurnOutcome.completed
      → (run_claim env claim w).1.db ≡ w.db
  unfolding run_claim
  rolled_back claim w h = ground arith

  -- A turn is all or nothing: either it is completed and leaves the tables and the messages as
  -- `process_claimed` left them without raising, or it leaves the tables as they were, also where the
  -- commit raises.
  pub run_claim_atomic :
      (claim : Claim) (w : Turn env)
      → let (o, w') = run_claim env claim w in
        let (r, x) = env.process_claimed claim (counted claim w) in
        ((o ≡ ok TurnOutcome.completed) × (r ≡ ok tt) × (w' ≡ x))
        ⊎ ((o ≢ ok TurnOutcome.completed) × (w'.db ≡ w.db))
  run_claim_atomic claim w = elim (completed-cases (run_claim env claim w).0) [
    | inl e ↦
        let (done, same) = run_claim-ok claim w e in
        let (r, x) = run-completed claim w done in inl (e, r, same ∙ x)
    | inr n ↦ inr (n, rolled_back claim w n)
  ]
