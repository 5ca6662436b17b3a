-- ===== src/Whatsapp/Retries.antt =====
-- Which attempt decides a Graph call of backend/app/channels/whatsapp.py.
use realty_lead_ai_agent.Common.{
  ℕ, zero, suc, ◌+◌, ◌≤◌, ◌<◌, ◌≡◌, ap, ◌∙◌, sym, subst, none, some, arith,
}
use realty_lead_ai_agent.Whatsapp.{HttpReply, Outcome, unreachable, settled, attempt_from, request}

module _ (client : ℕ → HttpReply) where
  attempt_from-settled :
      (k left attempt last : ℕ) (outcome : Outcome)
      → k < left
      → last ≡ attempt + k
      → ((j : ℕ) → attempt ≤ j → j < last → settled (client j) ≡ none)
      → settled (client last) ≡ some outcome
      → attempt_from client left attempt ≡ (outcome, suc last)
  unfolding attempt_from
  attempt_from-settled k zero attempt last outcome l e before here = absurd (omega arith)
  attempt_from-settled zero (suc left) attempt last outcome l e before here =
      let same : last ≡ attempt = omega arith in
      let here_first : settled (client attempt) ≡ some outcome =
        subst (λ n. settled (client n) ≡ some outcome) same here in
      rw (attempt_from, here_first) (ap (λ n. (outcome, suc n)) (sym same))
  attempt_from-settled (suc k) (suc left) attempt last outcome l e before here =
      rw (attempt_from, before attempt (omega arith) (omega arith))
        (attempt_from-settled k left (suc attempt) last outcome (omega arith) (omega arith)
          (λ j p q. before j (omega arith) q) here)

  attempt_from-unreachable :
      (left attempt : ℕ)
      → ((j : ℕ) → attempt ≤ j → j < attempt + left → settled (client j) ≡ none)
      → attempt_from client left attempt ≡ (unreachable, attempt + left)
  unfolding attempt_from
  attempt_from-unreachable zero attempt before = ap (λ n. (unreachable, n)) (omega arith)
  attempt_from-unreachable (suc left) attempt before =
      rw (attempt_from, before attempt (omega arith) (omega arith))
        (attempt_from-unreachable left (suc attempt) (λ j p q. before j (omega arith) (omega arith))
          ∙ ap (λ n. (unreachable, n)) (omega arith))

  -- The first attempt that is no transient failure decides the call, and no attempt is made after it.
  pub request-settled :
      (max_retries last : ℕ) (outcome : Outcome)
      → last ≤ max_retries
      → ((j : ℕ) → j < last → settled (client j) ≡ none)
      → settled (client last) ≡ some outcome
      → request client max_retries ≡ (outcome, suc last)
  unfolding request
  request-settled max_retries last outcome l before here =
      attempt_from-settled last (suc max_retries) 0 last outcome (omega arith) (omega arith)
        (λ j p q. before j q) here

  -- Where every attempt fails transiently, the call is given up after one attempt more than the
  -- retries.
  pub request-unreachable :
      (max_retries : ℕ)
      → ((j : ℕ) → j < suc max_retries → settled (client j) ≡ none)
      → request client max_retries ≡ (unreachable, suc max_retries)
  unfolding request
  request-unreachable max_retries before =
      attempt_from-unreachable (suc max_retries) 0 (λ j p q. before j (omega arith))
      ∙ ap (λ n. (unreachable, n)) (omega arith)
