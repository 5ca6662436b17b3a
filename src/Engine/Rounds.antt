-- ===== src/Engine/Rounds.antt =====
-- The rule for the tool loop of backend/app/agent/engine.py: what holds before each round, and of each
-- way to leave the loop, holds of its end.
use realty_lead_ai_agent.Common.{
  ℕ, zero, suc, String, ◌≡◌, refl, ◌⊎◌, inl, inr, Bool-cases, List, [], ◌∷◌, ◌++◌,
}
use realty_lead_ai_agent.Tools.Context.{ToolContext}
use realty_lead_ai_agent.Engine.Model.{
  Chat, Env, ToolUse, LlmResponse, LlmReply, responded, llm_error, crashed, user, assistant,
  response, results, Turn, Ending, failed, broke,
}
use realty_lead_ai_agent.Engine.Loop.{run_tools, conclude, fall_back, no_tools, iterate}

LlmReply-cases :
    (r : LlmReply)
    → (r ≡ crashed) ⊎ ((e : String) × (r ≡ llm_error e)) ⊎ ((a : LlmResponse) × (r ≡ responded a))
LlmReply-cases crashed = inl refl
LlmReply-cases (llm_error e) = inr (inl (e, refl))
LlmReply-cases (responded a) = inr (inr (a, refl))

-- A request is logged.
abbrev pub ask : List Chat → Turn → Turn
ask messages t = record t { requests = t.requests ++ messages ∷ [] }

-- `Before` and `Within` are what holds with so many rounds left, before a request and after it.
pub record Rounds (env : Env) (P : Ending × Turn → Type 0) (Before Within : ℕ → Turn → Type 0)
    : Type 0 where
  pub asks :
      (n : ℕ) (messages : List Chat) (t : Turn) → Before (suc n) t → Within n (ask messages t)
  pub breaks : (n : ℕ) (t : Turn) → Within n t → P (broke, t)
  pub fails : (n : ℕ) (e : String) (t : Turn) → Within n t → P (failed e, t)
  pub refuses : (n : ℕ) (reason : String) (t : Turn) → Within n t → P (fall_back env t reason)
  pub ends : (n : ℕ) (said : String) (t : Turn) → Within n t → P (conclude env said t)
  pub runs : (n : ℕ) (us : List ToolUse) (t : Turn) → Within n t → Before n (run_tools env us t).1
  pub exhausts : (said : String) (t : Turn) → Before zero t → P (conclude env said t)

module _ (env : Env) {P : Ending × Turn → Type 0} {Before Within : ℕ → Turn → Type 0}
    (rule : Rounds env P Before Within) where
  pub iterate_rule :
      (start : ToolContext) (rounds : ℕ) (messages : List Chat) (said : String) (t : Turn)
      → Before rounds t
      → P (iterate env start rounds messages said t)
  unfolding iterate
  iterate_rule start zero messages said t h = rule.exhausts said t h
  iterate_rule start (suc n) messages said t h =
      let within = rule.asks n messages t h in
      elim (LlmReply-cases (env.complete start messages)) [
        | inl e ↦ rw (iterate, e) (rule.breaks n (ask messages t) within)
        | inr (inl (m, e)) ↦ rw (iterate, e) (rule.fails n m (ask messages t) within)
        | inr (inr (r, e)) ↦ elim (Bool-cases r.refused) [
          | inl f ↦
              rw (iterate, e, f) (rule.refuses n "model declined to answer" (ask messages t) within)
          | inr f ↦ elim (Bool-cases (no_tools env r.tool_uses)) [
            | inl g ↦ rw (iterate, e, f, g) (rule.ends n r.text (ask messages t) within)
            | inr g ↦
                rw (iterate, e, f, g)
                  (iterate_rule start n
                    (messages
                      ++ record { role = assistant; content = response r }
                        ∷ record {
                          role = user;
                          content = results (run_tools env r.tool_uses (ask messages t)).0;
                        }
                        ∷ [])
                    r.text (run_tools env r.tool_uses (ask messages t)).1
                    (rule.runs n r.tool_uses (ask messages t) within))
          ]
        ]
      ]
