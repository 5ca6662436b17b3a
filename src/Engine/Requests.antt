-- ===== src/Engine/Requests.antt =====
-- How often backend/app/agent/engine.py asks the model in one turn.
use realty_lead_ai_agent.Common.{
  ℕ, min, ◌+◌, ◌≤◌, ◌<◌, String, ◌≡◌, refl, false, List, [], ◌∷◌, length, length-append, arith,
  if_rule,
}
use text.Mathlib.Text.{◌==◌ as str_eq}
use realty_lead_ai_agent.Models.Enums.{Channel}
use realty_lead_ai_agent.Tools.Context.{ToolContext}
use realty_lead_ai_agent.Optout.{is_opt_out}
use realty_lead_ai_agent.Templates.Text.{strip}
use realty_lead_ai_agent.Engine.Model.{Env, ToolUse, Turn, Ending, replied, failed, broke}
use realty_lead_ai_agent.Engine.Loop.{
  run_tools, conclude, fall_back, run_turn, apply_budget_escalation,
}
use realty_lead_ai_agent.Engine.History.{history_as_messages, inbound_count}
use realty_lead_ai_agent.Engine.Rounds.{Rounds, iterate_rule}
use realty_lead_ai_agent.Engine.{human_owns, respond, after_turn}

abbrev pub asked : Turn → ℕ
asked t = length t.requests

module _ (env : Env) where
  run_tools-asked : (us : List ToolUse) (t : Turn) → asked (run_tools env us t).1 ≡ asked t
  unfolding run_tools
  run_tools-asked [] t = refl
  run_tools-asked (u ∷ us) t = run_tools-asked us _

  conclude-asked : (said : String) (t : Turn) → asked (conclude env said t).1 ≡ asked t
  unfolding conclude
  conclude-asked said t =
      if_rule (λ (r : Ending × Turn). asked r.1 ≡ asked t) (str_eq (strip said) "") refl refl

  fall_back-asked : (t : Turn) (reason : String) → asked (fall_back env t reason).1 ≡ asked t
  fall_back-asked t reason = refl

  module _ (before rounds : ℕ) where
    -- The requests so far, where so many rounds are left.
    abbrev Before : ℕ → Turn → Type 0
    Before n t = (asked t + n ≡ before + rounds) × (n ≤ rounds)

    abbrev Within : ℕ → Turn → Type 0
    Within n t = (asked t + n ≡ before + rounds) × (n < rounds)

    -- Of the end: a request at least where there is a round, and no more than the rounds.
    abbrev Asks : Ending × Turn → Type 0
    Asks r = (before + min rounds 1 ≤ asked r.1) × (asked r.1 ≤ before + rounds)

    Asks-Rounds : Rounds env Asks Before Within
    Asks-Rounds = record {
      asks = λ n messages t h.
          let more = length-append t.requests (messages ∷ []) in omega (arith, more, h);
      breaks = λ n t h. omega (arith, h);
      fails = λ n e t h. omega (arith, h);
      refuses = λ n reason t h. omega (arith, h, fall_back-asked t reason);
      ends = λ n said t h. omega (arith, h, conclude-asked said t);
      runs = λ n us t h. omega (arith, h, run_tools-asked us t);
      exhausts = λ said t h. omega (arith, h, conclude-asked said t);
    }

  after_turn-asked :
      (channel : Channel) (r : Ending × Turn) → asked (after_turn env channel r).1 ≡ asked r.1
  unfolding after_turn
  after_turn-asked channel (broke, t) = refl
  after_turn-asked channel (failed e, t) = refl
  after_turn-asked channel (replied reply, t) = refl

  run_turn-Asks :
      (ctx : ToolContext)
      → (min env.settings.max_tool_iterations 1 ≤ asked (run_turn env ctx).1)
        × (asked (run_turn env ctx).1 ≤ env.settings.max_tool_iterations)
  unfolding run_turn
  run_turn-Asks ctx =
      let rounds = env.settings.max_tool_iterations in
      let asks =
        iterate_rule env (Asks-Rounds 0 rounds) ctx rounds
          (history_as_messages ctx.db ctx.conversation) ""
          (record { ctx = ctx; tool_calls = []; requests = [] }) (omega arith, omega arith) in
      omega (arith, asks)

  -- Whatever the model and the tools answer, a turn that is neither an opt-out nor a human's comes to an
  -- end after at least one request to the model and at most max_tool_iterations of them, which is 1 or
  -- more.
  pub respond-asked :
      (ctx : ToolContext) (content : String) (channel : Channel)
      → 1 ≤ env.settings.max_tool_iterations
      → is_opt_out env.unicode content ≡ false
      → human_owns env ctx ≡ false
      → (1 ≤ asked (respond env ctx content channel).1)
        × (asked (respond env ctx content channel).1 ≤ env.settings.max_tool_iterations)
  unfolding respond
  respond-asked ctx content channel h e f =
      let start =
        apply_budget_escalation env
          (record ctx { inbound_message_count = inbound_count ctx.db ctx.conversation }) in
      rw (respond, e, f)
        (omega (arith, h, run_turn-Asks start, after_turn-asked channel (run_turn env start)))
