-- ===== src/Engine/Loop.antt =====
-- The tool loop of backend/app/agent/engine.py, and its escalations.
use realty_lead_ai_agent.Common.{
  ℕ, zero, suc, ◌*◌, String, Bool, true, false, not, ◌&&◌, Option, List, [], ◌∷◌, ◌++◌, ltb, ◌==◌,
  if◌then◌else◌, get_or,
}
use text.Mathlib.Text.{◌==◌ as str_eq}
use realty_lead_ai_agent.Models.Rows.{Lead, Agent}
use realty_lead_ai_agent.Templates.Text.{concat, strip}
use realty_lead_ai_agent.Tools.Context.{ToolContext}
use realty_lead_ai_agent.Tools.{ToolCall, dispatch}
use realty_lead_ai_agent.Engine.Model.{
  ToolUse, responded, llm_error, crashed, user, assistant, ToolResult, response, results, Chat, Env,
  fallback_reply, Turn, Ending, replied, failed, broke,
}
use realty_lead_ai_agent.Engine.Records.{is_handed_off}
use realty_lead_ai_agent.Engine.History.{history_as_messages}

module _ (env : Env) where
  open env use {services, parsers, unicode, settings}

  -- `_escalate_for_failure`
  unfoldable pub escalate_for_failure : ToolContext → String → ToolContext
  escalate_for_failure ctx reason =
      if ctx.escalated
      then ctx
      else (dispatch services parsers ctx (ToolCall.escalate reason "high")).1

  -- `agent.escalation_budget_threshold or settings.escalation_budget_threshold`, in paise
  abbrev pub threshold : Agent → ℕ
  threshold agent =
      let own = get_or agent.escalation_budget_threshold 0 in
      (if own == 0 then settings.escalation_budget_threshold else own) * 100

  -- `lead.budget_max or lead.budget_min`
  abbrev pub budget_of : Lead → Option ℕ
  budget_of lead = if get_or lead.budget_max 0 == 0 then lead.budget_min else lead.budget_max

  abbrev pub is_over_budget : ToolContext → Bool
  is_over_budget ctx = ltb (threshold ctx.agent) (get_or (budget_of ctx.lead) 0)

  -- `_apply_budget_escalation`
  unfoldable pub apply_budget_escalation : ToolContext → ToolContext
  apply_budget_escalation ctx =
      if is_over_budget ctx && not (is_handed_off ctx.lead.status)
      then (dispatch services parsers ctx (
          ToolCall.escalate
            (concat "Budget " (
              concat (env.rupees (get_or (budget_of ctx.lead) 0))
                (concat " is above the " (concat (env.rupees (threshold ctx.agent)) " threshold"))))
            "high")).1
      else ctx

  -- `_run_tool` for each call of a response, in order
  unfoldable pub run_tools : List ToolUse → Turn → List ToolResult × Turn
  run_tools [] t = ([], t)
  run_tools (u ∷ us) t =
      let (reply, ctx) = dispatch services parsers t.ctx u.call in
      let (rest, t') =
        run_tools us (record t { ctx = ctx; tool_calls = t.tool_calls ++ u.call ∷ [] }) in
      (record { tool_use_id = u.id; reply = reply } ∷ rest, t')

  abbrev pub fall_back : Turn → String → Ending × Turn
  fall_back t reason = (
    replied (fallback_reply t.ctx.lead.language t.ctx.agent.name),
    record t { ctx = escalate_for_failure t.ctx reason },
  )

  -- After the loop.
  unfoldable pub conclude : String → Turn → Ending × Turn
  conclude said t =
      let reply = strip said in
      if str_eq reply "" then fall_back t "model returned no reply text" else (replied reply, t)

  abbrev pub no_tools : List ToolUse → Bool
  no_tools [] = true
  no_tools (u ∷ us) = false

  -- The loop, with the rounds that are left and the text of the last response. The prompt is rendered
  -- from the context that the turn starts with.
  unfoldable pub iterate : ToolContext → ℕ → List Chat → String → Turn → Ending × Turn
  iterate start zero messages said t = conclude said t
  iterate start (suc rounds) messages said t =
      let asked = record t { requests = t.requests ++ messages ∷ [] } in
      elim (env.complete start messages) [
        | crashed ↦ (broke, asked)
        | llm_error e ↦ (failed e, asked)
        | responded r ↦ elim r.refused [
          | true ↦ fall_back asked "model declined to answer"
          | false ↦ elim (no_tools r.tool_uses) [
            | true ↦ conclude r.text asked
            | false ↦
                let (done, after) = run_tools r.tool_uses asked in
                iterate start rounds
                  (messages
                    ++ record { role = assistant; content = response r }
                      ∷ record { role = user; content = results done }
                      ∷ [])
                  r.text after
          ]
        ]
      ]

  -- `_run_turn`
  unfoldable pub run_turn : ToolContext → Ending × Turn
  run_turn ctx =
      iterate ctx settings.max_tool_iterations (history_as_messages ctx.db ctx.conversation) ""
        (record { ctx = ctx; tool_calls = []; requests = [] })
