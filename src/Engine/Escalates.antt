-- ===== src/Engine/Escalates.antt =====
-- The hard rule on budgets in backend/app/agent/engine.py: once a conversation is handed over, nothing
-- that the model asks for takes it back.
use realty_lead_ai_agent.Common.{◌≡◌, true}
use text.Mathlib.Text.{◌==◌ as str_eq}
use realty_lead_ai_agent.Models.Rows.{is_human_takeover}
use realty_lead_ai_agent.RateLimit.Store.{Reply, ok, raised}
use realty_lead_ai_agent.Tools.Context.{ToolContext}
use realty_lead_ai_agent.Engine.Model.{Env, EngineResult, Turn, Ending}
use realty_lead_ai_agent.Engine.Rounds.{Rounds}

-- The agent is told, and the conversation is a human's.
abbrev pub IsHandedOver : ToolContext → Type 0
IsHandedOver ctx = (ctx.escalated ≡ true) × (is_human_takeover ctx.conversation.status ≡ true)

module _ (env : Env) where
  abbrev Ended : Ending × Turn → Type 0
  Ended r = IsHandedOver r.1.ctx

  -- The caller is told of the escalation, unless the turn broke off.
  abbrev pub Tells : Reply EngineResult → Type 0
  Tells raised = Unit
  Tells (ok r) = r.escalated ≡ true
