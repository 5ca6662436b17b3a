-- ===== src/Engine/Quiet.antt =====
-- The hard rules on silence in backend/app/agent/engine.py: an opt-out and a conversation that a human
-- has taken over never reach the model.
use realty_lead_ai_agent.Common.{
  ℕ, String, ◌≡◌, refl, ◌∙◌, true, false, ◌||◌, Bool-cases, List, [], ◌⊎◌, inl, inr, ==_refl,
  if_rule, arith,
}
use text.Mathlib.Text.{◌==◌ as str_eq}
use realty_lead_ai_agent.Models.Enums.{Channel, ConsentStatus, ConversationStatus, LeadStatus}
use realty_lead_ai_agent.Models.Rows.{Message}
use realty_lead_ai_agent.Models.Db.{Db}
use realty_lead_ai_agent.FollowUps.{cancel_pending}
use realty_lead_ai_agent.FollowUps.Queue.{pending, pending-cancel_pending}
use realty_lead_ai_agent.Tools.Context.{ToolContext}
use realty_lead_ai_agent.Optout.{is_opt_out, opt_out_confirmation}
use realty_lead_ai_agent.RateLimit.Store.{ok}
use realty_lead_ai_agent.Engine.Model.{Env, EngineResult}
use realty_lead_ai_agent.Engine.Records.{record_message, send_and_record}
use realty_lead_ai_agent.Engine.{human_owns, respond, handle_opt_out, stay_quiet}

cancelled :
    (db : Db) (lead_id : ℕ) (reason : String)
    → pending lead_id (cancel_pending db lead_id reason).0 ≡ 0
cancelled db lead_id reason =
    (pending-cancel_pending lead_id db lead_id reason).0 ∙ rw (==_refl lead_id) refl

-- The lead is out: they have withdrawn consent, and the conversation is closed.
abbrev pub IsOut : ToolContext → Type 0
IsOut ctx =
    (ctx.lead.consent_status ≡ ConsentStatus.opted_out)
    × (ctx.lead.status ≡ LeadStatus.opted_out)
    × (ctx.conversation.status ≡ ConversationStatus.closed)

-- A human has the conversation, and no message is added to those that were there.
abbrev pub IsHeld : List Message → ToolContext → Type 0
IsHeld messages ctx =
    (ctx.conversation.status ≡ ConversationStatus.human_takeover) × (ctx.db.messages ≡ messages)

-- No nudge is left for the lead.
abbrev NoNudge : ℕ → ToolContext → Type 0
NoNudge lead_id ctx = pending lead_id ctx.db ≡ 0

handle_opt_out-IsOut :
    (env : Env) (ctx : ToolContext) (channel : Channel)
    → let (r, ctx') = handle_opt_out env ctx channel in
      (r.reply ≡ opt_out_confirmation ctx.lead.language) × NoNudge ctx.lead.id ctx' × IsOut ctx'
unfolding handle_opt_out send_and_record record_message
handle_opt_out-IsOut env ctx channel =
    let out =
      if_rule (λ c. NoNudge ctx.lead.id c × IsOut c)
        (str_eq (opt_out_confirmation ctx.lead.language) "")
        (cancelled _ ctx.lead.id "lead opted out", (refl, refl, refl))
        (cancelled _ ctx.lead.id "lead opted out", (refl, refl, refl)) in
    (refl, out.0, out.1)

stay_quiet-IsHeld :
    (env : Env) (ctx : ToolContext)
    → let (r, ctx') = stay_quiet env ctx in
      (r.reply ≡ "") × NoNudge ctx.lead.id ctx' × IsHeld ctx.db.messages ctx'
unfolding stay_quiet cancel_pending
stay_quiet-IsHeld env ctx =
    (refl, cancelled ctx.db ctx.lead.id "human took over the conversation", (refl, refl))

-- A message that asks to opt out, or comes in a conversation that a human has, is answered without a
-- request to the model and leaves no nudge scheduled for the lead. In the first case the reply is the
-- confirmation in the lead's language, the lead has withdrawn consent and the conversation is closed;
-- in the second the reply is empty, no message is recorded and the conversation is the human's.
pub respond_quiet :
    (env : Env) (ctx : ToolContext) (content : String) (channel : Channel)
    → (is_opt_out env.unicode content || human_owns env ctx) ≡ true
    → let (answered, t) = respond env ctx content channel in
      (r : EngineResult) × (answered ≡ ok r)
      × (t.requests ≡ [])
      × NoNudge ctx.lead.id t.ctx
      × (((is_opt_out env.unicode content ≡ true)
            × (r.reply ≡ opt_out_confirmation ctx.lead.language)
            × IsOut t.ctx)
          ⊎ ((is_opt_out env.unicode content ≡ false)
              × (r.reply ≡ "")
              × IsHeld ctx.db.messages t.ctx))
unfolding respond
respond_quiet env ctx content channel h = elim (Bool-cases (is_opt_out env.unicode content)) [
  | inl e ↦
      let out = handle_opt_out-IsOut env ctx channel in
      rw (respond, e)
        ((handle_opt_out env ctx channel).0, refl, refl, out.1, inl (refl, out.0, out.2))
  | inr e ↦
      let held = stay_quiet-IsHeld env ctx in
      let f : human_owns env ctx ≡ true = ground arith in
      rw (respond, e, f) ((stay_quiet env ctx).0, refl, refl, held.1, inr (refl, held.0, held.2))
]
