-- ===== src/Engine/Examples.antt =====
-- Tests of the engine, with a model that scores the lead and then greets them.
use realty_lead_ai_agent.Common.{◌≤◌, ◌≡◌, ◌⊎◌, refl, true, false, some, [], arith}
use realty_lead_ai_agent.Models.Enums.{Channel}
use realty_lead_ai_agent.Fixtures.{engine, ascii, asha_writes, asha}
use realty_lead_ai_agent.FollowUps.Queue.{pending}
use realty_lead_ai_agent.Templates.Text.{is_space, strip, contains, concat, is_blank}
use realty_lead_ai_agent.Tools.Context.{ToolContext}
use realty_lead_ai_agent.Optout.{
  opt_out_confirmation, is_opt_out, normalise, squeeze, words, has_phrase, is_in,
}
use realty_lead_ai_agent.RateLimit.Store.{ok}
use realty_lead_ai_agent.Engine.Model.{EngineResult}
use realty_lead_ai_agent.Engine.{respond}
use realty_lead_ai_agent.Engine.Requests.{asked, respond-asked}
use realty_lead_ai_agent.Engine.Quiet.{IsOut, IsHeld, respond_quiet}

hello_stays : is_opt_out ascii "hello" ≡ false
unfolding is_opt_out normalise squeeze words has_phrase is_in is_space strip contains concat
    is_blank
hello_stays = refl

stop_leaves : is_opt_out ascii "please stop" ≡ true
unfolding is_opt_out normalise squeeze words has_phrase is_in is_space strip contains concat
    is_blank
stop_leaves = refl

-- With a budget of three crore rupees.
abbrev rich : ToolContext
rich = record asha_writes { lead = record asha { budget_max = some 3_000_000_000 } }

respond-asked_example :
    (1 ≤ asked (respond engine asha_writes "hello" Channel.whatsapp).1)
    × (asked (respond engine asha_writes "hello" Channel.whatsapp).1 ≤ 6)
respond-asked_example =
    respond-asked engine asha_writes "hello" Channel.whatsapp (omega arith) hello_stays refl

respond_quiet_example :
    let (answered, t) = respond engine asha_writes "please stop" Channel.whatsapp in
    (r : EngineResult) × (answered ≡ ok r)
    × (t.requests ≡ [])
    × (pending 7 t.ctx.db ≡ 0)
    × (((is_opt_out ascii "please stop" ≡ true)
          × (r.reply ≡ opt_out_confirmation asha_writes.lead.language)
          × IsOut t.ctx)
        ⊎ ((is_opt_out ascii "please stop" ≡ false) × (r.reply ≡ "") × IsHeld [] t.ctx))
respond_quiet_example =
    respond_quiet engine asha_writes "please stop" Channel.whatsapp (rw stop_leaves refl)
