-- ===== src/Delivery/Answers.antt =====
-- What a completed turn of backend/app/services/turn.py means, over the process_claimed of
-- backend/app/services/ingestion.py: the reply is out.
use text.Mathlib.Text.{◌==◌ as str_eq}
use realty_lead_ai_agent.Common.{
  ℕ, ◌≡◌, ◌≢◌, refl, ◌∙◌, sym, ap, ◌⊎◌, inl, inr, Bool, true, false, ◌==◌, eq_iff, Bool-cases, none,
  some, Option-cases, List, [], ◌∷◌, ◌++◌,
}
use realty_lead_ai_agent.Models.Enums.{Channel}
use realty_lead_ai_agent.Models.Rows.{Lead, Agent, Message}
use realty_lead_ai_agent.Models.Db.{Db, find, find_lead, find_agent}
use realty_lead_ai_agent.Channels.{Adapter, OutboundMessage, DeliveryResult}
use realty_lead_ai_agent.RateLimit.Store.{Reply, ok, raised, Reply-cases}
use realty_lead_ai_agent.InboundQueue.Redis.{Claim}
use realty_lead_ai_agent.Turn.{TurnOutcome, World, Env, run_claim}
use realty_lead_ai_agent.Turn.Outcomes.{counted, run_claim_atomic}
use realty_lead_ai_agent.Tools.Context.{ToolContext}
use realty_lead_ai_agent.Engine.Model.{EngineResult, Turn}
use realty_lead_ai_agent.Engine.Model.{Env as Engine}
use realty_lead_ai_agent.Engine.{handle_inbound}
use realty_lead_ai_agent.Delivery.{
  within_service_window, reply_message, deliver, answer, answer_loaded, process_claimed,
}

module _ (engine : Engine) (send : Adapter) (now : ℕ) where
  abbrev is_open : ToolContext → Bool
  is_open ctx =
      within_service_window ctx.lead.last_inbound_at now
        engine.settings.whatsapp_service_window_hours

  -- What becomes of a reply: an empty one, and one outside the service window, is not sent, and any
  -- other is the only message that goes out, to the lead, and the channel accepted it.
  abbrev pub IsSent :
      ToolContext → EngineResult → Channel → List OutboundMessage → List OutboundMessage → Type 0
  IsSent ctx result channel before after =
      (((result.reply ≡ "") ⊎ (is_open ctx ≡ false)) × (after ≡ before))
      ⊎ ((result.reply ≢ "")
          × (is_open ctx ≡ true)
          × (d : DeliveryResult) × (after ≡ before ++ reply_message ctx result channel ∷ [])
          × (send before (reply_message ctx result channel) ≡ ok d)
          × (d.accepted ≡ true))

  -- The engine answered the claim's message, for the rows that it names, and this became of the reply.
  abbrev pub IsAnswered : Claim → Db → List OutboundMessage → List OutboundMessage → Type 0
  IsAnswered claim db before after =
      (lead : Lead) × (agent : Agent) × (message : Message) × (result : EngineResult) × (t : Turn)
      × (find_lead db claim.lead_id ≡ some lead)
      × (find_agent db claim.agent_id ≡ some agent)
      × (find (λ m. m.id == claim.message_id) db.messages ≡ some message)
      × (handle_inbound engine db lead agent claim.text claim.channel none now (some message)
          ≡ some (ok result, t))
      × IsSent t.ctx result claim.channel before after

  module _ {S : Type 0} where
    -- A run that did not raise has done so with its reply.
    abbrev Sound :
        ToolContext → EngineResult → Channel → World S → Reply (Unit {0}) × World S → Type 0
    Sound ctx result channel w r = (r.0 ≡ raised) ⊎ IsSent ctx result channel w.outbox r.1.outbox

    deliver-Sound :
        (ctx : ToolContext) (result : EngineResult) (channel : Channel) (w : World S)
        → result.reply ≢ ""
        → Sound ctx result channel w (deliver engine send now ctx result channel w)
    unfolding deliver
    deliver-Sound ctx result channel w n =
        let m = reply_message ctx result channel in
        elim (Bool-cases (is_open ctx)) [
          | inr e ↦ rw (deliver, e) (inr (inl (inr refl, refl)))
          | inl e ↦ elim (Reply-cases (send w.outbox m)) [
            | inl r ↦ rw (deliver, e, r) (inl refl)
            | inr (d, r) ↦ elim (Bool-cases d.accepted) [
              | inl a ↦
                  rw (deliver, e, r, a)
                    (inr
                      (inr (n, refl, d, refl, ap (λ b. ok (record d { accepted = b })) (sym a), a)))
              | inr a ↦ rw (deliver, e, r, a) (inl refl)
            ]
          ]
        ]

    answer-Sound :
        (channel : Channel) (w : World S) (result : EngineResult) (t : Turn)
        → Sound t.ctx result channel w (answer engine send now channel w (ok result, t))
    answer-Sound channel w result t = elim (Bool-cases (str_eq result.reply "")) [
      | inl e ↦ rw (answer, e) (inr (inl (inl ((eq_iff result.reply "").0 e), refl)))
      | inr e ↦
          rw (answer, e)
            (deliver-Sound t.ctx result channel (record w { db = t.ctx.db })
              (λ p. differs e ((eq_iff result.reply "").1 p)))
    ]
      where
        differs : {b : Bool} → b ≡ false → b ≢ true
        differs e f = cc

    process_claimed-answers :
        (claim : Claim) (w : World S)
        → (process_claimed engine send now claim w).0 ≡ ok tt
        → IsAnswered claim w.db w.outbox (process_claimed engine send now claim w).1.outbox
    unfolding process_claimed
    process_claimed-answers claim w fine = elim (Option-cases (find_lead w.db claim.lead_id)) [
      | inl e ↦ absurd (refuse (rw e at fine))
      | inr (lead, e) ↦ elim (Option-cases (find_agent w.db claim.agent_id)) [
        | inl f ↦ absurd (refuse (rw (e, f) at fine))
        | inr (agent, f) ↦
            elim (Option-cases (find (λ m. m.id == claim.message_id) w.db.messages)) [
              | inl g ↦ absurd (refuse (rw (e, f, g) at fine))
              | inr (message, g) ↦
                  elim (Option-cases (
                    handle_inbound engine w.db lead agent claim.text claim.channel none now
                      (some message))) [
                        | inl h ↦ absurd (refuse (rw (e, f, g, answer_loaded, h) at fine))
                        | inr ((raised, t), h) ↦
                            absurd (refuse (rw (e, f, g, answer_loaded, h) at fine))
                        | inr ((ok result, t), h) ↦ elim (answer-Sound claim.channel w result t) [
                          | inl r ↦
                              absurd (refuse (sym r ∙ (rw (e, f, g, answer_loaded, h) at fine)))
                          | inr sent ↦ (
                            lead,
                            agent,
                            message,
                            result,
                            t,
                            e,
                            f,
                            g,
                            h,
                            rw (e, f, g, answer_loaded, h) sent,
                          )
                        ]
                      ]
            ]
      ]
    ]
      where
        refuse : raised ≢ ok (tt {0})
        refuse e = cc

-- The turn over the engine.
abbrev pub over : Engine → Adapter → ℕ → Env → Env
over engine send now env = record env { process_claimed = process_claimed engine send now }

-- A turn over the engine is completed only if the engine answered the claim's message and its reply
-- was the one message that went out, accepted by the channel, or nothing went out, since the reply was
-- empty or the lead's service window closed; whatever else it comes to, the tables are as they were.
pub run_claim-IsAnswered :
    (engine : Engine) (send : Adapter) (now : ℕ) (env : Env) (claim : Claim)
    (w : World env.redis.State)
    → let (o, w') = run_claim (over engine send now env) claim w in
      ((o ≡ ok TurnOutcome.completed) × IsAnswered engine send now claim w.db w.outbox w'.outbox)
      ⊎ ((o ≢ ok TurnOutcome.completed) × (w'.db ≡ w.db))
run_claim-IsAnswered engine send now env claim w =
    let turn = over engine send now env in
    elim (run_claim_atomic turn claim w) [
      | inr failed ↦ inr failed
      | inl (done, fine, same) ↦ inl (
        done,
        rw same (process_claimed-answers engine send now claim (counted turn claim w) fine),
      )
    ]
