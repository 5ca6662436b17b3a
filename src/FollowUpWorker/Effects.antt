-- ===== src/FollowUpWorker/Effects.antt =====
-- What `process_task` of backend/app/workers/followup_worker.py sends, and when.
use realty_lead_ai_agent.Common.{ℕ, ◌≡◌, refl, ◌⊎◌, inl, inr, some, [], ◌∷◌, ◌++◌}
use realty_lead_ai_agent.Models.Rows.{Lead, Agent, FollowUpTask}
use realty_lead_ai_agent.Channels.{Adapter}
use realty_lead_ai_agent.Templates.Table.{MessageTemplate}
use realty_lead_ai_agent.RateLimit.Store.{Reply}
use realty_lead_ai_agent.FollowUps.Eligible.{IsAppropriate, ok-IsAppropriate}
use realty_lead_ai_agent.FollowUpWorker.{
  Env, Pass, refuse, defer, no_template, rejected, accepted, no_channel, process_loaded,
  process_one, nudge_message,
}
use realty_lead_ai_agent.FollowUpWorker.Cases.{
  MaySend, IsLoaded, process_loaded_cases, send_nudge_cases, process_one_cases,
}

module _ (env : Env) where
  -- The one message that a round may send, and what held when it did.
  pub record Sent (w w' : Pass env) (id : ℕ) : Type 0 where
    pub task : FollowUpTask
    pub lead : Lead
    pub agent : Agent
    pub template : MessageTemplate
    pub loaded : IsLoaded env w id task lead agent
    pub appropriate : IsAppropriate w.db lead (some task) env.settings
    pub may_send : MaySend env w task lead agent template
    pub posted : w'.outbox ≡ w.outbox ++ nudge_message task lead agent template ∷ []

  abbrev SendsAtMost : Pass env → ℕ → Reply (Unit {0}) × Pass env → Type 0
  SendsAtMost w id (o, w') = (w'.outbox ≡ w.outbox) ⊎ Sent w w' id

  process_loaded-SendsAtMost :
      (w : Pass env) (id : ℕ) (task : FollowUpTask) (lead : Lead) (agent : Agent) (send : Adapter)
      → IsLoaded env w id task lead agent
      → SendsAtMost w id (process_loaded env w task send lead agent)
  unfolding refuse defer no_template accepted rejected
  process_loaded-SendsAtMost w id task lead agent send l =
      process_loaded_cases env w task lead agent (SendsAtMost w id) send (λ r e. inl refl)
        (λ q. inl refl) (λ a. inl refl) (λ n. inl refl)
        (λ t m.
          let appropriate = ok-IsAppropriate w.db lead (some task) env.settings m.appropriate in
          send_nudge_cases env w task lead agent (SendsAtMost w id) send t
            (inr (record {
              task = task;
              lead = lead;
              agent = agent;
              template = t;
              loaded = l;
              appropriate = appropriate;
              may_send = m;
              posted = refl;
            }))
            (λ d e a. inr (record {
              task = task;
              lead = lead;
              agent = agent;
              template = t;
              loaded = l;
              appropriate = appropriate;
              may_send = m;
              posted = refl;
            }))
            (λ d a. inr (record {
              task = task;
              lead = lead;
              agent = agent;
              template = t;
              loaded = l;
              appropriate = appropriate;
              may_send = m;
              posted = refl;
            })))

  -- A round sends nothing, or one message: the template for the task's attempt, to the task's lead,
  -- who has not opted out, is open, is below the cap, has not written since the baseline, is not with
  -- a human and is outside their quiet hours, and within the agent's budget of nudges.
  pub process_one_sends :
      (w : Pass env) (id : ℕ)
      → let w' = (process_one env w id).1 in (w'.outbox ≡ w.outbox) ⊎ Sent w w' id
  unfolding no_channel
  process_one_sends w id =
      process_one_cases env w id (SendsAtMost w id) (inl refl) (λ task lead agent l. inl refl)
        (λ task lead agent send l. process_loaded-SendsAtMost w id task lead agent send l)
