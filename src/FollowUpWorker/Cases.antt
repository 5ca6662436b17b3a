-- ===== src/FollowUpWorker/Cases.antt =====
-- The ways through a round of the worker, as one rule for each of its two halves: what holds of every
-- outcome holds of the round.
use realty_lead_ai_agent.Common.{
  ℕ, ◌+◌, ◌++◌, ◌∷◌, [], ◌≡◌, refl, none, some, Bool, true, false, inl, inr, Bool-cases,
  Option-cases, ◌⊎◌, List,
}
use realty_lead_ai_agent.Models.Rows.{Lead, Agent, FollowUpTask}
use realty_lead_ai_agent.Models.Db.{Db, find_lead, find_agent}
use realty_lead_ai_agent.Channels.{Adapter, DeliveryResult}
use realty_lead_ai_agent.Templates.{follow_up_template}
use realty_lead_ai_agent.Templates.Table.{MessageTemplate}
use realty_lead_ai_agent.Zones.{resolve_timezone}
use realty_lead_ai_agent.QuietHours.{is_quiet_hour, next_send_time}
use realty_lead_ai_agent.RateLimit.Store.{Reply, ok, raised}
use realty_lead_ai_agent.FollowUps.{SkipReason, check_eligibility}
use realty_lead_ai_agent.FollowUpWorker.{
  Env, Pass, refuse, defer, no_template, rejected, accepted, nudge_message, after_send, send_nudge,
  with_template, with_allowance, process_loaded, no_channel, with_adapter, process_one, find_task,
  task_adapter, spend, seconds, process_all, process_batch, run_once, settle, empty_report,
}

module _ (env : Env) (w : Pass env) (task : FollowUpTask) (lead : Lead) (agent : Agent) where
  -- The lead is in their quiet hours.
  abbrev pub is_quiet_now : Bool
  is_quiet_now =
      is_quiet_hour env.now (resolve_timezone env.zones lead.timezone)
        env.settings.quiet_hours_start env.settings.quiet_hours_end

  abbrev pub wake_up : ℕ
  wake_up =
      next_send_time env.now (resolve_timezone env.zones lead.timezone)
        env.settings.quiet_hours_start env.settings.quiet_hours_end

  -- All that must hold before a nudge goes out.
  pub record MaySend (t : MessageTemplate) : Type 0 where
    pub appropriate : (check_eligibility w.db lead (some task) env.settings).ok ≡ true
    pub awake : is_quiet_now ≡ false
    pub in_budget : (spend env w agent).0.allowed ≡ true
    pub has_template : follow_up_template task.attempt_number lead.language ≡ some t

  -- The state once Redis has counted the attempt, and once the message is out.
  abbrev pub counted : Pass env
  counted = record w { redis = (spend env w agent).1 }

  abbrev pub posted : MessageTemplate → Pass env
  posted t = record counted { outbox = w.outbox ++ nudge_message task lead agent t ∷ [] }

  module _ {ℓ} (P : Reply (Unit {0}) × Pass env → Type ℓ) where
    pub process_loaded_cases :
        (send : Adapter)
        → ((r : SkipReason)
            → (check_eligibility w.db lead (some task) env.settings).ok ≡ false
            → P (ok tt, refuse env w task lead r))
        → (is_quiet_now ≡ true → P (ok tt, defer env w task wake_up))
        → ((spend env w agent).0.allowed ≡ false
            → P (
              ok tt,
              defer env counted task (env.now + seconds (spend env w agent).0.retry_after_seconds),
            ))
        → (follow_up_template task.attempt_number lead.language ≡ none
            → P (ok tt, no_template env counted task))
        → ((t : MessageTemplate) → MaySend t → P (send_nudge env counted task send lead agent t))
        → P (process_loaded env w task send lead agent)
    unfolding process_loaded with_allowance with_template
    process_loaded_cases send refused asleep over missing sends =
        elim (Bool-cases (check_eligibility w.db lead (some task) env.settings).ok) [
          | inr e ↦ rw e (refused _ e)
          | inl e ↦ elim (Bool-cases is_quiet_now) [
            | inl q ↦ rw (e, q) (asleep q)
            | inr q ↦ elim (Bool-cases (spend env w agent).0.allowed) [
              | inr a ↦ rw (e, q, a) (over a)
              | inl a ↦ elim (Option-cases (follow_up_template task.attempt_number lead.language)) [
                | inl n ↦ rw (e, q, a, n) (missing n)
                | inr (t, s) ↦
                    rw (e, q, a, s)
                      (sends t
                        (record { appropriate = e; awake = q; in_budget = a; has_template = s }))
              ]
            ]
          ]
        ]

    pub send_nudge_cases :
        (send : Adapter) (t : MessageTemplate)
        → P (raised, posted t)
        → ((d : DeliveryResult)
            → send w.outbox (nudge_message task lead agent t) ≡ ok d
            → d.accepted ≡ true
            → P (ok tt, accepted env (posted t) task lead agent t d))
        → ((d : DeliveryResult)
            → d.accepted ≡ false
            → P (ok tt, rejected env (posted t) task d.error))
        → P (send_nudge env counted task send lead agent t)
    unfolding send_nudge after_send
    send_nudge_cases send t failed taken refused =
        go (send w.outbox (nudge_message task lead agent t)) refl
      where
        go :
            (r : Reply DeliveryResult)
            → send w.outbox (nudge_message task lead agent t) ≡ r
            → P (after_send env (posted t) task lead agent t r)
        go raised e = failed
        go (ok d) e = elim (Bool-cases d.accepted) [
          | inl a ↦ simp a (taken d e a)
          | inr a ↦ simp a (refused d a)
        ]

-- The row of a task, with its lead and agent, as a round finds them.
pub record IsLoaded (env : Env) (w : Pass env) (id : ℕ) (task : FollowUpTask) (lead : Lead)
    (agent : Agent) : Type 0 where
  pub the_task : find_task env w.db id ≡ some task
  pub the_lead : find_lead w.db task.lead_id ≡ some lead
  pub the_agent : find_agent w.db lead.agent_id ≡ some agent

pub process_one_cases {ℓ} :
    (env : Env) (w : Pass env) (id : ℕ) (P : Reply (Unit {0}) × Pass env → Type ℓ)
    → P (raised, w)
    → ((task : FollowUpTask) (lead : Lead) (agent : Agent)
        → IsLoaded env w id task lead agent
        → P (ok tt, no_channel env w task))
    → ((task : FollowUpTask) (lead : Lead) (agent : Agent) (send : Adapter)
        → IsLoaded env w id task lead agent
        → P (process_loaded env w task send lead agent))
    → P (process_one env w id)
unfolding process_one with_adapter
process_one_cases env w id P missing unreachable found =
    elim (Option-cases (find_task env w.db id)) [
      | inl e ↦ rw (e, process_one) missing
      | inr (task, e) ↦ elim (Option-cases (find_lead w.db task.lead_id)) [
        | inl f ↦ rw (e, process_one, f) missing
        | inr (lead, f) ↦ elim (Option-cases (find_agent w.db lead.agent_id)) [
          | inl g ↦ rw (e, process_one, f, g) missing
          | inr (agent, g) ↦
              let loaded : IsLoaded env w id task lead agent = record {
                the_task = e;
                the_lead = f;
                the_agent = g;
              } in
              elim (Option-cases (task_adapter env agent)) [
                | inl n ↦ rw (e, process_one, f, g, n) (unreachable task lead agent loaded)
                | inr (send, a) ↦ rw (e, process_one, f, g, a) (found task lead agent send loaded)
              ]
        ]
      ]
    ]

Reply-cases : (r : Reply (Unit {0})) → (r ≡ ok tt) ⊎ (r ≡ raised)
Reply-cases (ok _) = inl refl
Reply-cases raised = inr refl

-- What every round keeps of the database, a pass keeps, also one that raises.
module _ {ℓ} (env : Env) (P : Db → Type ℓ)
    (round : (w : Pass env) (id : ℕ) → P w.db → P (process_one env w id).1.db) where
  process_all_invariant : (w : Pass env) (ids : List ℕ) → P w.db → P (process_all env w ids).1.db
  unfolding process_all
  process_all_invariant w [] h = h
  process_all_invariant w (id ∷ ids) h = elim (Reply-cases (process_one env w id).0) [
    | inl e ↦
        rw (e, process_all) (process_all_invariant (process_one env w id).1 ids (round w id h))
    | inr e ↦ rw (e, process_all) (round w id h)
  ]

  settle_invariant :
      (before : Db) (r : Reply (Unit {0}) × Pass env)
      → P before
      → P r.1.db
      → P (settle env before r).1.db
  settle_invariant before (ok _, w) h k = k
  settle_invariant before (raised, w) h k = h

  pub run_once_invariant :
      (w : Pass env) (batch_size : ℕ) → P w.db → P (run_once env w batch_size).1.db
  unfolding run_once process_batch
  run_once_invariant w batch_size h =
      settle_invariant w.db _ h (process_all_invariant (record w { report = empty_report }) _ h)
