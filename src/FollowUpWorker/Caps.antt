-- ===== src/FollowUpWorker/Caps.antt =====
-- The count of nudges of a lead, over `run_once` of backend/app/workers/followup_worker.py.
use realty_lead_ai_agent.Common.{
  ℕ, ◌≤◌, ◌<◌, ◌≡◌, Bool, some, List, [], ◌∷◌, arith, All, inl, inr, Bool-cases, String, ◌==◌,
}
use realty_lead_ai_agent.Models.Enums.{Channel}
use realty_lead_ai_agent.Models.Rows.{Lead, Agent, FollowUpTask}
use realty_lead_ai_agent.Models.Settings.{Settings}
use realty_lead_ai_agent.Models.Db.{Db, update_where}
use realty_lead_ai_agent.Channels.{Adapter, DeliveryResult}
use realty_lead_ai_agent.Templates.Table.{MessageTemplate}
use realty_lead_ai_agent.Zones.{ZoneDb}
use realty_lead_ai_agent.RateLimit.Store.{Reply}
use realty_lead_ai_agent.FollowUps.{
  SkipReason, max_attempts, schedule_next, schedule_at, cancel_pending,
}
use realty_lead_ai_agent.FollowUps.Eligible.{ok-IsAppropriate}
use realty_lead_ai_agent.FollowUpWorker.{
  Env, Pass, refuse, defer, no_template, rejected, accepted, no_channel, process_loaded,
  process_one, run_once, record_outbound, conversation_for, is_reply, nudged,
}
use realty_lead_ai_agent.FollowUpWorker.Cases.{
  process_loaded_cases, send_nudge_cases, process_one_cases, run_once_invariant,
}

-- Every lead has had at most `cap` nudges.
abbrev pub IsCapped : ℕ → Db → Type 0
IsCapped cap db = All (λ l. l.follow_up_count ≤ cap) db.leads

update_where-All :
    (P : Lead → Type 0) (p : Lead → Bool) (a : Lead) (ls : List Lead)
    → P a
    → All P ls
    → All P (update_where p (λ _. a) ls)
unfolding update_where
update_where-All P p a [] h k = tt
update_where-All P p a (l ∷ ls) h k = elim (Bool-cases (p l)) [
  | inl e ↦ rw e (h, update_where-All P p a ls h k.1)
  | inr e ↦ rw e (k.0, update_where-All P p a ls h k.1)
]

leads-schedule_next :
    (zones : ZoneDb) (settings : Settings) (db : Db) (lead : Lead) (now : ℕ) (channel : Channel)
    → (schedule_next zones settings db lead now channel).0.leads ≡ db.leads
unfolding schedule_next schedule_at cancel_pending
leads-schedule_next zones settings db lead now channel = ground arith

leads-record_outbound :
    (db : Db) (lead : Lead) (task : FollowUpTask) (text : String) (d : DeliveryResult)
    → (record_outbound db lead task text d).leads ≡ db.leads
unfolding record_outbound conversation_for
leads-record_outbound db lead task text d = ground arith

module _ (env : Env) where
  abbrev cap : ℕ
  cap = max_attempts env.settings

  abbrev StaysCapped : Reply (Unit {0}) × Pass env → Type 0
  StaysCapped (o, w) = IsCapped cap w.db

  refuse-IsCapped :
      (w : Pass env) (task : FollowUpTask) (lead : Lead) (r : SkipReason)
      → IsCapped cap w.db
      → IsCapped cap (refuse env w task lead r).db
  unfolding refuse
  refuse-IsCapped w task lead r c = elim (Bool-cases (is_reply r)) [
    | inl e ↦ rw (e, leads-schedule_next) c
    | inr e ↦ rw e c
  ]

  accepted-IsCapped :
      (w : Pass env) (task : FollowUpTask) (lead : Lead) (agent : Agent) (t : MessageTemplate)
      (d : DeliveryResult)
      → lead.follow_up_count < cap
      → IsCapped cap w.db
      → IsCapped cap (accepted env w task lead agent t d).db
  unfolding accepted
  accepted-IsCapped w task lead agent t d h c =
      rw (leads-schedule_next, leads-record_outbound)
        (update_where-All (λ l. l.follow_up_count ≤ cap) (λ l. l.id == lead.id) (nudged env lead)
          w.db.leads (omega arith) c)

  process_loaded-IsCapped :
      (w : Pass env) (task : FollowUpTask) (lead : Lead) (agent : Agent) (send : Adapter)
      → IsCapped cap w.db
      → StaysCapped (process_loaded env w task send lead agent)
  unfolding defer no_template rejected
  process_loaded-IsCapped w task lead agent send c =
      process_loaded_cases env w task lead agent StaysCapped send
        (λ r e. refuse-IsCapped w task lead r c) (λ q. c) (λ a. c) (λ n. c)
        (λ t m.
          send_nudge_cases env w task lead agent StaysCapped send t c
            (λ d e a.
              accepted-IsCapped _ task lead agent t d
                (ok-IsAppropriate w.db lead (some task) env.settings m.appropriate).below_cap c)
            (λ d a. c))

  process_one-IsCapped :
      (w : Pass env) (id : ℕ) → IsCapped cap w.db → StaysCapped (process_one env w id)
  unfolding no_channel
  process_one-IsCapped w id c =
      process_one_cases env w id StaysCapped c (λ task lead agent l. c)
        (λ task lead agent send l. process_loaded-IsCapped w task lead agent send c)

  -- A pass keeps every lead at or below the cap of nudges, whether it completes or raises.
  pub run_once-IsCapped :
      (w : Pass env) (batch_size : ℕ)
      → IsCapped (max_attempts env.settings) w.db
      → IsCapped (max_attempts env.settings) (run_once env w batch_size).1.db
  run_once-IsCapped = run_once_invariant env (IsCapped cap) process_one-IsCapped
