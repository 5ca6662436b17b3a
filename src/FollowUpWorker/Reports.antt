-- ===== src/FollowUpWorker/Reports.antt =====
-- The report of `run_once` of backend/app/workers/followup_worker.py, and a pass that raises.
use realty_lead_ai_agent.Common.{
  ℕ, ◌+◌, ◌≤◌, ◌≡◌, List, [], ◌∷◌, arith, length, map, length-map, length-take-le,
}
use realty_lead_ai_agent.Models.Rows.{Lead, Agent, FollowUpTask}
use realty_lead_ai_agent.Models.Db.{Db}
use realty_lead_ai_agent.Channels.{Adapter}
use realty_lead_ai_agent.RateLimit.Store.{Reply, ok, raised}
use realty_lead_ai_agent.FollowUps.{due_tasks}
use realty_lead_ai_agent.FollowUpWorker.{
  Env, Pass, processed, empty_report, refuse, defer, no_template, rejected, accepted,
  process_loaded, no_channel, process_one, process_all, process_batch, run_once, settle,
}
use realty_lead_ai_agent.FollowUpWorker.Cases.{
  process_loaded_cases, send_nudge_cases, process_one_cases,
}

-- One for a reply, none for an exception.
abbrev pub count_ok : Reply (Unit {0}) → ℕ
count_ok (ok _) = 1
count_ok raised = 0

length-due_tasks : (db : Db) (now limit : ℕ) → length (due_tasks db now limit) ≤ limit
unfolding due_tasks
length-due_tasks db now limit = length-take-le limit _

module _ (env : Env) where
  -- The outcome of a round counts one task, or none if it raised.
  abbrev Counts : Pass env → Reply (Unit {0}) × Pass env → Type 0
  Counts w (o, w') = processed w'.report ≡ processed w.report + count_ok o

  process_loaded-Counts :
      (w : Pass env) (task : FollowUpTask) (lead : Lead) (agent : Agent) (send : Adapter)
      → Counts w (process_loaded env w task send lead agent)
  unfolding refuse defer no_template accepted rejected
  process_loaded-Counts w task lead agent send =
      process_loaded_cases env w task lead agent (Counts w) send (λ r e. omega arith)
        (λ q. omega arith) (λ a. omega arith) (λ n. omega arith)
        (λ t m.
          send_nudge_cases env w task lead agent (Counts w) send t (omega arith)
            (λ d e a. omega arith) (λ d a. omega arith))

  -- A round that does not raise counts its task once, as sent, skipped, deferred or failed; a round
  -- that raises counts nothing.
  pub process_one-processed :
      (w : Pass env) (id : ℕ)
      → let (o, w') = process_one env w id in processed w'.report ≡ processed w.report + count_ok o
  unfolding no_channel
  process_one-processed w id =
      process_one_cases env w id (Counts w) (omega arith) (λ task lead agent l. omega arith)
        (λ task lead agent send l. process_loaded-Counts w task lead agent send)

  process_all-processed :
      (w w' : Pass env) (ids : List ℕ)
      → process_all env w ids ≡ (ok tt, w')
      → processed w'.report ≡ processed w.report + length ids
  unfolding process_all
  process_all-processed w w' [] h = ground arith
  process_all-processed w w' (id ∷ ids) h =
      ground
        (arith, process_one-processed w id, process_all-processed (process_one env w id).1 w' ids)

  settle-eq-ok :
      (before : Db) (r : Reply (Unit {0}) × Pass env) (w' : Pass env)
      → settle env before r ≡ (ok tt, w')
      → r ≡ (ok tt, w')
  settle-eq-ok before (ok u, w) w' h = h
  settle-eq-ok before (raised, w) w' h = cc

  -- A pass that completes has accounted for each due task that it took, and took at most
  -- `batch_size`.
  pub run_once-processed :
      (w w' : Pass env) (batch_size : ℕ)
      → run_once env w batch_size ≡ (ok tt, w')
      → (processed w'.report ≡ length (due_tasks w.db env.now batch_size))
        × (processed w'.report ≤ batch_size)
  unfolding run_once process_batch
  run_once-processed w w' batch_size h =
      let taken = due_tasks w.db env.now batch_size in
      let all =
        process_all-processed (record w { report = empty_report }) w' (map (λ t. t.id) taken)
          (settle-eq-ok w.db _ w' h) in
      (
        omega (arith, all, length-map (λ (t : FollowUpTask). t.id) taken),
        omega (
          arith,
          all,
          length-map (λ (t : FollowUpTask). t.id) taken,
          length-due_tasks w.db env.now batch_size,
        ),
      )
