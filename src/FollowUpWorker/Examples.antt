-- ===== src/FollowUpWorker/Examples.antt =====
-- Tests of a pass over one due nudge.
use realty_lead_ai_agent.Common.{◌≤◌, ◌≡◌, ◌⊎◌, refl, some, none, true, [], arith, length}
use realty_lead_ai_agent.Models.Settings.{default_settings}
use realty_lead_ai_agent.Zones.{kolkata_only}
use realty_lead_ai_agent.RateLimit.Store.{ok, raised, table, empty_table}
use realty_lead_ai_agent.Fixtures.{office, afternoon}
use realty_lead_ai_agent.FollowUps.{max_attempts, due_tasks}
use realty_lead_ai_agent.FollowUpWorker.{
  Env, World, Pass, empty_report, processed, process_one, process_all, process_batch, run_once,
  settle,
}
use realty_lead_ai_agent.FollowUpWorker.Reports.{run_once-processed}
use realty_lead_ai_agent.FollowUpWorker.Effects.{Sent, process_one_sends}
use realty_lead_ai_agent.FollowUpWorker.Caps.{IsCapped, run_once-IsCapped}
use realty_lead_ai_agent.FollowUpWorker.Batch.{IsQueue, run_once-IsQueue}

-- The adapter takes every message.
abbrev env : Env
env = record {
  redis = table;
  digest = λ s. s;
  id_text = λ n. "agent";
  zones = kolkata_only;
  settings = default_settings;
  now = afternoon;
  adapter =
      some
        (λ before m. ok (record { external_id = some "wamid.1"; accepted = true; error = none }));
  whatsapp = λ number. none;
}

abbrev start : Pass env
start = record { db = office; redis = empty_table; outbox = []; report = empty_report }

completes : (run_once env start 5).0 ≡ ok tt
unfolding run_once process_batch process_all process_one due_tasks max_attempts
    realty_lead_ai_agent.FollowUps.sort_by_due realty_lead_ai_agent.FollowUps.insert_by_due
    realty_lead_ai_agent.Models.Db.find realty_lead_ai_agent.FollowUpWorker.with_adapter
    realty_lead_ai_agent.FollowUpWorker.process_loaded
    realty_lead_ai_agent.FollowUps.check_eligibility realty_lead_ai_agent.Models.Db.latest
    realty_lead_ai_agent.QuietHours.is_quiet_hour realty_lead_ai_agent.Zones.resolve_timezone
    realty_lead_ai_agent.FollowUpWorker.with_allowance realty_lead_ai_agent.RateLimit.check
    realty_lead_ai_agent.FollowUpWorker.after_send realty_lead_ai_agent.FollowUpWorker.with_template
    realty_lead_ai_agent.FollowUpWorker.send_nudge realty_lead_ai_agent.Templates.follow_up_template
    realty_lead_ai_agent.Templates.Table.follow_up_templates
    realty_lead_ai_agent.Templates.Text.concat realty_lead_ai_agent.RateLimit.limit_key
completes = refl

run_once-processed_example :
    (processed (run_once env start 5).1.report ≡ length (due_tasks office afternoon 5))
    × (processed (run_once env start 5).1.report ≤ 5)
run_once-processed_example =
    run_once-processed env start (run_once env start 5).1 5
      (λ i. (completes i, (run_once env start 5).1))

process_one_sends_example :
    let w' = (process_one env start 3).1 in (w'.outbox ≡ start.outbox) ⊎ Sent env start w' 3
process_one_sends_example = process_one_sends env start 3

run_once-IsCapped_example : IsCapped (max_attempts default_settings) (run_once env start 5).1.db
run_once-IsCapped_example = run_once-IsCapped env start 5 (omega arith, tt)

is_queue : IsQueue office
is_queue = record { distinct = (omega arith, tt, tt); at_most_one = λ k. ground arith }

run_once-IsQueue_example : IsQueue (run_once env start 5).1.db
run_once-IsQueue_example = run_once-IsQueue env start 5 is_queue

-- The channel raises, after the message is out.
abbrev broken : Env
broken = record env { adapter = some (λ before m. raised) }

fails : (run_once broken start 5).0 ≡ raised
unfolding run_once process_batch process_all process_one due_tasks max_attempts
    realty_lead_ai_agent.FollowUps.sort_by_due realty_lead_ai_agent.FollowUps.insert_by_due
    realty_lead_ai_agent.Models.Db.find realty_lead_ai_agent.FollowUpWorker.with_adapter
    realty_lead_ai_agent.FollowUpWorker.process_loaded
    realty_lead_ai_agent.FollowUps.check_eligibility realty_lead_ai_agent.Models.Db.latest
    realty_lead_ai_agent.QuietHours.is_quiet_hour realty_lead_ai_agent.Zones.resolve_timezone
    realty_lead_ai_agent.FollowUpWorker.with_allowance realty_lead_ai_agent.RateLimit.check
    realty_lead_ai_agent.FollowUpWorker.after_send realty_lead_ai_agent.FollowUpWorker.with_template
    realty_lead_ai_agent.FollowUpWorker.send_nudge realty_lead_ai_agent.Templates.follow_up_template
    realty_lead_ai_agent.Templates.Table.follow_up_templates
    realty_lead_ai_agent.Templates.Text.concat realty_lead_ai_agent.RateLimit.limit_key
fails = refl

sent_all_the_same : length (run_once broken start 5).1.outbox ≡ 1
unfolding run_once process_batch process_all process_one due_tasks max_attempts
    realty_lead_ai_agent.FollowUps.sort_by_due realty_lead_ai_agent.FollowUps.insert_by_due
    realty_lead_ai_agent.Models.Db.find realty_lead_ai_agent.FollowUpWorker.with_adapter
    realty_lead_ai_agent.FollowUpWorker.process_loaded
    realty_lead_ai_agent.FollowUps.check_eligibility realty_lead_ai_agent.Models.Db.latest
    realty_lead_ai_agent.QuietHours.is_quiet_hour realty_lead_ai_agent.Zones.resolve_timezone
    realty_lead_ai_agent.FollowUpWorker.with_allowance realty_lead_ai_agent.RateLimit.check
    realty_lead_ai_agent.FollowUpWorker.after_send realty_lead_ai_agent.FollowUpWorker.with_template
    realty_lead_ai_agent.FollowUpWorker.send_nudge realty_lead_ai_agent.Templates.follow_up_template
    realty_lead_ai_agent.Templates.Table.follow_up_templates
    realty_lead_ai_agent.Templates.Text.concat realty_lead_ai_agent.RateLimit.limit_key
sent_all_the_same = refl
