-- ===== src/FollowUpWorker.antt =====
-- backend/app/workers/followup_worker.py: one pass over the nudges that are due. The state of a pass
-- is the database as the open transaction sees it, Redis, what has been sent, and the report. A call
-- that raises keeps what was sent and what Redis counted; `run_once` rolls the database back.
mod State
pub mod Cases
pub mod Effects
pub mod Reports
pub mod Caps
pub mod Batch
mod Examples
use realty_lead_ai_agent.Common.{
  ℕ, suc, ◌+◌, ◌*◌, String, Bool, true, false, not, Option, none, some, List, [], ◌∷◌, ◌++◌, ◌==◌,
  ◌&&◌, if◌then◌else◌, get_or, map,
}
use realty_lead_ai_agent.Models.Enums.{
  Channel, same_channel, FollowUpStatus, MessageRole, MessageDirection, MessageStatus,
  ConversationStatus,
}
use realty_lead_ai_agent.Models.Rows.{Lead, Agent, FollowUpTask, Conversation, Message}
use realty_lead_ai_agent.Models.Settings.{Settings}
use realty_lead_ai_agent.Models.Db.{
  Db, latest, find, update_where, find_lead, find_agent, save_lead, save_task,
}
use realty_lead_ai_agent.Channels.{OutboundMessage, DeliveryResult, Adapter, or_text, is_set}
use realty_lead_ai_agent.Templates.Text.{truncate}
use realty_lead_ai_agent.Templates.Table.{MessageTemplate}
use realty_lead_ai_agent.Templates.{follow_up_template, first_name, render}
use realty_lead_ai_agent.Zones.{ZoneDb, resolve_timezone}
use realty_lead_ai_agent.QuietHours.{is_quiet_hour, next_send_time}
use realty_lead_ai_agent.RateLimit.Store.{Counters, Reply, ok, raised}
use realty_lead_ai_agent.RateLimit.{Decision, check, follow_up_limit}
use realty_lead_ai_agent.FollowUps.{
  SkipReason, skip_text, check_eligibility, schedule_next, due_tasks,
}
unfoldable pub use State.*

module _ (env : Env) where
  open env use {redis, digest, id_text, zones, settings, now, adapter, whatsapp}

  abbrev pub Pass : Type 0
  Pass = World redis.State

  abbrev pub reschedule : Db → Lead → Channel → Db
  reschedule db lead channel = (schedule_next zones settings db lead now channel).0

  -- Not appropriate: record why; a lead who replied gets a nudge from the new baseline.
  unfoldable pub refuse : Pass → FollowUpTask → Lead → SkipReason → Pass
  refuse w task lead reason =
      let db = save_task w.db (record task {
        status = refused_status reason;
        outcome_reason = some (skip_text reason);
      }) in
      record w {
        db = if is_reply reason then reschedule db lead Channel.whatsapp else db;
        report = count_skip w.report reason;
      }

  unfoldable pub defer : Pass → FollowUpTask → ℕ → Pass
  defer w task at = record w {
    db = save_task w.db (record task { scheduled_for = at });
    report = count_deferred w.report;
  }

  unfoldable pub no_template : Pass → FollowUpTask → Pass
  no_template w task = record w {
    db = save_task w.db (record task {
      status = FollowUpStatus.skipped;
      outcome_reason = some (skip_text SkipReason.no_template);
    });
    report = count_skip w.report SkipReason.no_template;
  }

  unfoldable pub rejected : Pass → FollowUpTask → Option String → Pass
  rejected w task error = record w {
    db = save_task w.db (record task {
      status = FollowUpStatus.failed;
      outcome_reason = some (truncate 255 (or_text error "delivery rejected"));
    });
    report = count_failed w.report;
  }

  abbrev pub nudged : Lead → Lead
  nudged lead = record lead {
    follow_up_count = lead.follow_up_count + 1;
    last_outbound_at = some now;
  }

  abbrev pub sent_task : FollowUpTask → MessageTemplate → FollowUpTask
  sent_task task template = record task {
    status = FollowUpStatus.sent;
    sent_at = some now;
    template_name = some template.name;
  }

  -- The message is out: mark the task and the lead, record it, and queue the next nudge.
  unfoldable pub accepted :
      Pass → FollowUpTask → Lead → Agent → MessageTemplate → DeliveryResult → Pass
  accepted w task lead agent template delivery =
      let done = sent_task task template in
      let db = save_lead (save_task w.db done) (nudged lead) in
      let text = (nudge_message task lead agent template).text in
      record w {
        db =
            reschedule (record_outbound db (nudged lead) done text delivery) (nudged lead)
              task.channel;
        report = count_sent w.report;
      }

  unfoldable pub after_send :
      Pass
      → FollowUpTask
      → Lead
      → Agent
      → MessageTemplate
      → Reply DeliveryResult
      → Reply (Unit {0}) × Pass
  after_send w task lead agent template raised = (raised, w)
  after_send w task lead agent template (ok delivery) = (
    ok tt,
    if delivery.accepted
        then accepted w task lead agent template delivery
        else rejected w task delivery.error,
  )

  unfoldable pub send_nudge :
      Pass → FollowUpTask → Adapter → Lead → Agent → MessageTemplate → Reply (Unit {0}) × Pass
  send_nudge w task send lead agent template =
      let m = nudge_message task lead agent template in
      after_send (record w { outbox = w.outbox ++ m ∷ [] }) task lead agent template
        (send w.outbox m)

  unfoldable pub with_template :
      Pass
      → FollowUpTask
      → Adapter
      → Lead
      → Agent
      → Option MessageTemplate
      → Reply (Unit {0}) × Pass
  with_template w task send lead agent none = (ok tt, no_template w task)
  with_template w task send lead agent (some t) = send_nudge w task send lead agent t

  unfoldable pub with_allowance :
      Pass → FollowUpTask → Adapter → Lead → Agent → Decision → Reply (Unit {0}) × Pass
  with_allowance w task send lead agent d =
      if not d.allowed
      then (ok tt, defer w task (now + seconds d.retry_after_seconds))
      else with_template w task send lead agent
          (follow_up_template task.attempt_number lead.language)

  abbrev pub spend : Pass → Agent → Decision × redis.State
  spend w agent = check redis digest (follow_up_limit settings) (id_text agent.id) w.redis

  -- `process_task`, once its lead and agent are loaded
  unfoldable pub process_loaded :
      Pass → FollowUpTask → Adapter → Lead → Agent → Reply (Unit {0}) × Pass
  process_loaded w task send lead agent =
      let tz = resolve_timezone zones lead.timezone in
      let eligibility = check_eligibility w.db lead (some task) settings in
      if not eligibility.ok
      then (ok tt, refuse w task lead (get_or eligibility.reason SkipReason.terminal_status))
      else if is_quiet_hour now tz settings.quiet_hours_start settings.quiet_hours_end
      then (
        ok tt,
        defer w task (next_send_time now tz settings.quiet_hours_start settings.quiet_hours_end),
      )
      else let (allowance, s) = spend w agent in
        with_allowance (record w { redis = s }) task send lead agent allowance

  -- `_adapter_for`: none without a number or a token
  abbrev pub adapter_for : Agent → Option Adapter
  adapter_for agent =
      if is_set agent.whatsapp_phone_number_id
      then whatsapp (or_text agent.whatsapp_phone_number_id "")
      else none

  abbrev pub task_adapter : Agent → Option Adapter
  task_adapter agent = elim adapter [ some a ↦ some a | none ↦ adapter_for agent ]

  unfoldable pub no_channel : Pass → FollowUpTask → Pass
  no_channel w task = record w {
    db = save_task w.db (record task {
      status = FollowUpStatus.failed;
      outcome_reason = some "no messaging channel configured for this agent";
    });
    report = count_failed w.report;
  }

  unfoldable pub with_adapter :
      Pass → FollowUpTask → Lead → Agent → Option Adapter → Reply (Unit {0}) × Pass
  with_adapter w task lead agent none = (ok tt, no_channel w task)
  with_adapter w task lead agent (some send) = process_loaded w task send lead agent

  -- `session.get_one`, which raises where the row is not there
  abbrev pub find_task : Db → ℕ → Option FollowUpTask
  find_task db id = find (λ t. t.id == id) db.tasks

  -- One round of the loop of `_process_batch`: the task, its lead and its agent are the rows as they
  -- stand now.
  unfoldable pub process_one : Pass → ℕ → Reply (Unit {0}) × Pass
  process_one w id = elim (find_task w.db id) [
    | none ↦ (raised, w)
    | some task ↦ elim (find_lead w.db task.lead_id) [
      | none ↦ (raised, w)
      | some lead ↦ elim (find_agent w.db lead.agent_id) [
        | none ↦ (raised, w)
        | some agent ↦ with_adapter w task lead agent (task_adapter agent)
      ]
    ]
  ]

  -- An exception ends the batch.
  unfoldable pub process_all : Pass → List ℕ → Reply (Unit {0}) × Pass
  process_all w [] = (ok tt, w)
  process_all w (id ∷ ids) =
      let (r, w') = process_one w id in elim r [ raised ↦ (raised, w') | ok _ ↦ process_all w' ids ]

  unfoldable pub process_batch : Pass → ℕ → Reply (Unit {0}) × Pass
  process_batch w batch_size = process_all w (map (λ t. t.id) (due_tasks w.db now batch_size))

  abbrev pub settle : Db → Reply (Unit {0}) × Pass → Reply (Unit {0}) × Pass
  settle before (ok u, w) = (ok u, w)
  settle before (raised, w) = (raised, record w { db = before })

  -- With a session of its own: commit, or roll the database back and raise again.
  unfoldable pub run_once : Pass → ℕ → Reply (Unit {0}) × Pass
  run_once w batch_size =
      settle w.db (process_batch (record w { report = empty_report }) batch_size)
