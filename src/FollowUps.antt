-- ===== src/FollowUps.antt =====
-- backend/app/services/followups.py: when a nudge is due, whether it is appropriate, and the queue
-- of scheduled nudges.
pub mod Eligible
pub mod Schedule
pub mod Queue
mod Examples
use realty_lead_ai_agent.Common.{
  ℕ, zero, suc, ◌+◌, ◌-◌, ◌*◌, ◌≤◌, ◌<◌, min, String, Bool, true, false, ◌&&◌, ◌||◌, not, Option,
  none, some, List, [], ◌∷◌, ◌++◌, ltb, leb, ◌==◌, if◌then◌else◌, length, filter, get_or, take,
}
use realty_lead_ai_agent.Models.Enums.{LeadStatus, Channel, FollowUpStatus}
use realty_lead_ai_agent.Models.Rows.{
  Lead, FollowUpTask, Conversation, is_opted_out, is_contactable, is_scheduled, is_human_takeover,
  follow_up_cadence_days,
}
use realty_lead_ai_agent.Models.Settings.{Settings}
use realty_lead_ai_agent.Models.Db.{Db, latest, update_where}
use realty_lead_ai_agent.Templates.Text.{truncate}
use realty_lead_ai_agent.Zones.{ZoneDb, day_us, resolve_timezone}
use realty_lead_ai_agent.QuietHours.{is_quiet_hour, next_send_time}

-- `lead.status in TERMINAL_LEAD_STATUSES`
abbrev pub is_terminal : LeadStatus → Bool
is_terminal LeadStatus.opted_out = true
is_terminal LeadStatus.booked = true
is_terminal LeadStatus.handed_off = true
is_terminal _ = false

pub data SkipReason : Type 0 where
  opted_out terminal_status human_takeover lead_replied cap_reached : SkipReason
  no_template not_contactable : SkipReason

-- `str(reason)`
abbrev pub skip_text : SkipReason → String
skip_text SkipReason.opted_out = "lead opted out"
skip_text SkipReason.terminal_status = "lead is booked, handed off or closed"
skip_text SkipReason.human_takeover = "a human has taken over the conversation"
skip_text SkipReason.lead_replied = "lead replied after this nudge was scheduled"
skip_text SkipReason.cap_reached = "follow-up cap reached"
skip_text SkipReason.no_template = "no approved template for this attempt"
skip_text SkipReason.not_contactable = "no consent to message this lead"

pub record Eligibility : Type 0 where
  pub ok : Bool
  pub reason : Option SkipReason

abbrev pub refused : SkipReason → Eligibility
refused r = record { ok = false; reason = some r }

abbrev pub eligible : Eligibility
eligible = record { ok = true; reason = none }

unfoldable pub max_attempts : Settings → ℕ
max_attempts settings = min settings.max_follow_ups (length follow_up_cadence_days)

-- `FOLLOW_UP_CADENCE_DAYS[attempt - 1]`, if that is an index
abbrev pub get_elem? {ℓ} : {A : Type ℓ} → List A → ℕ → Option A
get_elem? [] i = none
get_elem? (x ∷ xs) zero = some x
get_elem? (x ∷ xs) (suc i) = get_elem? xs i

abbrev after_days : ℕ → Option ℕ → Option ℕ
after_days baseline none = none
after_days baseline (some days) = some (baseline + days * day_us)

unfoldable pub next_attempt_time : ℕ → ℕ → Option ℕ
next_attempt_time baseline attempt =
    if ltb attempt 1 || ltb (length follow_up_cadence_days) attempt
    then none
    else after_days baseline (get_elem? follow_up_cadence_days (attempt - 1))

-- `lead.last_inbound_at > task.baseline_at`, where both are set
abbrev pub replied_after : Option FollowUpTask → Option ℕ → Bool
replied_after none last = false
replied_after (some task) last = elim task.baseline_at [
  | none ↦ false
  | some baseline ↦ elim last [ none ↦ false | some at ↦ ltb baseline at ]
]

abbrev pub taken_over : Option Conversation → Bool
taken_over none = false
taken_over (some c) = is_human_takeover c.status

abbrev pub latest_conversation : Db → Lead → Option Conversation
latest_conversation db lead = latest (λ c. c.lead_id == lead.id) db.conversations

unfoldable pub check_eligibility : Db → Lead → Option FollowUpTask → Settings → Eligibility
check_eligibility db lead task settings =
    if is_opted_out lead.consent_status
    then refused SkipReason.opted_out
    else if not (is_contactable lead)
    then refused SkipReason.not_contactable
    else if is_terminal lead.status
    then refused SkipReason.terminal_status
    else if leb (max_attempts settings) lead.follow_up_count
    then refused SkipReason.cap_reached
    else if replied_after task lead.last_inbound_at
    then refused SkipReason.lead_replied
    else if taken_over (latest_conversation db lead)
    then refused SkipReason.human_takeover
    else eligible

abbrev pub is_pending : ℕ → FollowUpTask → Bool
is_pending lead_id t = t.lead_id == lead_id && is_scheduled t.status

unfoldable pub cancel_pending : Db → ℕ → String → Db × ℕ
cancel_pending db lead_id reason = (
  record db {
    tasks =
        update_where (is_pending lead_id)
          (λ t. record t {
            status = FollowUpStatus.cancelled;
            outcome_reason = some (truncate 255 reason);
          })
          db.tasks;
  },
  length (filter (is_pending lead_id) db.tasks),
)

-- A nudge that would land in the quiet hours is pushed to their end.
unfoldable pub due_time : ZoneDb → Settings → Lead → ℕ → ℕ
due_time zones settings lead due =
    let tz = resolve_timezone zones lead.timezone in
    if is_quiet_hour due tz settings.quiet_hours_start settings.quiet_hours_end
    then next_send_time due tz settings.quiet_hours_start settings.quiet_hours_end
    else due

abbrev pub new_task : Db → Lead → ℕ → ℕ → ℕ → Channel → FollowUpTask
new_task db lead attempt due baseline channel = record {
  id = db.next_id;
  lead_id = lead.id;
  attempt_number = attempt;
  scheduled_for = due;
  baseline_at = some baseline;
  channel = channel;
  status = FollowUpStatus.scheduled;
  template_name = none;
  sent_at = none;
  outcome_reason = none;
}

abbrev pub add_task : Db → FollowUpTask → Db
add_task db task = record db { tasks = db.tasks ++ task ∷ []; next_id = suc db.next_id }

unfoldable pub schedule_at :
    ZoneDb → Settings → Db → Lead → ℕ → Channel → Option ℕ → Db × Option FollowUpTask
schedule_at zones settings db lead baseline channel none = (db, none)
schedule_at zones settings db lead baseline channel (some due) =
    let task =
      new_task db lead (lead.follow_up_count + 1) (due_time zones settings lead due) baseline
        channel in
    (add_task db task, some task)

-- `lead.last_inbound_at or now`
abbrev pub baseline_of : Lead → ℕ → ℕ
baseline_of lead now = get_or lead.last_inbound_at now

unfoldable pub schedule_next :
    ZoneDb → Settings → Db → Lead → ℕ → Channel → Db × Option FollowUpTask
schedule_next zones settings db lead now channel =
    let cleared = (cancel_pending db lead.id "superseded").0 in
    if (check_eligibility cleared lead none settings).ok
    then schedule_at zones settings cleared lead (baseline_of lead now) channel
        (next_attempt_time (baseline_of lead now) (lead.follow_up_count + 1))
    else (cleared, none)

-- `.order_by(scheduled_for)`: rows with one due time stay in their order.
unfoldable pub insert_by_due : FollowUpTask → List FollowUpTask → List FollowUpTask
insert_by_due t [] = t ∷ []
insert_by_due t (u ∷ us) =
    let rest = insert_by_due t us in
    if leb t.scheduled_for u.scheduled_for then t ∷ u ∷ us else u ∷ rest

unfoldable pub sort_by_due : List FollowUpTask → List FollowUpTask
sort_by_due [] = []
sort_by_due (t ∷ ts) = insert_by_due t (sort_by_due ts)

abbrev pub is_due : ℕ → FollowUpTask → Bool
is_due now t = is_scheduled t.status && leb t.scheduled_for now

unfoldable pub due_tasks : Db → ℕ → ℕ → List FollowUpTask
due_tasks db now limit = take limit (sort_by_due (filter (is_due now) db.tasks))
