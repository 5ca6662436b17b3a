-- ===== src/FollowUps/Schedule.antt =====
-- What `schedule_next` of backend/app/services/followups.py schedules.
use realty_lead_ai_agent.Common.{
  ℕ, zero, suc, ◌+◌, ◌≤◌, ◌<◌, ◌≡◌, refl, ◌∙◌, none, some, false, arith, [], ◌∷◌, ◌++◌, ◌==◌,
  length, if◌then◌else◌, inl, inr, Bool-cases,
}
use realty_lead_ai_agent.Models.Enums.{Channel, FollowUpStatus}
use realty_lead_ai_agent.Models.Rows.{Lead, FollowUpTask}
use realty_lead_ai_agent.Models.Settings.{Settings}
use realty_lead_ai_agent.Models.Db.{Db}
use realty_lead_ai_agent.Zones.{ZoneDb, IsRegular, day_us, resolve_timezone}
use realty_lead_ai_agent.QuietHours.{is_quiet_hour}
use realty_lead_ai_agent.QuietHours.Earliest.{next_send_time-not_quiet, le-next_send_time}
use realty_lead_ai_agent.FollowUps.{
  max_attempts, next_attempt_time, due_time, schedule_next, baseline_of, cancel_pending,
  check_eligibility, schedule_at, new_task,
}
use realty_lead_ai_agent.FollowUps.Queue.{standing, standing-schedule_next, length-cancel_pending}
use realty_lead_ai_agent.FollowUps.Eligible.{IsAppropriate, ok-IsAppropriate, IsAppropriate-ok}

-- The cap is at most the six steps of the cadence.
max_attempts-le : (settings : Settings) → max_attempts settings ≤ 6
unfolding max_attempts
max_attempts-le settings = omega arith

-- An attempt of the cadence has a due time, and a later attempt is due later.
next_attempt_time_total :
    (b a : ℕ) → 1 ≤ a → a ≤ 6 → (due : ℕ) × (next_attempt_time b a ≡ some due) × (b + day_us ≤ due)
unfolding next_attempt_time
next_attempt_time_total b zero h k = absurd (omega arith)
next_attempt_time_total b (suc zero) h k = (_, refl, omega arith)
next_attempt_time_total b (suc (suc zero)) h k = (_, refl, omega arith)
next_attempt_time_total b (suc (suc (suc zero))) h k = (_, refl, omega arith)
next_attempt_time_total b (suc (suc (suc (suc zero)))) h k = (_, refl, omega arith)
next_attempt_time_total b (suc (suc (suc (suc (suc zero))))) h k = (_, refl, omega arith)
next_attempt_time_total b (suc (suc (suc (suc (suc (suc zero)))))) h k = (_, refl, omega arith)
next_attempt_time_total b (suc (suc (suc (suc (suc (suc (suc a))))))) h k = absurd (omega arith)

-- What a scheduled nudge must be: the lead's next attempt, within the cap, measured from their last
-- message, not before the day that the cadence sets, and outside the lead's quiet hours.
pub record IsNudge (zones : ZoneDb) (settings : Settings) (lead : Lead) (now : ℕ)
    (channel : Channel) (task : FollowUpTask) : Type 0 where
  pub for_lead : task.lead_id ≡ lead.id
  pub stands : task.status ≡ FollowUpStatus.scheduled
  pub on_channel : task.channel ≡ channel
  pub is_next : task.attempt_number ≡ lead.follow_up_count + 1
  pub within_cap : task.attempt_number ≤ max_attempts settings
  pub from_last_message : task.baseline_at ≡ some (baseline_of lead now)
  pub due : ℕ
  pub on_cadence : next_attempt_time (baseline_of lead now) task.attempt_number ≡ some due
  pub not_early : due ≤ task.scheduled_for
  pub awake :
      is_quiet_hour task.scheduled_for
        (resolve_timezone zones lead.timezone)
        settings.quiet_hours_start
        settings.quiet_hours_end
      ≡ false

module _ (zones : ZoneDb) (settings : Settings) (lead : Lead) where
  due_time-awake :
      IsRegular (resolve_timezone zones lead.timezone)
      → settings.quiet_hours_end < 24
      → (due : ℕ)
      → (is_quiet_hour
            (due_time zones settings lead due)
            (resolve_timezone zones lead.timezone)
            settings.quiet_hours_start
            settings.quiet_hours_end
          ≡ false)
        × (due ≤ due_time zones settings lead due)
  unfolding due_time
  due_time-awake r h due = ground (
    arith,
    next_send_time-not_quiet r due settings.quiet_hours_start settings.quiet_hours_end h,
    le-next_send_time r due settings.quiet_hours_start settings.quiet_hours_end h,
  )

  -- Cancelling nudges changes nothing that a check reads.
  check_cleared :
      (db : Db)
      → check_eligibility (cancel_pending db lead.id "superseded").0 lead none settings
        ≡ check_eligibility db lead none settings
  unfolding check_eligibility cancel_pending
  check_cleared db = refl

module _ (zones : ZoneDb) (settings : Settings) (db : Db) (lead : Lead) (now : ℕ)
    (channel : Channel) (r : IsRegular (resolve_timezone zones lead.timezone))
    (h : settings.quiet_hours_end < 24) where
  -- Where the lead's zone is regular and the quiet hours end at an hour of the day, a lead for whom a
  -- nudge is appropriate gets one: the row that is returned is the row that is added to the nudges,
  -- with those that stood for the lead cancelled, and it is the next attempt, within the cap, measured
  -- from their last message, not before the day that the cadence sets and outside their quiet hours.
  pub schedule_next_total :
      IsAppropriate db lead none settings
      → let (db', returned) = schedule_next zones settings db lead now channel in
        (task : FollowUpTask) × (returned ≡ some task)
        × (db'.tasks ≡ (cancel_pending db lead.id "superseded").0.tasks ++ task ∷ [])
        × IsNudge zones settings lead now channel task
  unfolding schedule_next schedule_at
  schedule_next_total a =
      let (due, on_cadence, later) =
        next_attempt_time_total (baseline_of lead now) (lead.follow_up_count + 1) (omega arith)
          (omega (arith, a.below_cap, max_attempts-le settings)) in
      let (awake, not_early) = due_time-awake zones settings lead r h due in
      (
        new_task (cancel_pending db lead.id "superseded").0 lead (lead.follow_up_count + 1)
            (due_time zones settings lead due) (baseline_of lead now) channel,
        rw
            (
              check_cleared zones settings lead db,
              IsAppropriate-ok db lead none settings a,
              on_cadence,
            )
            refl,
        rw
            (
              check_cleared zones settings lead db,
              IsAppropriate-ok db lead none settings a,
              on_cadence,
            )
            refl,
        record {
          for_lead = refl;
          stands = refl;
          on_channel = refl;
          is_next = refl;
          within_cap = omega (arith, a.below_cap);
          from_last_message = refl;
          due = due;
          on_cadence = on_cadence;
          not_early = not_early;
          awake = awake;
        },
      )

refused_lem :
    (zones : ZoneDb) (settings : Settings) (db : Db) (lead : Lead) (now : ℕ) (channel : Channel)
    → ¬ IsAppropriate db lead none settings
    → schedule_next zones settings db lead now channel
      ≡ ((cancel_pending db lead.id "superseded").0, none)
unfolding schedule_next
refused_lem zones settings db lead now channel n =
    elim (Bool-cases (check_eligibility db lead none settings).ok) [
      | inl e ↦ absurd (n (ok-IsAppropriate db lead none settings e))
      | inr e ↦ rw (check_cleared zones settings lead db, e) refl
    ]

-- For a lead for whom a nudge is not appropriate none is scheduled: none is returned, none stands for the
-- lead any more, those of every other lead are the same rows as before, and no row is added.
pub schedule_next-none :
    (zones : ZoneDb) (settings : Settings) (db : Db) (lead : Lead) (now : ℕ) (channel : Channel)
    (k : ℕ)
    → ¬ IsAppropriate db lead none settings
    → let (db', task) = schedule_next zones settings db lead now channel in
      (task ≡ none)
      × (standing k db' ≡ (if lead.id == k then [] else standing k db))
      × (length db'.tasks ≡ length db.tasks)
schedule_next-none zones settings db lead now channel k n =
    let e = refused_lem zones settings db lead now channel n in
    (
      rw e refl,
      standing-schedule_next k zones settings db lead now channel ∙ rw e refl,
      rw e (length-cancel_pending db lead.id "superseded"),
    )
