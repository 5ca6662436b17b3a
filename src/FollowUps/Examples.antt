-- ===== src/FollowUps/Examples.antt =====
-- Tests of the nudges of one lead.
use realty_lead_ai_agent.Common.{
  [], ◌∷◌, ◌++◌, length, ◌≡◌, ◌↔◌, refl, some, none, true, arith, if◌then◌else◌, ◌==◌,
}
use realty_lead_ai_agent.Models.Enums.{ConsentStatus, Channel}
use realty_lead_ai_agent.Models.Rows.{Lead, FollowUpTask}
use realty_lead_ai_agent.Models.Settings.{default_settings}
use realty_lead_ai_agent.Models.Db.{latest}
use realty_lead_ai_agent.Zones.{resolve_timezone, kolkata_only, kolkata-IsRegular}
use realty_lead_ai_agent.Fixtures.{asha, nudge, office, afternoon}
use realty_lead_ai_agent.FollowUps.{cancel_pending, check_eligibility, max_attempts, schedule_next}
use realty_lead_ai_agent.FollowUps.Eligible.{IsAppropriate, check_eligibility_iff}
use realty_lead_ai_agent.FollowUps.Queue.{standing, standing-schedule_next, list_of}
use realty_lead_ai_agent.FollowUps.Schedule.{IsNudge, schedule_next_total, schedule_next-none}

check_eligibility_iff_example :
    ((check_eligibility office asha (some nudge) default_settings).ok ≡ true)
    ↔ IsAppropriate office asha (some nudge) default_settings
check_eligibility_iff_example = check_eligibility_iff office asha (some nudge) default_settings

standing-schedule_next_example :
    let (db', task) =
      schedule_next kolkata_only default_settings office asha afternoon Channel.whatsapp in
    standing 7 db' ≡ (if 7 == 7 then list_of task else standing 7 office)
standing-schedule_next_example =
    standing-schedule_next 7 kolkata_only default_settings office asha afternoon Channel.whatsapp

checked : (check_eligibility office asha none default_settings).ok ≡ true
unfolding check_eligibility max_attempts latest
checked = refl

schedule_next_total_example :
    let (db', returned) =
      schedule_next kolkata_only default_settings office asha afternoon Channel.whatsapp in
    (task : FollowUpTask) × (returned ≡ some task)
    × (db'.tasks ≡ (cancel_pending office asha.id "superseded").0.tasks ++ task ∷ [])
    × IsNudge kolkata_only default_settings asha afternoon Channel.whatsapp task
unfolding resolve_timezone
schedule_next_total_example =
    schedule_next_total kolkata_only default_settings office asha afternoon Channel.whatsapp
      kolkata-IsRegular (omega arith)
      ((check_eligibility_iff office asha none default_settings).0 checked)

-- She opts out.
abbrev gone : Lead
gone = record asha { consent_status = ConsentStatus.opted_out }

inappropriate : ¬ IsAppropriate office gone none default_settings
inappropriate a = a.consents refl

schedule_next-none_example :
    let (db', task) =
      schedule_next kolkata_only default_settings office gone afternoon Channel.whatsapp in
    (task ≡ none)
    × (standing 7 db' ≡ (if gone.id == 7 then [] else standing 7 office))
    × (length db'.tasks ≡ length office.tasks)
schedule_next-none_example =
    schedule_next-none kolkata_only default_settings office gone afternoon Channel.whatsapp 7
      inappropriate
