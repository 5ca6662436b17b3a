-- ===== src/QuietHours/Examples.antt =====
-- A test of the quiet hours: a nudge that is due at 21:30 in India.
use realty_lead_ai_agent.Common.{ℕ, ◌≤◌, ◌<◌, ◌≡◌, refl, true, false, arith}
use realty_lead_ai_agent.Fixtures.{night}
use realty_lead_ai_agent.Zones.{kolkata, kolkata-IsRegular}
use realty_lead_ai_agent.QuietHours.{candidate, is_quiet_hour, next_send_time}
use realty_lead_ai_agent.QuietHours.Earliest.{next_send_time_earliest}

-- It waits for 9:00.
nine_in_the_morning : next_send_time night kolkata 21 9 ≡ 271_800_000_000
unfolding next_send_time is_quiet_hour candidate
nine_in_the_morning = refl

next_send_time_earliest_example :
    (is_quiet_hour (next_send_time night kolkata 21 9) kolkata 21 9 ≡ false)
    × (night ≤ next_send_time night kolkata 21 9)
    × ((k : ℕ)
        → night ≤ k
        → k < next_send_time night kolkata 21 9
        → is_quiet_hour k kolkata 21 9 ≡ true)
next_send_time_earliest_example = next_send_time_earliest kolkata-IsRegular night 21 9 (omega arith)
