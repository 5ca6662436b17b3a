-- ===== src/RateLimit/Examples.antt =====
-- Tests of the limiter: two events to a window.
use realty_lead_ai_agent.Common.{◌≡◌, ◌≢◌, refl, inl, none, false, min, String, arith}
use realty_lead_ai_agent.RateLimit.Store.{table, table-IsUp, Table, empty_table}
use realty_lead_ai_agent.RateLimit.{Limit, limit_key, check}
use realty_lead_ai_agent.RateLimit.Window.{
  IsRejection, rejected_needs_count, check_clears, count_allowed, window_budget,
}

abbrev digest : String → String
digest s = s

abbrev two : Limit
two = record { name = "test"; max_events = 2; window_seconds = 60 }

abbrev full_table : Table
full_table = record { counts = λ _. 2; lefts = λ _. none }

third_rejected : (check table digest two "x" full_table).0.allowed ≡ false
unfolding check
third_rejected = refl

rejected_needs_count_example : IsRejection table two (limit_key digest two "x") full_table
rejected_needs_count_example = rejected_needs_count table digest two "x" full_table third_rejected

check_clears_example :
    (check table digest two "x" empty_table).1.lefts (limit_key digest two "x") ≢ none
check_clears_example = check_clears table-IsUp digest two "x" empty_table (omega arith) (inl refl)

window_budget_example : count_allowed table-IsUp digest two "x" 5 empty_table ≡ min 5 2
window_budget_example = window_budget table-IsUp digest two "x" 5 empty_table (omega arith) refl
