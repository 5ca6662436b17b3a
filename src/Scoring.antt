-- ===== src/Scoring.antt =====
-- backend/app/agent/scoring.py: the rule-based lead score. A price or a budget is a count of paise,
-- since the columns are `Numeric(14, 2)`. The text of a reason is a constructor of `Detail` with the
-- numbers that the source interpolates.
pub mod Reasons
pub mod Bounds
pub mod Budget
mod Examples
use realty_lead_ai_agent.Common.{
  ℕ, ◌+◌, ◌*◌, ◌/◌, ◌^◌, max, Bool, true, false, ◌&&◌, ◌||◌, not, Option, none, some, List, [], ◌∷◌,
  ◌++◌, map, ltb, leb, if◌then◌else◌, length, filter, is_none, get_or, is_empty,
}
use realty_lead_ai_agent.Models.Enums.{
  LeadStatus, LeadTemperature, ListingStatus, is_available, is_booked,
}
use realty_lead_ai_agent.Models.Listings.{Listing}
use realty_lead_ai_agent.Scoring.Reasons.{Factor, Detail, ScoreReason, reason}

abbrev pub hot_threshold : ℕ
hot_threshold = 70

abbrev pub warm_threshold : ℕ
warm_threshold = 40

abbrev pub max_budget_points : ℕ
max_budget_points = 30

abbrev pub max_timeline_points : ℕ
max_timeline_points = 25

abbrev pub max_financing_points : ℕ
max_financing_points = 20

abbrev pub max_responsiveness_points : ℕ
max_responsiveness_points = 15

abbrev pub max_site_visit_points : ℕ
max_site_visit_points = 10

-- `Decimal("0.15")`, in hundredths
abbrev pub near_miss_tolerance : ℕ
near_miss_tolerance = 15

pub record LeadScore : Type 0 where
  pub score : ℕ
  pub temperature : LeadTemperature
  pub reasons : List ScoreReason

-- Amounts and months are not negative.
pub record ScoringInput : Type 0 where
  pub budget_min : Option ℕ
  pub budget_max : Option ℕ
  pub timeline_months : Option ℕ
  pub loan_preapproved : Option Bool
  pub site_visit_willing : Option Bool
  pub inbound_message_count : ℕ
  pub status : LeadStatus

unfoldable pub temperature_for : ℕ → LeadTemperature
temperature_for score =
    if leb hot_threshold score
    then LeadTemperature.hot
    else if leb warm_threshold score
    then LeadTemperature.warm
    else LeadTemperature.cold

-- `Decimal(10) ** 12` rupees, the bound when no maximum was stated
abbrev pub no_maximum : ℕ
no_maximum = 10 ^ 12 * 100

abbrev pub low_of : ScoringInput → ℕ
low_of x = get_or x.budget_min 0

abbrev pub high_of : ScoringInput → ℕ
high_of x = get_or x.budget_max no_maximum

abbrev pub in_budget : ScoringInput → ℕ → Bool
in_budget x p = leb (low_of x) p && leb p (high_of x)

-- `high < p <= high * (1 + NEAR_MISS_TOLERANCE)`, multiplied out
abbrev pub is_near_miss : ScoringInput → ℕ → Bool
is_near_miss x p = ltb (high_of x) p && leb (p * 100) (high_of x * (100 + near_miss_tolerance))

unfoldable pub budget_reason : ScoringInput → List ℕ → ScoreReason
budget_reason x prices =
    if is_none x.budget_max && is_none x.budget_min
    then reason Factor.budget_match 0 Detail.budget_not_shared
    else if is_empty prices
    then reason Factor.budget_match 0 Detail.no_inventory
    else let matches = filter (in_budget x) prices in
      if not (is_empty matches)
      then reason Factor.budget_match max_budget_points
          (Detail.budget_matches (length matches) (length prices))
      else let near = filter (is_near_miss x) prices in
        if not (is_empty near)
        then reason Factor.budget_match (max_budget_points / 2) (Detail.near_misses (length near))
        else reason Factor.budget_match 0 Detail.none_in_range

unfoldable pub timeline_reason : Option ℕ → ScoreReason
timeline_reason none = reason Factor.timeline 0 Detail.timeline_not_shared
timeline_reason (some months) =
    if leb months 3
    then reason Factor.timeline max_timeline_points (Detail.buying_within months)
    else if leb months 6
    then reason Factor.timeline 15 (Detail.buying_in_about months)
    else if leb months 12
    then reason Factor.timeline 8 (Detail.buying_in_about months)
    else reason Factor.timeline 3 (Detail.months_out months)

unfoldable pub financing_reason : Option Bool → ScoreReason
financing_reason none = reason Factor.financing 0 Detail.loan_not_shared
financing_reason (some true) = reason Factor.financing max_financing_points Detail.preapproved
financing_reason (some false) = reason Factor.financing 3 Detail.not_preapproved

unfoldable pub responsiveness_reason : ℕ → ScoreReason
responsiveness_reason count =
    if leb 6 count
    then reason Factor.responsiveness max_responsiveness_points (Detail.engaged count)
    else if leb 3 count
    then reason Factor.responsiveness 10 (Detail.replying count)
    else if leb 1 count
    then reason Factor.responsiveness 5 (Detail.early count)
    else reason Factor.responsiveness 0 Detail.no_reply

unfoldable pub site_visit_reason : Option Bool → ScoreReason
site_visit_reason none = reason Factor.site_visit 0 Detail.visit_not_asked
site_visit_reason (some true) = reason Factor.site_visit max_site_visit_points Detail.willing
site_visit_reason (some false) = reason Factor.site_visit 0 Detail.not_willing

-- `sum(r.points for r in reasons)`
abbrev pub total_points : List ScoreReason → ℕ
total_points [] = 0
total_points (r ∷ rs) = r.points + total_points rs

unfoldable pub base_reasons : ScoringInput → List ℕ → List ScoreReason
base_reasons x prices =
    budget_reason x prices
    ∷ timeline_reason x.timeline_months
    ∷ financing_reason x.loan_preapproved
    ∷ responsiveness_reason x.inbound_message_count
    ∷ site_visit_reason x.site_visit_willing
    ∷ []

unfoldable pub score_lead : ScoringInput → List ℕ → LeadScore
score_lead x prices =
    let reasons = base_reasons x prices in
    let total = total_points reasons in
    if is_booked x.status
    then record {
      score = max total hot_threshold;
      temperature = LeadTemperature.hot;
      reasons = reasons ++ reason Factor.booked 0 Detail.treated_as_hot ∷ [];
    }
    else record { score = total; temperature = temperature_for total; reasons = reasons }

unfoldable pub active_listing_prices : List Listing → List ℕ
active_listing_prices listings =
    map (λ l. l.price) (filter (λ l. l.is_active && is_available l.status) listings)
