-- ===== src/Scoring/Bounds.antt =====
-- The lead score of backend/app/agent/scoring.py, its band and its explanation.
use realty_lead_ai_agent.Common.{
  ℕ, ◌+◌, ◌≤◌, ◌<◌, ◌≡◌, ◌⊎◌, Option, Bool, List, [], ◌∷◌, ◌++◌, arith,
}
use realty_lead_ai_agent.Models.Enums.{LeadStatus, LeadTemperature}
use realty_lead_ai_agent.Scoring.Reasons.{Factor, Detail, ScoreReason, reason}
use realty_lead_ai_agent.Scoring.{
  ScoringInput, total_points, budget_reason, timeline_reason, financing_reason,
  responsiveness_reason, site_visit_reason, base_reasons, score_lead, temperature_for,
}

budget_points : (x : ScoringInput) (prices : List ℕ) → (budget_reason x prices).points ≤ 30
unfolding budget_reason
budget_points x prices = ground arith

timeline_points : (m : Option ℕ) → (timeline_reason m).points ≤ 25
unfolding timeline_reason
timeline_points m = ground arith

financing_points : (b : Option Bool) → (financing_reason b).points ≤ 20
unfolding financing_reason
financing_points b = ground arith

responsiveness_points : (n : ℕ) → (responsiveness_reason n).points ≤ 15
unfolding responsiveness_reason
responsiveness_points n = ground arith

site_visit_points : (b : Option Bool) → (site_visit_reason b).points ≤ 10
unfolding site_visit_reason
site_visit_points b = ground arith

total_points-append :
    (rs ss : List ScoreReason) → total_points (rs ++ ss) ≡ total_points rs + total_points ss
total_points-append [] ss = omega arith
total_points-append (r ∷ rs) ss = omega (arith, total_points-append rs ss)

total_points-le : (x : ScoringInput) (prices : List ℕ) → total_points (base_reasons x prices) ≤ 100
unfolding base_reasons
total_points-le x prices = omega (
  arith,
  budget_points x prices,
  timeline_points x.timeline_months,
  financing_points x.loan_preapproved,
  responsiveness_points x.inbound_message_count,
  site_visit_points x.site_visit_willing,
)

-- The band that a score falls in, by the thresholds 70 and 40.
abbrev pub IsBand : ℕ → LeadTemperature → Type 0
IsBand n LeadTemperature.hot = 70 ≤ n
IsBand n LeadTemperature.warm = (40 ≤ n) × (n < 70)
IsBand n LeadTemperature.cold = n < 40

temperature_for-IsBand : (n : ℕ) → IsBand n (temperature_for n)
unfolding temperature_for
temperature_for-IsBand n = ground arith

-- Every score is at most 100, and its temperature is the band of that very score, for booked leads
-- too.
pub score_lead-IsBand :
    (x : ScoringInput) (prices : List ℕ)
    → ((score_lead x prices).score ≤ 100)
      × IsBand (score_lead x prices).score (score_lead x prices).temperature
unfolding score_lead
score_lead-IsBand x prices =
    ground (
      arith,
      total_points-le x prices,
      temperature_for-IsBand (total_points (base_reasons x prices)),
    )

-- The points of the reasons add up to the score; only a booked lead may have a higher score, and
-- then the score is 70.
pub score_explained :
    (x : ScoringInput) (prices : List ℕ)
    → let s = score_lead x prices in
      (total_points s.reasons ≡ s.score)
      ⊎ ((x.status ≡ LeadStatus.booked) × (total_points s.reasons < 70) × (s.score ≡ 70))
unfolding score_lead
score_explained x prices = ground (
  arith,
  total_points-append (base_reasons x prices) (reason Factor.booked 0 Detail.treated_as_hot ∷ []),
)
