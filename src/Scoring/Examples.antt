-- ===== src/Scoring/Examples.antt =====
-- Tests of the scoring at one lead.
use realty_lead_ai_agent.Common.{ℕ, ◌≤◌, ◌<◌, ◌≡◌, ◌⊎◌, ◌↔◌, true, some, none, List, [], ◌∷◌, Any}
use realty_lead_ai_agent.Models.Enums.{LeadStatus}
use realty_lead_ai_agent.Scoring.{ScoringInput, score_lead, total_points, budget_reason}
use realty_lead_ai_agent.Scoring.Bounds.{IsBand, score_lead-IsBand, score_explained}
use realty_lead_ai_agent.Scoring.Budget.{
  HasBudget, IsMatch, IsStretch, budget_full_iff, budget_half_iff,
}

-- Up to 50 lakh, in three months, with a loan; 4 messages.
abbrev buyer : ScoringInput
buyer = record {
  budget_min = none;
  budget_max = some 5_000_000;
  timeline_months = some 3;
  loan_preapproved = some true;
  site_visit_willing = some true;
  inbound_message_count = 4;
  status = LeadStatus.engaged;
}

abbrev prices : List ℕ
prices = 4_500_000 ∷ 5_500_000 ∷ []

score_lead-IsBand_example :
    ((score_lead buyer prices).score ≤ 100)
    × IsBand (score_lead buyer prices).score (score_lead buyer prices).temperature
score_lead-IsBand_example = score_lead-IsBand buyer prices

score_explained_example :
    let s = score_lead buyer prices in
    (total_points s.reasons ≡ s.score)
    ⊎ ((buyer.status ≡ LeadStatus.booked) × (total_points s.reasons < 70) × (s.score ≡ 70))
score_explained_example = score_explained buyer prices

budget_full_iff_example :
    ((budget_reason buyer prices).points ≡ 30) ↔ (HasBudget buyer × Any (IsMatch buyer) prices)
budget_full_iff_example = budget_full_iff buyer prices

budget_half_iff_example :
    ((budget_reason buyer prices).points ≡ 15)
    ↔ (HasBudget buyer × (¬ Any (IsMatch buyer) prices) × Any (IsStretch buyer) prices)
budget_half_iff_example = budget_half_iff buyer prices
