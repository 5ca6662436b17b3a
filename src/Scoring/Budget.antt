-- ===== src/Scoring/Budget.antt =====
-- The budget factor of backend/app/agent/scoring.py, against the inventory itself.
use realty_lead_ai_agent.Common.{
  ℕ, ◌*◌, ◌≤◌, ◌<◌, ◌≡◌, ◌⊎◌, ◌↔◌, true, false, none, List, arith, filter, is_empty, Any, Any-map,
  filter_nonempty_iff, ◌≢◌,
}
use realty_lead_ai_agent.Scoring.{
  ScoringInput, budget_reason, low_of, high_of, in_budget, is_near_miss,
}

abbrev pub HasBudget : ScoringInput → Type 0
HasBudget x = (x.budget_min ≢ none) ⊎ (x.budget_max ≢ none)

-- A listing that the lead can afford.
abbrev pub IsMatch : ScoringInput → ℕ → Type 0
IsMatch x p = (low_of x ≤ p) × (p ≤ high_of x)

-- A listing at most 15% above the highest price that the lead stated.
abbrev pub IsStretch : ScoringInput → ℕ → Type 0
IsStretch x p = (high_of x < p) × (100 * p ≤ 115 * high_of x)

-- The code's tests mean what they say.
IsMatch-sound : (x : ScoringInput) (p : ℕ) → in_budget x p ≡ true → IsMatch x p
IsMatch-sound x p h = ground arith

match_complete : (x : ScoringInput) (p : ℕ) → IsMatch x p → in_budget x p ≡ true
match_complete x p h = ground arith

IsStretch-sound : (x : ScoringInput) (p : ℕ) → is_near_miss x p ≡ true → IsStretch x p
IsStretch-sound x p h = ground arith

stretch_complete : (x : ScoringInput) (p : ℕ) → IsStretch x p → is_near_miss x p ≡ true
stretch_complete x p h = ground arith

module _ (x : ScoringInput) (prices : List ℕ) where
  matches_iff : (is_empty (filter (in_budget x) prices) ≡ false) ↔ Any (IsMatch x) prices
  matches_iff =
      let found = filter_nonempty_iff (in_budget x) prices in
      (
        (λ h. Any-map (IsMatch-sound x) prices (found.0 h)),
        (λ h. found.1 (Any-map (match_complete x) prices h)),
      )

  near_iff : (is_empty (filter (is_near_miss x) prices) ≡ false) ↔ Any (IsStretch x) prices
  near_iff =
      let found = filter_nonempty_iff (is_near_miss x) prices in
      (
        (λ h. Any-map (IsStretch-sound x) prices (found.0 h)),
        (λ h. found.1 (Any-map (stretch_complete x) prices h)),
      )

  -- The budget earns all 30 points exactly when the lead stated one and some listing is within it.
  pub budget_full_iff :
      ((budget_reason x prices).points ≡ 30) ↔ (HasBudget x × Any (IsMatch x) prices)
  unfolding budget_reason
  budget_full_iff = ground (arith, matches_iff)

  -- The budget earns 15 points exactly when the lead stated one, no listing is within it and some
  -- listing is at most 15% above the highest price.
  pub budget_half_iff :
      ((budget_reason x prices).points ≡ 15)
      ↔ (HasBudget x × (¬ Any (IsMatch x) prices) × Any (IsStretch x) prices)
  unfolding budget_reason
  budget_half_iff = ground (arith, matches_iff, near_iff)
