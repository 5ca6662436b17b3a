-- ===== src/Scoring/Reasons.antt =====
-- backend/app/agent/scoring.py: the reasons that a score is given with, which a lead's row keeps.
use realty_lead_ai_agent.Common.{ℕ}

pub data Factor : Type 0 where
  budget_match timeline financing responsiveness site_visit booked : Factor

pub data Detail : Type 0 where
  budget_not_shared no_inventory none_in_range : Detail
  budget_matches : ℕ → ℕ → Detail
  near_misses : ℕ → Detail
  timeline_not_shared : Detail
  buying_within buying_in_about months_out : ℕ → Detail
  loan_not_shared preapproved not_preapproved : Detail
  engaged replying early : ℕ → Detail
  no_reply visit_not_asked willing not_willing treated_as_hot : Detail

pub record ScoreReason : Type 0 where
  pub factor : Factor
  pub points : ℕ
  pub detail : Detail

abbrev pub reason : Factor → ℕ → Detail → ScoreReason
reason f p d = record { factor = f; points = p; detail = d }
