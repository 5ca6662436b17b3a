-- ===== src/QuietHours/Earliest.antt =====
-- The moment that `next_send_time` of backend/app/services/quiet_hours.py chooses.
use realty_lead_ai_agent.Common.{ℕ, ◌≤◌, ◌<◌, ◌≡◌, true, false, arith, inl, inr, Bool-cases}
use realty_lead_ai_agent.Zones.{Zone, IsRegular, hour_of, le-to_utc, to_utc-lt}
use realty_lead_ai_agent.QuietHours.{is_quiet_hour, candidate, next_send_time, in_window}

candidate_later : (l e : ℕ) → e < 24 → l < candidate l e
unfolding candidate
candidate_later l e h = ground arith

hour_of-candidate : (l e : ℕ) → e < 24 → hour_of (candidate l e) ≡ e
unfolding candidate
hour_of-candidate l e h = ground arith

-- From a quiet hour on, the window lasts until the candidate.
quiet_until :
    (l k s e : ℕ)
    → e < 24
    → in_window (hour_of l) s e ≡ true
    → l ≤ k
    → k < candidate l e
    → in_window (hour_of k) s e ≡ true
unfolding candidate
quiet_until l k s e he q h1 h2 = ground arith

-- A window is open at its end.
window_ends : (s e : ℕ) → in_window e s e ≡ false
window_ends s e = ground arith

module _ {z : Zone} (r : IsRegular z) (m s e : ℕ) (h : e < 24) where
  -- The time chosen is outside the window.
  pub next_send_time-not_quiet : is_quiet_hour (next_send_time m z s e) z s e ≡ false
  unfolding is_quiet_hour next_send_time
  next_send_time-not_quiet = ground (
    arith,
    r.round m (candidate (z.to_local m) e),
    candidate_later (z.to_local m) e h,
    hour_of-candidate (z.to_local m) e h,
    window_ends s e,
  )

  pub le-next_send_time : m ≤ next_send_time m z s e
  unfolding next_send_time
  le-next_send_time =
      ground
        (arith, le-to_utc r m (candidate (z.to_local m) e) (candidate_later (z.to_local m) e h))

  to_local_mono : (k : ℕ) → m ≤ k → z.to_local m ≤ z.to_local k
  to_local_mono k h1 = ground (arith, r.strict m k)

  quiet_before : (k : ℕ) → m ≤ k → k < next_send_time m z s e → is_quiet_hour k z s e ≡ true
  unfolding is_quiet_hour next_send_time
  quiet_before k h1 h2 = elim (Bool-cases (in_window (hour_of (z.to_local m)) s e)) [
    | inr n ↦ let soon : k < m = rw n at h2 in absurd (omega arith)
    | inl q ↦ quiet_until (z.to_local m) (z.to_local k) s e h q (to_local_mono k h1) (
        to_utc-lt r m k (candidate (z.to_local m) e)
          (omega (arith, candidate_later (z.to_local m) e h)) (rw q at h2))
  ]

  -- In a zone whose offset does not change, and with an end hour below 24, `next_send_time` is the
  -- earliest moment from `m` on that is outside the quiet window: it is outside, it is not before
  -- `m`, and every moment from `m` up to it is quiet.
  pub next_send_time_earliest :
      (is_quiet_hour (next_send_time m z s e) z s e ≡ false)
      × (m ≤ next_send_time m z s e)
      × ((k : ℕ) → m ≤ k → k < next_send_time m z s e → is_quiet_hour k z s e ≡ true)
  next_send_time_earliest = (next_send_time-not_quiet, le-next_send_time, quiet_before)
