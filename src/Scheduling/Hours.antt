-- ===== src/Scheduling/Hours.antt =====
-- The windows of _day_windows in backend/app/services/scheduling.py, and how far ahead they end.
use text.Mathlib.Text.{◌==◌ as str_eq}
use realty_lead_ai_agent.Common.{
  ℕ, ◌+◌, ◌*◌, ◌/◌, ◌%◌, ◌≤◌, ◌<◌, String, ◌≡◌, refl, ◌≢◌, inl, inr, if_rule, ◌&&◌, Bool-cases,
  Option, none, some, List, [], ◌∷◌, map, ltb, leb, if◌then◌else◌, All, arith,
}
use realty_lead_ai_agent.Common.Int.{ℤ, pos, negsuc}
use realty_lead_ai_agent.Models.Rows.{Agent}
use realty_lead_ai_agent.RateLimit.Store.{Reply, ok, raised, Reply-cases, ok_inj}
use realty_lead_ai_agent.Zones.{Zone, hour_us, minute_us, day_us, kolkata}
use realty_lead_ai_agent.GoogleCalendar.{Interval}
use realty_lead_ai_agent.Scheduling.{
  opening, hours_for, weekday_key, day_windows, time_of, parse_hhmm, before_colon, after_colon,
  span_of, combine,
}
use realty_lead_ai_agent.Scheduling.Grid.{windows_at}

-- A zone whose offset from UTC is the same all year.
pub record IsSteady (z : Zone) : Type 0 where
  pub shift : (m n : ℕ) → z.to_local (m + n) ≡ z.to_local m + n
  pub back : (m l : ℕ) → l ≤ z.to_local m → z.to_utc l ≤ m

pub kolkata-IsSteady : IsSteady kolkata
kolkata-IsSteady = record { shift = λ m n. omega arith; back = λ m l h. omega arith }

-- A time of day is within the day.
time_of-lt : (h m : Option ℤ) (t : ℕ) → time_of h m ≡ ok t → t < day_us
unfolding time_of
time_of-lt none m t e = absurd cc
time_of-lt (some (negsuc h)) m t e = absurd cc
time_of-lt (some (pos h)) none t e = absurd cc
time_of-lt (some (pos h)) (some (negsuc m)) t e = absurd cc
time_of-lt (some (pos h)) (some (pos m)) t e = elim (Bool-cases (ltb h 24 && ltb m 60)) [
  | inl c ↦ let f : h * hour_us + m * minute_us ≡ t = ok_inj (rw c at e) in ground arith
  | inr c ↦ absurd (refuse (rw c at e))
]
  where
    refuse : {t : ℕ} → raised ≢ ok t
    refuse e = cc

parse_hhmm-lt :
    (int_of : String → Option ℤ) (value : String) (t : ℕ)
    → parse_hhmm int_of value ≡ ok t
    → t < day_us
unfolding parse_hhmm
parse_hhmm-lt int_of value t e =
    let minute = after_colon value in
    time_of-lt (int_of (before_colon value))
      (if str_eq minute "" then some (pos 0) else int_of minute) t e

span_of-lt :
    (start end : Reply ℕ) (spans : List Interval)
    → ((t : ℕ) → end ≡ ok t → t < day_us)
    → span_of start end ≡ ok spans
    → All (λ w. w.1 < day_us) spans
span_of-lt raised end spans h e = absurd cc
span_of-lt (ok s) raised spans h e = absurd cc
span_of-lt (ok s) (ok t) spans h e =
    rw (← ok_inj e) (if_rule (All (λ (w : Interval). w.1 < day_us)) (leb t s) tt (h t refl, tt))

opening-lt :
    (int_of : String → Option ℤ) (hs : List String) (spans : List Interval)
    → opening int_of hs ≡ ok spans
    → All (λ w. w.1 < day_us) spans
unfolding opening
opening-lt int_of [] spans e = rw (← ok_inj e) tt
opening-lt int_of (a ∷ []) spans e = rw (← ok_inj e) tt
opening-lt int_of (a ∷ b ∷ []) spans e =
    span_of-lt (parse_hhmm int_of a) (parse_hhmm int_of b) spans (parse_hhmm-lt int_of b) e
opening-lt int_of (a ∷ b ∷ c ∷ rest) spans e = rw (← ok_inj e) tt

module _ {tz : Zone} (steady : IsSteady tz) where
  combine-le :
      (now offset days t : ℕ)
      → offset < days
      → t < day_us
      → combine tz ((tz.to_local now + offset * day_us) / day_us) t ≤ now + days * day_us
  combine-le now offset days t h k =
      let later = steady.shift now (days * day_us) in steady.back _ _ (omega (arith, later))

  -- Every window of these days ends within them.
  day_windows-le :
      (int_of : String → Option ℤ) (agent : Agent) (now offset days : ℕ) (ws : List Interval)
      → offset < days
      → day_windows int_of agent ((tz.to_local now + offset * day_us) / day_us) tz ≡ ok ws
      → All (λ w. w.1 ≤ now + days * day_us) ws
  unfolding day_windows
  day_windows-le int_of agent now offset days ws h e =
      let hours =
        hours_for (weekday_key ((tz.to_local now + offset * day_us) / day_us % 7))
          agent.working_hours in
      elim (Reply-cases (opening int_of hours)) [
        | inl r ↦ absurd (refuse (rw r at e))
        | inr (spans, r) ↦
            let same = ok_inj (rw r at e) in
            rw (← same) (placed spans (opening-lt int_of hours spans r))
      ]
    where
      refuse : raised ≢ ok ws
      refuse e = cc

      placed :
          (spans : List Interval)
          → All (λ w. w.1 < day_us) spans
          → All
              (λ (w : Interval). w.1 ≤ now + days * day_us)
              (map
                (λ s. (
                  combine tz ((tz.to_local now + offset * day_us) / day_us) s.0,
                  combine tz ((tz.to_local now + offset * day_us) / day_us) s.1,
                ))
                spans)
      placed [] l = tt
      placed (w ∷ spans) l = (combine-le now offset days w.1 h l.0, placed spans l.1)

  pub windows_at-le :
      (int_of : String → Option ℤ) (agent : Agent) (now offset days : ℕ)
      → offset < days
      → All (λ (w : Interval). w.1 ≤ now + days * day_us) (windows_at int_of agent tz now offset)
  windows_at-le int_of agent now offset days h =
      elim (Reply-cases
        (day_windows int_of agent ((tz.to_local now + offset * day_us) / day_us) tz)) [
          | inl r ↦ rw r tt
          | inr (ws, r) ↦ rw r (day_windows-le int_of agent now offset days ws h r)
        ]
