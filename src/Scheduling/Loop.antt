-- ===== src/Scheduling/Loop.antt =====
-- The loops of find_available_slots in backend/app/services/scheduling.py give the free slots of the
-- grid, cut off at the limit.
use mathlib.Core.List.{append-nil, append_assoc}
use native.Mathlib.Nat.{lt-div-mul-add, div-mul-le_self, zero-div}
use realty_lead_ai_agent.Common.{
  ℕ, zero, suc, ◌+◌, ◌-◌, ◌*◌, ◌/◌, ◌≤◌, ◌<◌, max, String, ◌≡◌, refl, ap, ◌∙◌, sym, ◌≢◌, ◌⊎◌, inl,
  inr, true, false, Option, List, [], ◌∷◌, ◌++◌, leb, if◌then◌else◌, length, filter, take, arith,
  Bool-cases, length-append,
}
use realty_lead_ai_agent.Common.Int.{ℤ}
use realty_lead_ai_agent.Models.Rows.{Agent}
use realty_lead_ai_agent.RateLimit.Store.{ok, raised, Reply-cases}
use realty_lead_ai_agent.Zones.{Zone, day_us}
use realty_lead_ai_agent.GoogleCalendar.{Interval}
use realty_lead_ai_agent.Scheduling.{
  Slot, slot_at, min_lead_time, overlaps, align, day_windows, Scan, going, full, scan_window,
  scan_windows, scan_days, rounds, slots_of,
}
use realty_lead_ai_agent.Scheduling.Grid.{is_free, grid, fitting, free_in, free_on}

-- The scan of a list of free slots.
abbrev pub cut : ℕ → List Slot → Scan
cut lim xs = if leb lim (length xs) then full (take lim xs) else going xs

module _ {ℓ} {A : Type ℓ} where
  take-append : (xs ys : List A) → take (length xs) (xs ++ ys) ≡ xs
  take-append [] ys = refl
  take-append (x ∷ xs) ys = simp (take-append xs ys)

  pub take-append-le : (n : ℕ) (xs ys : List A) → n ≤ length xs → take n (xs ++ ys) ≡ take n xs
  take-append-le zero xs ys h = refl
  take-append-le (suc n) [] ys h = absurd (omega arith)
  take-append-le (suc n) (x ∷ xs) ys h = simp (take-append-le n xs ys (omega arith))

  take_all : (n : ℕ) (xs : List A) → length xs ≤ n → take n xs ≡ xs
  take_all zero [] h = refl
  take_all zero (x ∷ xs) h = absurd (omega arith)
  take_all (suc n) [] h = refl
  take_all (suc n) (x ∷ xs) h = simp (take_all n xs (omega arith))

cut_full : (lim : ℕ) (xs : List Slot) → lim ≤ length xs → cut lim xs ≡ full (take lim xs)
cut_full lim xs h = ground arith

cut_going : (lim : ℕ) (xs : List Slot) → length xs < lim → cut lim xs ≡ going xs
cut_going lim xs h = ground arith

cut-append : (lim : ℕ) (xs ys : List Slot) → length xs ≡ lim → cut lim (xs ++ ys) ≡ full xs
cut-append lim xs ys h =
    let most : lim ≤ length (xs ++ ys) = omega (arith, length-append xs ys) in
    cut_full lim (xs ++ ys) most ∙ ap full (ap (λ n. take n (xs ++ ys)) (sym h) ∙ take-append xs ys)

pub slots_of-cut : (lim : ℕ) (xs : List Slot) → slots_of (cut lim xs) ≡ take lim xs
slots_of-cut lim xs = elim (Bool-cases (leb lim (length xs))) [
  | inl e ↦ rw e refl
  | inr e ↦ rw e (sym (take_all lim xs (ground arith)))
]

module _ (duration : ℕ) (positive : 0 < duration) where
  -- So many slots fit between the cursor and the end.
  abbrev pub Fits : ℕ → ℕ → ℕ → Type 0
  Fits n cursor end = (end < cursor + suc n * duration) × ((n ≡ 0) ⊎ (cursor + n * duration ≤ end))

  Fits-next : (n end cursor : ℕ) → Fits (suc n) cursor end → Fits n (cursor + duration) end
  Fits-next n end cursor h = ground arith

  pub Fits-div : (end cursor : ℕ) → Fits ((end - cursor) / duration) cursor end
  Fits-div end cursor =
      let a = end - cursor in
      let above : a < a / duration * duration + duration = lt-div-mul-add positive in
      let below = div-mul-le_self a duration in
      elim (Bool-cases (leb cursor end)) [
        | inl e ↦ (omega arith, inr (ground arith))
        | inr e ↦
            let none_left : a ≡ 0 = ground arith in
            (omega arith, inl (ap (λ b. b / duration) none_left ∙ zero-div duration))
      ]

module _ (busy : List Interval) (duration limit : ℕ) (positive : 0 < duration) where
  abbrev lim : ℕ
  lim = max limit 1

  scan_window-grid :
      (fuel n end cursor : ℕ) (slots : List Slot)
      → n < fuel
      → Fits duration positive n cursor end
      → length slots < lim
      → scan_window busy duration limit fuel end cursor slots
        ≡ cut lim (slots ++ filter (is_free busy) (grid duration n cursor))
  unfolding scan_window grid
  scan_window-grid zero n end cursor slots f h k = absurd (omega arith)
  scan_window-grid (suc fuel) zero end cursor slots f h k =
      let e : leb (cursor + duration) end ≡ false = ground arith in
      rw (scan_window, e, append-nil slots) (sym (cut_going lim slots k))
  scan_window-grid (suc fuel) (suc n) end cursor slots f h k =
      let e : leb (cursor + duration) end ≡ true = ground arith in
      let next = Fits-next duration positive n end cursor h in
      elim (Bool-cases (overlaps (slot_at duration cursor) busy)) [
        | inl taken ↦
            rw (scan_window, e, taken)
              (scan_window-grid fuel n end (cursor + duration) slots (omega arith) next k)
        | inr free ↦
            let s = slot_at duration cursor in
            let rest = filter (is_free busy) (grid duration n (cursor + duration)) in
            let size : length (slots ++ s ∷ []) ≡ length slots + 1 = length-append slots (s ∷ []) in
            let regroup = ap (cut lim) (append_assoc slots (s ∷ []) rest) in
            elim (Bool-cases (leb limit (length (slots ++ s ∷ [])))) [
              | inl hit ↦
                  rw (scan_window, e, free, hit)
                    (sym (cut-append lim (slots ++ s ∷ []) rest (ground arith)) ∙ regroup)
              | inr miss ↦
                  rw (scan_window, e, free, miss)
                    (scan_window-grid fuel n end (cursor + duration) (slots ++ s ∷ []) (omega arith)
                        next (ground arith)
                      ∙ regroup)
            ]
      ]

  -- Cutting off once more changes nothing.
  cut-full : (xs ys : List Slot) → lim ≤ length xs → full (take lim xs) ≡ cut lim (xs ++ ys)
  cut-full xs ys h =
      let most : lim ≤ length (xs ++ ys) = omega (arith, length-append xs ys) in
      sym (cut_full lim (xs ++ ys) most ∙ ap full (take-append-le lim xs ys h))

  scan_windows-grid :
      (earliest : ℕ) (ws : List Interval) (slots : List Slot)
      → scan_windows busy duration limit earliest ws (cut lim slots)
        ≡ cut lim (slots ++ free_in busy duration earliest ws)
  unfolding scan_windows free_in fitting
  scan_windows-grid earliest [] slots = ap (cut lim) (sym (append-nil slots))
  scan_windows-grid earliest ((start, end) ∷ ws) slots =
      let cursor = align (max start earliest) in
      let here = filter (is_free busy) (grid duration ((end - cursor) / duration) cursor) in
      let rest = free_in busy duration earliest ws in
      elim (Bool-cases (leb lim (length slots))) [
        | inl e ↦ rw e (cut-full slots (here ++ rest) (ground arith))
        | inr e ↦
            rw
              (
                e,
                scan_window-grid (rounds busy duration limit end cursor) ((end - cursor) / duration)
                    end cursor slots (omega arith) (Fits-div duration positive end cursor)
                    (ground arith),
              )
              (scan_windows-grid earliest ws (slots ++ here)
                ∙ ap (cut lim) (append_assoc slots here rest))
      ]

  scan_windows-grid-going :
      (earliest : ℕ) (ws : List Interval) (slots : List Slot)
      → length slots < lim
      → scan_windows busy duration limit earliest ws (going slots)
        ≡ cut lim (slots ++ free_in busy duration earliest ws)
  scan_windows-grid-going earliest ws slots h =
      ap (scan_windows busy duration limit earliest ws) (sym (cut_going lim slots h))
      ∙ scan_windows-grid earliest ws slots

  module _ (int_of : String → Option ℤ) (agent : Agent) (tz : Zone) (now : ℕ) where
    scan_days-next :
        (days offset : ℕ) (slots : List Slot) (ws : List Interval)
        → day_windows int_of agent ((tz.to_local now + offset * day_us) / day_us) tz ≡ ok ws
        → scan_days busy duration limit int_of agent tz now (suc days) offset (going slots)
          ≡ scan_days busy duration limit int_of agent tz now days
              (suc offset)
              (scan_windows busy duration limit (now + min_lead_time) ws (going slots))
    unfolding scan_days
    scan_days-next days offset slots ws e = rw (scan_days, e) refl

    scan_days-stop :
        (days offset : ℕ) (slots : List Slot)
        → day_windows int_of agent ((tz.to_local now + offset * day_us) / day_us) tz ≡ raised
        → scan_days busy duration limit int_of agent tz now (suc days) offset (going slots) ≡ raised
    unfolding scan_days
    scan_days-stop days offset slots e = rw (scan_days, e) refl

    -- The scan stops at a day that is unreadable, or has the free slots up to the limit.
    pub scan_days-grid :
        (days offset : ℕ) (slots : List Slot)
        → (scan_days busy duration limit int_of agent tz now days offset (cut lim slots) ≡ raised)
          ⊎ (scan_days busy duration limit int_of agent tz now days offset (cut lim slots)
              ≡ ok (cut lim (slots ++ free_on busy duration int_of agent tz now days offset)))
    unfolding scan_days free_on
    scan_days-grid zero offset slots = inr (ap (λ xs. ok (cut lim xs)) (sym (append-nil slots)))
    scan_days-grid (suc days) offset slots =
        let day = (tz.to_local now + offset * day_us) / day_us in
        elim (Bool-cases (leb lim (length slots))) [
          | inl e ↦ rw e (
              inr (
                ap ok (
                  cut-full slots (free_on busy duration int_of agent tz now (suc days) offset)
                    (ground arith))))
          | inr e ↦ elim (Reply-cases (day_windows int_of agent day tz)) [
            | inl r ↦ rw e (inl (scan_days-stop days offset slots r))
            | inr (ws, r) ↦
                let here = free_in busy duration (now + min_lead_time) ws in
                let rest = free_on busy duration int_of agent tz now days (suc offset) in
                let step =
                  scan_days-next days offset slots ws r
                  ∙ ap (scan_days busy duration limit int_of agent tz now days (suc offset))
                      (scan_windows-grid-going (now + min_lead_time) ws slots (ground arith)) in
                rw e (elim (scan_days-grid days (suc offset) (slots ++ here)) [
                  | inl q ↦ inl (step ∙ q)
                  | inr q ↦
                      inr (
                        rw r (step ∙ q ∙ ap (λ xs. ok (cut lim xs)) (append_assoc slots here rest)))
                ])
          ]
        ]

    -- Where every day is readable it never stops short.
    pub scan_days-total :
        ((day : ℕ) → day_windows int_of agent day tz ≢ raised)
        → (days offset : ℕ) (scan : Scan)
        → scan_days busy duration limit int_of agent tz now days offset scan ≢ raised
    unfolding scan_days
    scan_days-total h zero offset scan e = absurd cc
    scan_days-total h (suc days) offset (full slots) e = absurd cc
    scan_days-total h (suc days) offset (going slots) e =
        let day = (tz.to_local now + offset * day_us) / day_us in
        elim (Reply-cases (day_windows int_of agent day tz)) [
          | inl r ↦ h day r
          | inr (ws, r) ↦
              scan_days-total h days (suc offset)
                (scan_windows busy duration limit (now + min_lead_time) ws (going slots))
                (sym (scan_days-next days offset slots ws r) ∙ e)
        ]
