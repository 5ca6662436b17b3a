-- ===== src/Scheduling/Shape.antt =====
-- The slots of the grid that find_available_slots in backend/app/services/scheduling.py walks: on half
-- hours, of one length, and within the working hours of their day.
use realty_lead_ai_agent.Common.{
  ℕ, zero, suc, ◌+◌, ◌-◌, ◌*◌, ◌/◌, ◌%◌, ◌≤◌, ◌<◌, max, String, ◌≡◌, refl, ◌⊎◌, inl, inr, false,
  Bool-cases, Option, List, [], ◌∷◌, take, filter, All, Any, All-append, arith,
}
use realty_lead_ai_agent.Common.Int.{ℤ}
use realty_lead_ai_agent.Models.Rows.{Agent}
use realty_lead_ai_agent.Zones.{Zone, minute_us}
use realty_lead_ai_agent.GoogleCalendar.{Interval}
use realty_lead_ai_agent.Scheduling.{Slot, min_lead_time, overlaps, align}
use realty_lead_ai_agent.Scheduling.Grid.{is_free, grid, fitting, free_in, windows_at, free_on}
use realty_lead_ai_agent.Scheduling.Loop.{Fits-div}

abbrev pub half_hour : ℕ
half_hour = 30 * minute_us

module _ {ℓ κ} {A : Type ℓ} (P : A → Type κ) where
  pub All-take : (n : ℕ) (xs : List A) → All P xs → All P (take n xs)
  All-take zero xs h = tt
  All-take (suc n) [] h = tt
  All-take (suc n) (x ∷ xs) h = (h.0, All-take n xs h.1)

  pub All-weaken {κ'} :
      {Q : A → Type κ'} (f : (a : A) → P a → Q a) (xs : List A) → All P xs → All Q xs
  All-weaken f [] h = tt
  All-weaken f (x ∷ xs) h = (f x h.0, All-weaken f xs h.1)

align-le : (c : ℕ) → c ≤ align c
unfolding align
align-le c = ground arith

align-half_hour : (c : ℕ) → align c % half_hour ≡ 0
unfolding align
align-half_hour c = ground arith

-- A slot of so many microseconds, on a half hour, not before `earliest`, and within a window.
pub record IsSlot (earliest duration : ℕ) (ws : List Interval) (s : Slot) : Type 0 where
  pub lead_time : earliest ≤ s.starts_at
  pub half : s.starts_at % half_hour ≡ 0
  pub span : s.ends_at ≡ s.starts_at + duration
  pub in_hours : Any (λ w. (w.0 ≤ s.starts_at) × (s.ends_at ≤ w.1)) ws

module _ (duration : ℕ) (whole : duration % half_hour ≡ 0) where
  grid-IsSlot :
      (n c earliest start end : ℕ)
      → earliest ≤ c
      → start ≤ c
      → c % half_hour ≡ 0
      → (n ≡ 0) ⊎ (c + n * duration ≤ end)
      → All (IsSlot earliest duration ((start, end) ∷ [])) (grid duration n c)
  unfolding grid
  grid-IsSlot zero c earliest start end a b m f = tt
  grid-IsSlot (suc n) c earliest start end a b m f =
      let fits : c + duration + n * duration ≤ end = ground arith in
      (
        record { lead_time = a; half = m; span = refl; in_hours = inl (b, omega arith) },
        grid-IsSlot n (c + duration) earliest start end (omega arith) (omega arith) (omega arith)
            (inr fits),
      )

  pub fitting-IsSlot :
      0 < duration
      → (earliest : ℕ) (w : Interval)
      → All (IsSlot earliest duration (w ∷ [])) (fitting duration earliest w)
  unfolding fitting
  fitting-IsSlot positive earliest (start, end) =
      let c = align (max start earliest) in
      let above : max start earliest ≤ c = align-le (max start earliest) in
      grid-IsSlot ((end - c) / duration) c earliest start end (omega arith) (omega arith)
        (align-half_hour (max start earliest)) (Fits-div duration positive end c).1

  -- A window more in front, or after it.
  IsSlot-there :
      {earliest : ℕ} {ws : List Interval} (w : Interval) (s : Slot)
      → IsSlot earliest duration ws s
      → IsSlot earliest duration (w ∷ ws) s
  IsSlot-there w s h = record {
    lead_time = h.lead_time;
    half = h.half;
    span = h.span;
    in_hours = inr h.in_hours;
  }

  IsSlot-here :
      {earliest : ℕ} (ws : List Interval) (w : Interval) (s : Slot)
      → IsSlot earliest duration (w ∷ []) s
      → IsSlot earliest duration (w ∷ ws) s
  IsSlot-here ws w s h = record {
    lead_time = h.lead_time;
    half = h.half;
    span = h.span;
    in_hours = elim h.in_hours [ inl p ↦ inl p | inr never ↦ absurd never ];
  }

module _ (busy : List Interval) where
  -- Of the slots that are kept, none overlaps what is busy.
  All-free :
      (P : Slot → Type 0) (xs : List Slot)
      → All P xs
      → All (λ s. P s × (overlaps s busy ≡ false)) (filter (is_free busy) xs)
  All-free P [] h = tt
  All-free P (s ∷ xs) h = elim (Bool-cases (overlaps s busy)) [
    | inl e ↦ rw e (All-free P xs h.1)
    | inr e ↦ rw e ((h.0, e), All-free P xs h.1)
  ]

  module _ (duration : ℕ) (positive : 0 < duration) (whole : duration % half_hour ≡ 0) where
    abbrev pub Offer : ℕ → List Interval → Slot → Type 0
    Offer earliest ws s = IsSlot earliest duration ws s × (overlaps s busy ≡ false)

    free_in-Offer :
        (earliest : ℕ) (ws : List Interval)
        → All (Offer earliest ws) (free_in busy duration earliest ws)
    unfolding free_in
    free_in-Offer earliest [] = tt
    free_in-Offer earliest (w ∷ ws) =
        All-append (Offer earliest (w ∷ ws)) _ _
          (All-weaken _ (λ s h. (IsSlot-here duration whole ws w s h.0, h.1)) _
            (All-free (IsSlot earliest duration (w ∷ [])) _
              (fitting-IsSlot duration whole positive earliest w)))
          (All-weaken _ (λ s h. (IsSlot-there duration whole w s h.0, h.1)) _
            (free_in-Offer earliest ws))

    module _ (int_of : String → Option ℤ) (agent : Agent) (tz : Zone) (now : ℕ) where
      abbrev pub OfferOf : ℕ → Slot → Type 0
      OfferOf end s =
          (offset : ℕ) × (offset < end)
          × Offer (now + min_lead_time) (windows_at int_of agent tz now offset) s

      pub free_on-OfferOf :
          (days offset : ℕ)
          → All (OfferOf (offset + days)) (free_on busy duration int_of agent tz now days offset)
      unfolding free_on
      free_on-OfferOf zero offset = tt
      free_on-OfferOf (suc days) offset =
          All-append (OfferOf (offset + suc days)) _ _
            (All-weaken _ (λ s h. (offset, omega arith, h)) _
              (free_in-Offer (now + min_lead_time) (windows_at int_of agent tz now offset)))
            (All-weaken _ (λ s h. (h.0, omega (arith, h.1), h.2)) _
              (free_on-OfferOf days (suc offset)))
