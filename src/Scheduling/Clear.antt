-- ===== src/Scheduling/Clear.antt =====
-- What keeps the slots of backend/app/services/scheduling.py clear of the agent's appointments.
use mathlib.Core.List.{append-nil}
use realty_lead_ai_agent.Common.{
  ℕ, ◌≤◌, ◌≡◌, refl, ◌∙◌, sym, ◌≢◌, ◌⊎◌, inl, inr, Bool, false, ◌||◌, ◌&&◌, Bool-cases,
  Option-cases, List, [], ◌∷◌, ◌++◌, map, ltb, filter, All, arith,
}
use realty_lead_ai_agent.Models.Db.{Db}
use realty_lead_ai_agent.Models.Rows.{Agent, Appointment}
use realty_lead_ai_agent.RateLimit.Store.{ok}
use realty_lead_ai_agent.GoogleCalendar.{
  Interval, CalendarReply, answered, revoked, not_connected, unreachable, crashed,
}
use realty_lead_ai_agent.Scheduling.{
  Services, Slot, overlaps, busy_intervals, appointment_intervals, is_live, blocks, extend,
  is_connected,
}

-- The appointment is not in the way of the slot: it is another agent's, is not pending or confirmed
-- any more, or lies before or after.
abbrev pub Apart : ℕ → Slot → Appointment → Type 0
Apart agent_id s a =
    (a.agent_id ≢ agent_id)
    ⊎ (is_live a.status ≡ false)
    ⊎ (a.ends_at ≤ s.starts_at)
    ⊎ (s.ends_at ≤ a.starts_at)

pub overlaps-append :
    (s : Slot) (xs ys : List Interval) → overlaps s (xs ++ ys) ≡ false → overlaps s xs ≡ false
unfolding overlaps
overlaps-append s [] ys h = refl
overlaps-append s ((start, end) ∷ xs) ys h = ground (arith, overlaps-append s xs ys)

Apart-outside :
    (agent_id : ℕ) (s : Slot) (from to : ℕ) (a : Appointment)
    → from ≤ s.starts_at
    → s.ends_at ≤ to
    → blocks agent_id from to a ≡ false
    → Apart agent_id s a
Apart-outside agent_id s from to a f t e = ground arith

Apart-clear :
    (agent_id : ℕ) (s : Slot) (a : Appointment)
    → (ltb s.starts_at a.ends_at && ltb a.starts_at s.ends_at) ≡ false
    → Apart agent_id s a
Apart-clear agent_id s a h = ground arith

-- The appointments outside the window are no nearer.
pub Apart-free :
    (agent_id : ℕ) (s : Slot) (from to : ℕ) (rows : List Appointment)
    → from ≤ s.starts_at
    → s.ends_at ≤ to
    → overlaps s (map (λ a. (a.starts_at, a.ends_at)) (filter (blocks agent_id from to) rows))
      ≡ false
    → All (Apart agent_id s) rows
unfolding overlaps
Apart-free agent_id s from to [] f t h = tt
Apart-free agent_id s from to (a ∷ rows) f t h = elim (Bool-cases (blocks agent_id from to a)) [
  | inl e ↦
      let parts : ((ltb s.starts_at a.ends_at && ltb a.starts_at s.ends_at) || _) ≡ false =
        rw e at h in
      let both = split parts in
      (Apart-clear agent_id s a both.0, Apart-free agent_id s from to rows f t both.1)
  | inr e ↦
      (Apart-outside agent_id s from to a f t e, Apart-free agent_id s from to rows f t (rw e at h))
]
  where
    split : {x y : Bool} → (x || y) ≡ false → (x ≡ false) × (y ≡ false)
    split h = ground arith

same : (own busy : List Interval) → ok own ≡ ok busy → busy ≡ own ++ []
same own busy e = let f : busy ≡ own = cc in f ∙ sym (append-nil own)

extend-own :
    (own : List Interval) (r : CalendarReply (List Interval)) (busy : List Interval)
    → extend own r ≡ ok busy
    → (others : List Interval) × (busy ≡ own ++ others)
extend-own own (answered others) busy e = (others, cc)
extend-own own revoked busy e = ([], same own busy e)
extend-own own not_connected busy e = ([], same own busy e)
extend-own own unreachable busy e = ([], same own busy e)
extend-own own crashed busy e = absurd cc

pub busy-own :
    (services : Services) (db : Db) (agent : Agent) (from to now : ℕ) (busy : List Interval)
    → busy_intervals services db agent from to now ≡ ok busy
    → (others : List Interval) × (busy ≡ appointment_intervals db agent.id from to ++ others)
unfolding busy_intervals
busy-own services db agent from to now busy e =
    let own = appointment_intervals db agent.id from to in
    elim (Option-cases services.calendar) [
      | inl n ↦ ([], same own busy (rw (busy_intervals, n) at e))
      | inr (calendar, c) ↦ elim (Bool-cases (is_connected agent)) [
        | inl k ↦
            extend-own own (calendar.free_busy agent from to now) busy
              (rw (busy_intervals, c, k) at e)
        | inr k ↦ ([], same own busy (rw (busy_intervals, c, k) at e))
      ]
    ]
