-- ===== src/Scheduling/Open.antt =====
-- What find_available_slots of backend/app/services/scheduling.py offers: slots that lie ahead, in the
-- agent's working hours, and clear of every appointment of theirs.
use realty_lead_ai_agent.Common.{
  ℕ, ◌+◌, ◌*◌, ◌%◌, ◌≤◌, ◌<◌, max, ◌≡◌, refl, ◌∙◌, sym, ◌≢◌, inl, inr, List, [], ◌∷◌, ◌++◌, All,
  Any, arith,
}
use realty_lead_ai_agent.Models.Db.{Db}
use realty_lead_ai_agent.Models.Enums.{AppointmentType}
use realty_lead_ai_agent.Models.Rows.{Agent}
use realty_lead_ai_agent.RateLimit.Store.{ok, raised, Reply-cases, ok_inj}
use realty_lead_ai_agent.Zones.{minute_us, day_us, resolve_timezone}
use realty_lead_ai_agent.GoogleCalendar.{Interval}
use realty_lead_ai_agent.Scheduling.{
  Services, Slot, slot_minutes, min_lead_time, find_available_slots, busy_intervals,
  appointment_intervals,
}
use realty_lead_ai_agent.Scheduling.Grid.{windows_at, free_slots}
use realty_lead_ai_agent.Scheduling.Offers.{slot_minutes-pos, find_available_slots-take}
use realty_lead_ai_agent.Scheduling.Shape.{
  IsSlot, OfferOf, free_on-OfferOf, All-take, All-weaken, half_hour,
}
use realty_lead_ai_agent.Scheduling.Clear.{Apart, Apart-free, overlaps-append, busy-own}
use realty_lead_ai_agent.Scheduling.Hours.{IsSteady, windows_at-le}

pub in_hours-le :
    (ws : List Interval) (s : Slot) (end : ℕ)
    → Any (λ w. (w.0 ≤ s.starts_at) × (s.ends_at ≤ w.1)) ws
    → All (λ w. w.1 ≤ end) ws
    → s.ends_at ≤ end
in_hours-le [] s end h k = absurd h
in_hours-le (w ∷ ws) s end (inl h) k = omega (arith, h.1, k.0)
in_hours-le (w ∷ ws) s end (inr h) k = in_hours-le ws s end h k.1

pub slot_minutes-whole : (t : AppointmentType) → slot_minutes t * minute_us % half_hour ≡ 0
slot_minutes-whole AppointmentType.call = refl
slot_minutes-whole AppointmentType.site_visit = refl

-- What the agent's calendar shows as an open slot: within the working hours of one of these days, on a
-- half hour, of the appointment's length, two hours ahead at least, and clear of every appointment.
pub record IsOpen (services : Services) (db : Db) (agent : Agent) (t : AppointmentType)
    (days now : ℕ) (s : Slot) : Type 0 where
  pub offset : ℕ
  pub in_range : offset < days
  pub placed :
      IsSlot
        (now + min_lead_time)
        (slot_minutes t * minute_us)
        (windows_at services.int_of agent
          (resolve_timezone services.zones agent.timezone)
          now
          offset)
        s
  pub apart : All (Apart agent.id s) db.appointments

module _ (services : Services) (db : Db) (agent : Agent) (t : AppointmentType) (days limit now : ℕ)
    (steady : IsSteady (resolve_timezone services.zones agent.timezone)) where
  IsOpen-free :
      (busy : List Interval)
      → busy_intervals services db agent now (now + days * day_us) now ≡ ok busy
      → All (IsOpen services db agent t days now) (free_slots services agent busy t days now)
  unfolding appointment_intervals
  IsOpen-free busy e =
      let d = slot_minutes t * minute_us in
      let tz = resolve_timezone services.zones agent.timezone in
      All-weaken _ (open_of (busy-own services db agent now (now + days * day_us) now busy e)) _ (
        free_on-OfferOf busy d (slot_minutes-pos t) (slot_minutes-whole t) services.int_of agent tz
          now days 0)
    where
      open_of :
          (others : List Interval) × (busy
              ≡ appointment_intervals db agent.id now (now + days * day_us) ++ others)
          → (s : Slot)
          → OfferOf busy
              (slot_minutes t * minute_us)
              (slot_minutes-pos t)
              (slot_minutes-whole t)
              services.int_of
              agent
              (resolve_timezone services.zones agent.timezone)
              now
              (0 + days)
              s
          → IsOpen services db agent t days now s
      open_of (others, f) s (offset, h, both) =
          let (placed, free) = both in
          let tz = resolve_timezone services.zones agent.timezone in
          let in_range : offset < days = omega arith in
          let ahead = placed.lead_time in
          let ends =
            in_hours-le (windows_at services.int_of agent tz now offset) s (now + days * day_us)
              placed.in_hours
              (windows_at-le steady services.int_of agent now offset days in_range) in
          record {
            offset = offset;
            in_range = in_range;
            placed = placed;
            apart =
                Apart-free agent.id s now (now + days * day_us) db.appointments (omega arith) ends (
                  overlaps-append s (appointment_intervals db agent.id now (now + days * day_us))
                    others (rw f at free));
          }

  -- In a zone whose offset never changes, whatever the calendar answers, every slot that is offered is open: within the
  -- agent's working hours of one of the searched days, on a half hour, of the appointment's length,
  -- two hours ahead at least, and clear of every pending or confirmed appointment of the agent.
  pub find_available_slots-IsOpen :
      (slots : List Slot)
      → find_available_slots services db agent t days limit now ≡ ok slots
      → All (IsOpen services db agent t days now) slots
  unfolding find_available_slots
  find_available_slots-IsOpen slots e =
      elim (Reply-cases (busy_intervals services db agent now (now + days * day_us) now)) [
        | inl r ↦
            let q : find_available_slots services db agent t days limit now ≡ raised =
              rw (find_available_slots, r) refl in
            absurd (refuse (sym q ∙ e))
        | inr (busy, r) ↦
            elim (find_available_slots-take services db agent t days limit now busy r) [
              | inl q ↦ absurd (refuse (sym q ∙ e))
              | inr q ↦ rw (ok_inj (sym e ∙ q)) (All-take _ (max limit 1) _ (IsOpen-free busy r))
            ]
      ]
    where
      refuse : raised ≢ ok slots
      refuse e = cc
