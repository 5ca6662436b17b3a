-- ===== src/Scheduling/Offers.antt =====
-- find_available_slots of backend/app/services/scheduling.py against the description of its slots.
use realty_lead_ai_agent.Common.{
  ℕ, ◌+◌, ◌*◌, ◌%◌, ◌<◌, max, String, ◌≡◌, refl, ap, ◌∙◌, ◌≢◌, ◌⊎◌, inl, inr, Bool-cases, Option,
  List, [], ◌∷◌, take, All, arith,
}
use text.Mathlib.Text.{◌==◌ as str_eq}
use realty_lead_ai_agent.Common.Int.{ℤ}
use realty_lead_ai_agent.Models.Db.{Db}
use realty_lead_ai_agent.Models.Enums.{AppointmentType}
use realty_lead_ai_agent.Models.Rows.{Agent}
use realty_lead_ai_agent.RateLimit.Store.{ok, raised, Reply-cases}
use realty_lead_ai_agent.Zones.{Zone, minute_us, day_us, resolve_timezone}
use realty_lead_ai_agent.GoogleCalendar.{Interval}
use realty_lead_ai_agent.Scheduling.{
  Services, slot_minutes, opening, hours_for, weekday_key, on_day, day_windows, going, slots_of,
  scan_days, find_available_slots, busy_intervals,
}
use realty_lead_ai_agent.Scheduling.Grid.{free_slots}
use realty_lead_ai_agent.Scheduling.Loop.{cut, slots_of-cut, scan_days-grid, scan_days-total}

-- The texts of the agent's hours are times of day.
abbrev pub IsReadable : (String → Option ℤ) → Agent → Type 0
IsReadable int_of agent = All (λ e. opening int_of e.1 ≢ raised) agent.working_hours

hours_for-IsReadable :
    (int_of : String → Option ℤ) (key : String) (hours : List (String × List String))
    → All (λ e. opening int_of e.1 ≢ raised) hours
    → opening int_of (hours_for key hours) ≢ raised
unfolding hours_for opening
hours_for-IsReadable int_of key [] h e = absurd cc
hours_for-IsReadable int_of key ((k, hs) ∷ rest) h e = elim (Bool-cases (str_eq k key)) [
  | inl same ↦ h.0 (rw same at e)
  | inr other ↦ hours_for-IsReadable int_of key rest h.1 (rw other at e)
]

day_windows-total :
    (int_of : String → Option ℤ) (agent : Agent) (tz : Zone)
    → IsReadable int_of agent
    → (day : ℕ) → day_windows int_of agent day tz ≢ raised
unfolding day_windows
day_windows-total int_of agent tz h day e =
    let key = weekday_key (day % 7) in
    elim (Reply-cases (opening int_of (hours_for key agent.working_hours))) [
      | inl r ↦ hours_for-IsReadable int_of key agent.working_hours h r
      | inr (spans, r) ↦ absurd (readable spans (rw r at e))
    ]
  where
    readable : (spans : List Interval) → on_day tz day (ok spans) ≢ raised
    readable spans e = cc

pub slot_minutes-pos : (t : AppointmentType) → 0 < slot_minutes t * minute_us
slot_minutes-pos AppointmentType.call = omega arith
slot_minutes-pos AppointmentType.site_visit = omega arith

module _ (services : Services) (db : Db) (agent : Agent) (t : AppointmentType)
    (days limit now : ℕ) where
  abbrev tz : Zone
  tz = resolve_timezone services.zones agent.timezone

  pub find_available_slots-take :
      (busy : List Interval)
      → busy_intervals services db agent now (now + days * day_us) now ≡ ok busy
      → (find_available_slots services db agent t days limit now ≡ raised)
        ⊎ (find_available_slots services db agent t days limit now
            ≡ ok (take (max limit 1) (free_slots services agent busy t days now)))
  unfolding find_available_slots
  find_available_slots-take busy e =
      let d = slot_minutes t * minute_us in
      let begin = ap (scan_days busy d limit services.int_of agent tz now days 0) start in
      elim (scan_days-grid busy d limit (slot_minutes-pos t) services.int_of agent tz now days 0
        []) [
          | inl r ↦ inl (rw (find_available_slots, e, begin ∙ r) refl)
          | inr r ↦ inr (
              rw (find_available_slots, e, begin ∙ r)
                (ap ok (slots_of-cut (max limit 1) (free_slots services agent busy t days now))))
        ]
    where
      start : going [] ≡ cut (max limit 1) []
      start = ground arith

  -- If every working day's hours are readable and the busy times are known, the slots are the free slots of the
  -- grid in order, cut off at the limit, or at one slot where the limit is 0.
  pub find_available_slots-free :
      IsReadable services.int_of agent
      → (busy : List Interval)
      → busy_intervals services db agent now (now + days * day_us) now ≡ ok busy
      → find_available_slots services db agent t days limit now
        ≡ ok (take (max limit 1) (free_slots services agent busy t days now))
  unfolding find_available_slots
  find_available_slots-free h busy e = elim (find_available_slots-take busy e) [
    | inl r ↦ absurd (never r)
    | inr r ↦ r
  ]
    where
      never : find_available_slots services db agent t days limit now ≢ raised
      never r =
          let d = slot_minutes t * minute_us in
          elim (Reply-cases
            (scan_days busy d limit services.int_of agent tz now days 0 (going []))) [
              | inl q ↦
                  scan_days-total busy d limit (slot_minutes-pos t) services.int_of agent tz now
                    (day_windows-total services.int_of agent tz h) days 0 (going []) q
              | inr (scan, q) ↦
                  let found : find_available_slots services db agent t days limit now
                      ≡ ok (slots_of scan) =
                    rw (find_available_slots, e, q) refl in
                  cc
            ]
