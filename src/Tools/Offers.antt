-- ===== src/Tools/Offers.antt =====
-- check_availability and book_appointment of backend/app/agent/tools.py, one after the other: what is
-- offered can be booked.
use mathlib.Core.List.{append_assoc}
use realty_lead_ai_agent.Common.{
  ℕ, zero, suc, ◌+◌, ◌-◌, ◌*◌, ◌%◌, max, ◌≤◌, ◌<◌, String, ◌≡◌, ◌≢◌, refl, ap, ◌∙◌, sym, inl, inr,
  Bool, true, false, not, ◌&&◌, Bool-cases, Option, none, some, Option-cases, List, [], ◌∷◌, ◌++◌,
  map, ltb, leb, ◌==◌, take, filter, All, arith,
}
use realty_lead_ai_agent.Common.Int.{ℤ}
use realty_lead_ai_agent.Models.Enums.{AppointmentType, AppointmentStatus}
use realty_lead_ai_agent.Models.Rows.{Agent, Appointment}
use realty_lead_ai_agent.Channels.{is_set}
use realty_lead_ai_agent.RateLimit.Store.{Reply, ok, Reply-cases, ok_inj}
use realty_lead_ai_agent.Zones.{Zone, minute_us, day_us, resolve_timezone}
use realty_lead_ai_agent.GoogleCalendar.{Interval}
use realty_lead_ai_agent.Booking.{sync_to_calendar}
use realty_lead_ai_agent.Scheduling.{
  Services, Slot, slot_minutes, min_lead_time, overlaps, blocks, appointment_intervals,
  busy_intervals, is_connected, find_available_slots,
}
use realty_lead_ai_agent.Scheduling.Grid.{
  is_free, fitting, free_in, windows_at, free_on, free_slots,
}
use realty_lead_ai_agent.Scheduling.Offers.{IsReadable, slot_minutes-pos, find_available_slots-free}
use realty_lead_ai_agent.Scheduling.Shape.{IsSlot, fitting-IsSlot, All-weaken, half_hour}
use realty_lead_ai_agent.Scheduling.Hours.{IsSteady, windows_at-le}
use realty_lead_ai_agent.Scheduling.Open.{
  find_available_slots-IsOpen, slot_minutes-whole, in_hours-le,
}
use realty_lead_ai_agent.Tools.Context.{ToolContext, Parsers, ToolReply, Payload, result, aware}
use realty_lead_ai_agent.Tools.Bookings.{is_offered-lem}
use realty_lead_ai_agent.Tools.{
  Booking, ToolCall, is_offered, new_appointment, add_appointment, days_or_7, check_availability,
  confirm, book_slot, book_appointment, dispatch,
}

filter_ext {ℓ} :
    {A : Type ℓ} (p q : A → Bool) (xs : List A)
    → All (λ x. p x ≡ q x) xs
    → filter p xs ≡ filter q xs
filter_ext p q [] h = refl
filter_ext p q (x ∷ xs) h = rw (h.0, filter_ext p q xs h.1) refl

-- More slots, and more of them taken, lose none.
is_offered-take :
    (start m n : ℕ) (xs ys : List Slot)
    → m ≤ n
    → is_offered start (take m xs) ≡ true
    → is_offered start (take n (xs ++ ys)) ≡ true
unfolding is_offered
is_offered-take start zero n xs ys h e = absurd cc
is_offered-take start (suc m) zero xs ys h e = absurd (omega arith)
is_offered-take start (suc m) (suc n) [] ys h e = absurd cc
is_offered-take start (suc m) (suc n) (x ∷ xs) ys h e = elim (Bool-cases (x.starts_at == start)) [
  | inl f ↦ rw f refl
  | inr f ↦ rw f (is_offered-take start m n xs ys (omega arith) (rw f at e))
]

abbrev own : ℕ → ℕ → ℕ → List Appointment → List Interval
own agent_id from to rows =
    map (λ a. (a.starts_at, a.ends_at)) (filter (blocks agent_id from to) rows)

-- How far ahead the appointments are looked up does not matter to a slot before both ends.
overlaps-own :
    (agent_id from to later : ℕ) (s : Slot) (rows : List Appointment)
    → s.ends_at ≤ to
    → to ≤ later
    → overlaps s (own agent_id from to rows) ≡ overlaps s (own agent_id from later rows)
unfolding overlaps
overlaps-own agent_id from to later s [] h k = refl
overlaps-own agent_id from to later s (a ∷ rows) h k =
    let rest = overlaps-own agent_id from to later s rows h k in
    elim (Bool-cases (blocks agent_id from to a)) [
      | inl e ↦ let f : blocks agent_id from later a ≡ true = ground arith in rw (e, f, rest) refl
      | inr e ↦ elim (Bool-cases (blocks agent_id from later a)) [
        | inl f ↦
            let g : (ltb s.starts_at a.ends_at && ltb a.starts_at s.ends_at) ≡ false =
              ground arith in
            rw (e, f, g) rest
        | inr f ↦ rw (e, f) rest
      ]
    ]

module _ (near far : List Interval) (duration : ℕ) (positive : 0 < duration)
    (whole : duration % half_hour ≡ 0) (bound : ℕ)
    (agree : (s : Slot) → s.ends_at ≤ bound → overlaps s near ≡ overlaps s far) where
  free_in-agree :
      (earliest : ℕ) (ws : List Interval)
      → All (λ (w : Interval). w.1 ≤ bound) ws
      → free_in near duration earliest ws ≡ free_in far duration earliest ws
  unfolding free_in
  free_in-agree earliest [] h = refl
  free_in-agree earliest (w ∷ ws) h =
      let same = filter_ext (is_free near) (is_free far) (fitting duration earliest w) (
        All-weaken (IsSlot earliest duration (w ∷ []))
          (λ s p. ap not (agree s (in_hours-le (w ∷ []) s bound p.in_hours (h.0, tt))))
          (fitting duration earliest w) (fitting-IsSlot duration whole positive earliest w)) in
      rw (same, free_in-agree earliest ws h.1) refl

  module _ (int_of : String → Option ℤ) (agent : Agent) (tz : Zone) (now : ℕ) where
    free_on-agree :
        (days offset : ℕ)
        → ((k : ℕ)
            → k < offset + days
            → All (λ (w : Interval). w.1 ≤ bound) (windows_at int_of agent tz now k))
        → free_on near duration int_of agent tz now days offset
          ≡ free_on far duration int_of agent tz now days offset
    unfolding free_on
    free_on-agree zero offset h = refl
    free_on-agree (suc days) offset h =
        rw
          (
            free_in-agree (now + min_lead_time) (windows_at int_of agent tz now offset)
                (h offset (omega arith)),
            free_on-agree days (suc offset) (λ k l. h k (omega arith)),
          )
          refl

module _ (busy : List Interval) (duration : ℕ) (int_of : String → Option ℤ) (agent : Agent)
    (tz : Zone) (now : ℕ) where
  -- The first days come first.
  free_on_add :
      (days more total offset next : ℕ)
      → total ≡ days + more
      → next ≡ offset + days
      → free_on busy duration int_of agent tz now total offset
        ≡ free_on busy duration int_of agent tz now days offset
          ++ free_on busy duration int_of agent tz now more next
  unfolding free_on
  free_on_add zero more total offset next e f =
      let e' : total ≡ more = omega arith in
      let f' : next ≡ offset = omega arith in rw (e', f') refl
  free_on_add (suc days) more zero offset next e f = absurd (omega arith)
  free_on_add (suc days) more (suc total) offset next e f =
      let here =
        free_in busy duration (now + min_lead_time) (windows_at int_of agent tz now offset) in
      rw (free_on_add days more total (suc offset) next (omega arith) (omega arith)) (
        sym (
          append_assoc here (free_on busy duration int_of agent tz now days (suc offset))
            (free_on busy duration int_of agent tz now more next)))

module _ (services : Services) (ctx : ToolContext) (t : AppointmentType)
    (steady : IsSteady (resolve_timezone services.zones ctx.agent.timezone))
    (readable : IsReadable services.int_of ctx.agent) (alone : is_connected ctx.agent ≡ false) where
  abbrev booked_until : ℕ → List Interval
  booked_until days = own ctx.agent.id ctx.now (ctx.now + days * day_us) ctx.db.appointments

  busy_alone :
      (days : ℕ)
      → busy_intervals services ctx.db ctx.agent ctx.now (ctx.now + days * day_us) ctx.now
        ≡ ok (booked_until days)
  unfolding busy_intervals appointment_intervals
  busy_alone days = elim (Option-cases services.calendar) [
    | inl e ↦ rw (busy_intervals, e) refl
    | inr (calendar, e) ↦ rw (busy_intervals, e, alone) refl
  ]

  abbrev found : ℕ → ℕ → Reply (List Slot)
  found days limit = find_available_slots services ctx.db ctx.agent t days limit ctx.now

  free_of :
      (days limit : ℕ)
      → found days limit
        ≡ ok (take (max limit 1) (free_slots services ctx.agent (booked_until days) t days ctx.now))
  free_of days limit =
      find_available_slots-free services ctx.db ctx.agent t days limit ctx.now readable
        (booked_until days) (busy_alone days)

  -- The free slots of fewer days begin those of more.
  free_slots-prefix :
      (days total : ℕ)
      → days ≤ total
      → (rest : List Slot) × (free_slots services ctx.agent (booked_until total) t total ctx.now
          ≡ free_slots services ctx.agent (booked_until days) t days ctx.now ++ rest)
  free_slots-prefix days total h =
      let tz = resolve_timezone services.zones ctx.agent.timezone in
      let d = slot_minutes t * minute_us in
      let bound = ctx.now + days * day_us in
      let later = ctx.now + total * day_us in
      let rest =
        free_on (booked_until total) d services.int_of ctx.agent tz ctx.now (total - days) days in
      let same =
        free_on-agree (booked_until days) (booked_until total) d (slot_minutes-pos t)
          (slot_minutes-whole t) bound
          (λ s e.
            overlaps-own ctx.agent.id ctx.now bound later s ctx.db.appointments e (omega arith))
          services.int_of ctx.agent tz ctx.now days 0
          (λ k l. windows_at-le steady services.int_of ctx.agent ctx.now k days (omega arith)) in
      (
        rest,
        free_on_add (booked_until total) d services.int_of ctx.agent tz ctx.now days (total - days)
              total 0 days (omega arith) (omega arith)
            ∙ ap (λ xs. xs ++ rest) (sym same),
      )

  found_again :
      (days start : ℕ) (slots : List Slot)
      → days ≤ 30
      → found days 6 ≡ ok slots
      → is_offered start slots ≡ true
      → (all : List Slot) × (found 30 200 ≡ ok all) × (is_offered start all ≡ true)
  found_again days start slots h e o =
      let (rest, more) = free_slots-prefix days 30 h in
      let same = ok_inj (sym e ∙ free_of days 6) in
      (
        _,
        free_of 30 200,
        rw more (
            is_offered-take start 6 200
              (free_slots services ctx.agent (booked_until days) t days ctx.now) rest (omega arith)
              (rw same at o)),
      )

availability-ok :
    (services : Services) (ctx : ToolContext) (t : AppointmentType) (search_days : Option ℕ)
    (slots : List Slot)
    → check_availability services ctx t search_days ≡ result (Payload.availability slots)
    → find_available_slots services ctx.db ctx.agent t (days_or_7 search_days) 6 ctx.now ≡ ok slots
unfolding check_availability
availability-ok services ctx t search_days slots e =
    elim (Reply-cases
      (find_available_slots services ctx.db ctx.agent t (days_or_7 search_days) 6 ctx.now)) [
        | inl r ↦ absurd (refuse (rw (check_availability, r) at e))
        | inr (found_slots, r) ↦
            let same : result (Payload.availability found_slots)
                ≡ result (Payload.availability slots) =
              rw (check_availability, r) at e in
            rw r (ap ok (inside same))
      ]
  where
    refuse : ToolReply.crashed ≢ result (Payload.availability slots)
    refuse e = cc

    inside :
        {xs ys : List Slot}
        → result (Payload.availability xs) ≡ result (Payload.availability ys)
        → xs ≡ ys
    inside e = cc

-- Without a calendar to write to, a booking stands as it was added.
confirm-alone :
    (services : Services) (ctx : ToolContext) (args : Booking) (start : ℕ)
    → is_connected ctx.agent ≡ false
    → let a = new_appointment ctx args none start in
      confirm services ctx args none start ≡ (
        result (
            Payload.booked a.id start args.appointment_type AppointmentStatus.confirmed false none),
        add_appointment ctx a,
      )
unfolding confirm sync_to_calendar
confirm-alone services ctx args start alone = elim (Option-cases services.calendar) [
  | inl e ↦ rw (confirm, sync_to_calendar, e) refl
  | inr (calendar, e) ↦ rw (confirm, sync_to_calendar, e, alone) refl
]

-- For an agent in a zone whose offset never changes, with readable hours and no connected calendar:
-- each slot that check_availability offers for at most 30 days can be booked at once for no listing.
-- The lead is then booked, the appointment is the row that is added, and nothing else changes.
pub dispatch-offered :
    (services : Services) (parsers : Parsers) (ctx : ToolContext) (args : Booking)
    (search_days : Option ℕ) (slots : List Slot) (start : ℕ)
    → IsSteady (resolve_timezone services.zones ctx.agent.timezone)
    → IsReadable services.int_of ctx.agent
    → is_connected ctx.agent ≡ false
    → days_or_7 search_days ≤ 30
    → (dispatch services parsers ctx (ToolCall.availability args.appointment_type search_days)).0
      ≡ result (Payload.availability slots)
    → is_offered start slots ≡ true
    → parsers.from_iso args.starts_at ≡ some (aware start)
    → is_set args.listing_id ≡ false
    → let a = new_appointment ctx args none start in
      dispatch services parsers ctx (ToolCall.book args) ≡ (
        result (
            Payload.booked a.id start args.appointment_type AppointmentStatus.confirmed false none),
        add_appointment ctx a,
      )
unfolding dispatch book_appointment book_slot
dispatch-offered services parsers ctx args search_days slots start z hours alone h e o iso
      none_set =
    let t = args.appointment_type in
    let days = days_or_7 search_days in
    let f = availability-ok services ctx t search_days slots e in
    let (s, open_slot, same) =
      is_offered-lem _ start slots
        (find_available_slots-IsOpen services ctx.db ctx.agent t days 6 ctx.now z slots f) o in
    let ahead : leb start ctx.now ≡ false = ground (arith, open_slot.placed.lead_time, same) in
    let (all, g, o') = found_again services ctx t z hours alone days start slots h f o in
    rw (book_appointment, iso, ahead, none_set, book_slot, g, o')
      (confirm-alone services ctx args start alone)
