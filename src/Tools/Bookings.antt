-- ===== src/Tools/Bookings.antt =====
-- The bookings of backend/app/agent/tools.py: no tool puts two appointments of one agent at one time.
use realty_lead_ai_agent.Common.{
  String, All-append, ℕ, ◌≤◌, ◌≡◌, refl, ◌≢◌, ◌⊎◌, inl, inr, Bool, true, false, Bool-cases, Option,
  none, some, List, [], ◌∷◌, ◌++◌, All, arith, if_rule, ◌==◌,
}
use realty_lead_ai_agent.Models.Rows.{Appointment}
use realty_lead_ai_agent.Models.Db.{update_where}
use realty_lead_ai_agent.RateLimit.Store.{Reply, ok, raised}
use realty_lead_ai_agent.Zones.{resolve_timezone}
use realty_lead_ai_agent.Booking.{SyncOutcome, Stamp, needs_attention}
use realty_lead_ai_agent.Scheduling.{Services, Slot, is_live}
use realty_lead_ai_agent.Scheduling.Hours.{IsSteady}
use realty_lead_ai_agent.Scheduling.Clear.{Apart}
use realty_lead_ai_agent.Scheduling.Open.{IsOpen, find_available_slots-IsOpen}
use realty_lead_ai_agent.Tools.Context.{ToolReply, ToolContext, Parsers}
use realty_lead_ai_agent.Tools.Profile.{
  update_lead_profile, apply_profile, updating, stopped, Progress, finish,
}
use realty_lead_ai_agent.Tools.Cases.{book_appointment_rule}
use realty_lead_ai_agent.Tools.{
  Booking, ToolCall, score_lead, is_offered, new_appointment, add_appointment, synced, has_listing,
  confirm, escalate_to_human, dispatch,
}

-- Two appointments do not claim one agent at one time.
abbrev pub Separate : Appointment → Appointment → Type 0
Separate a b =
    (a.agent_id ≢ b.agent_id)
    ⊎ (is_live a.status ≡ false)
    ⊎ (is_live b.status ≡ false)
    ⊎ (a.ends_at ≤ b.starts_at)
    ⊎ (b.ends_at ≤ a.starts_at)

-- No agent is booked twice at one time.
abbrev pub Disjoint : List Appointment → Type 0
Disjoint [] = Unit
Disjoint (a ∷ rows) = All (Separate a) rows × Disjoint rows

-- A row more, separate from all the others.
Disjoint-append :
    (rows : List Appointment) (b : Appointment)
    → All (λ a. Separate a b) rows
    → Disjoint rows
    → Disjoint (rows ++ b ∷ [])
Disjoint-append [] b h d = (tt, tt)
Disjoint-append (a ∷ rows) b h d =
    (All-append (Separate a) rows (b ∷ []) d.0 (h.0, tt), Disjoint-append rows b h.1 d.1)

-- Writing on rows what is no part of a time or a status.
module _ (p : Appointment → Bool) (event : Option String) (sent : Option ℕ) where
  abbrev write : Appointment → Appointment
  write a = record a { google_event_id = event; confirmation_sent_at = sent }

  All-write :
      (a : Appointment) (rows : List Appointment)
      → All (Separate a) rows
      → All (Separate a) (update_where p write rows)
  unfolding update_where
  All-write a [] h = tt
  All-write a (b ∷ rows) h = (if_rule (Separate a) (p b) h.0 h.0, All-write a rows h.1)

  Disjoint-write : (rows : List Appointment) → Disjoint rows → Disjoint (update_where p write rows)
  unfolding update_where
  Disjoint-write [] d = tt
  Disjoint-write (a ∷ rows) d = (
    if_rule (λ b. All (Separate b) (update_where p write rows)) (p a) (All-write a rows d.0)
        (All-write a rows d.0),
    Disjoint-write rows d.1,
  )

abbrev pub IsBooked : ToolContext → Type 0
IsBooked ctx = Disjoint ctx.db.appointments

synced-IsBooked :
    (ctx : ToolContext) (a : Appointment) (r : Reply (SyncOutcome × Option Stamp))
    → IsBooked ctx
    → IsBooked (synced ctx a r).1
synced-IsBooked ctx a raised d = d
synced-IsBooked ctx a (ok (outcome, none)) d = if_rule IsBooked (needs_attention outcome) d d
synced-IsBooked ctx a (ok (outcome, some s)) d =
    let written =
      Disjoint-write (λ b. b.id == a.id) (some s.google_event_id) (some s.confirmation_sent_at)
        ctx.db.appointments d in
    if_rule IsBooked (needs_attention outcome) written written

pub is_offered-lem :
    (P : Slot → Type 0) (start : ℕ) (slots : List Slot)
    → All P slots
    → is_offered start slots ≡ true
    → (s : Slot) × P s × (s.starts_at ≡ start)
unfolding is_offered
is_offered-lem P start [] h e = absurd cc
is_offered-lem P start (s ∷ slots) h e = elim (Bool-cases (s.starts_at == start)) [
  | inl f ↦ (s, h.0, ground arith)
  | inr f ↦ is_offered-lem P start slots h.1 (rw f at e)
]

Apart-Separate :
    (agent_id start end : ℕ) (s : Slot) (rows : List Appointment) (b : Appointment)
    → s.starts_at ≡ start
    → s.ends_at ≡ end
    → b.agent_id ≡ agent_id
    → b.starts_at ≡ start
    → b.ends_at ≡ end
    → All (Apart agent_id s) rows
    → All (λ a. Separate a b) rows
Apart-Separate agent_id start end s [] b e f g h k d = tt
Apart-Separate agent_id start end s (a ∷ rows) b e f g h k d =
    (ground arith, Apart-Separate agent_id start end s rows b e f g h k d.1)

module _ (services : Services) (ctx : ToolContext) where
  confirm-IsBooked :
      (args : Booking) (listing_id : Option ℕ) (start : ℕ) (s : Slot)
      → IsOpen services ctx.db ctx.agent args.appointment_type 30 ctx.now s
      → s.starts_at ≡ start
      → IsBooked ctx
      → IsBooked (confirm services ctx args listing_id start).1
  unfolding confirm
  confirm-IsBooked args listing_id start s open_slot e d =
      let a = new_appointment ctx args listing_id start in
      let end : s.ends_at ≡ a.ends_at = omega (arith, e, open_slot.placed.span) in
      let apart =
        Apart-Separate ctx.agent.id start a.ends_at s ctx.db.appointments a e end refl refl refl
          open_slot.apart in
      if_rule (λ (r : ToolReply × ToolContext). IsBooked r.1) (has_listing ctx listing_id)
        (synced-IsBooked (add_appointment ctx a) a _
          (Disjoint-append ctx.db.appointments a apart d))
        d

finish-IsBooked : (ctx : ToolContext) (p : Progress) → IsBooked ctx → IsBooked (finish ctx p).1
finish-IsBooked ctx (stopped lead e) d = d
finish-IsBooked ctx (updating lead keys) d = d

-- In a zone whose offset never changes, whatever a tool is asked and however the calendar answers, if
-- no two live appointments of one agent overlap before the call, none do after it.
pub dispatch-IsBooked :
    (services : Services) (parsers : Parsers) (ctx : ToolContext) (call : ToolCall)
    → IsSteady (resolve_timezone services.zones ctx.agent.timezone)
    → IsBooked ctx
    → IsBooked (dispatch services parsers ctx call).1
unfolding dispatch score_lead escalate_to_human update_lead_profile
dispatch-IsBooked services parsers ctx (ToolCall.get_listing query) z d = d
dispatch-IsBooked services parsers ctx (ToolCall.update_profile args) z d =
    finish-IsBooked ctx (apply_profile parsers args ctx.lead) d
dispatch-IsBooked services parsers ctx ToolCall.score z d = d
dispatch-IsBooked services parsers ctx (ToolCall.availability t days) z d = d
dispatch-IsBooked services parsers ctx (ToolCall.book args) z d =
    book_appointment_rule services parsers ctx args (λ r. IsBooked r.1) (λ reply. d)
      λ listing_id start slots r e.
        let (s, open_slot, same) =
          is_offered-lem _ start slots
            (find_available_slots-IsOpen services ctx.db ctx.agent args.appointment_type 30 200
              ctx.now z slots r)
            e in
        confirm-IsBooked services ctx args listing_id start s open_slot same d
dispatch-IsBooked services parsers ctx (ToolCall.escalate reason urgency) z d = d
dispatch-IsBooked services parsers ctx (ToolCall.other name) z d = d
