-- ===== src/Tools/Cases.antt =====
-- The ways through `_book_appointment` of backend/app/agent/tools.py.
use realty_lead_ai_agent.Common.{
  ℕ, ◌≡◌, true, inl, inr, Bool-cases, Option, none, some, Option-cases, List, leb,
}
use realty_lead_ai_agent.RateLimit.Store.{ok, Reply-cases}
use realty_lead_ai_agent.Channels.{is_set, or_text}
use realty_lead_ai_agent.Scheduling.{Services, Slot, find_available_slots}
use realty_lead_ai_agent.Tools.Context.{ToolContext, Parsers, ToolReply}
use realty_lead_ai_agent.Tools.{
  Booking, is_offered, confirm, book_slot, book_at, moment_of, book_appointment,
}

-- A predicate holds of a booking if it holds wherever nothing changed, and of a slot that was found
-- again and confirmed.
module _ (services : Services) (parsers : Parsers) (ctx : ToolContext) (args : Booking)
    (P : ToolReply × ToolContext → Type 0) (refused : (reply : ToolReply) → P (reply, ctx))
    (confirmed : (listing_id : Option ℕ) (start : ℕ) (slots : List Slot)
      → find_available_slots services ctx.db ctx.agent args.appointment_type 30 200 ctx.now
        ≡ ok slots
      → is_offered start slots ≡ true
      → P (confirm services ctx args listing_id start)) where
  book_slot_rule :
      (listing_id : Option ℕ) (start : ℕ) → P (book_slot services ctx args listing_id start)
  unfolding book_slot
  book_slot_rule listing_id start =
      elim (Reply-cases
        (find_available_slots services ctx.db ctx.agent args.appointment_type 30 200 ctx.now)) [
          | inl r ↦ rw (book_slot, r) (refused _)
          | inr (slots, r) ↦ elim (Bool-cases (is_offered start slots)) [
            | inl e ↦ rw (book_slot, r, e) (confirmed listing_id start slots r e)
            | inr e ↦ rw (book_slot, r, e) (refused _)
          ]
        ]

  book_at_rule : (start : ℕ) → P (book_at services parsers ctx args start)
  book_at_rule start = elim (Bool-cases (leb start ctx.now)) [
    | inl e ↦ rw e (refused _)
    | inr e ↦ elim (Bool-cases (is_set args.listing_id)) [
      | inl f ↦ elim (Option-cases (parsers.uuid (or_text args.listing_id ""))) [
        | inl g ↦ rw (e, f, g) (refused _)
        | inr (id, g) ↦ rw (e, f, g) (book_slot_rule (some id) start)
      ]
      | inr f ↦ rw (e, f) (book_slot_rule none start)
    ]
  ]

  pub book_appointment_rule : P (book_appointment services parsers ctx args)
  unfolding book_appointment
  book_appointment_rule = elim (Option-cases (parsers.from_iso args.starts_at)) [
    | inl e ↦ rw (book_appointment, e) (refused _)
    | inr (t, e) ↦ rw (book_appointment, e) (book_at_rule (moment_of t))
  ]
