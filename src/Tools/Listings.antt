-- ===== src/Tools/Listings.antt =====
-- `_get_listing_details` of backend/app/agent/tools.py: the agent's available listings that match.
use realty_lead_ai_agent.Common.{
  ℕ, String, Bool, true, false, ◌&&◌, Option, none, some, List, [], ◌∷◌, leb, ◌==◌, if◌then◌else◌,
  filter, take,
}
use realty_lead_ai_agent.Models.Enums.{PropertyType, is_available}
use realty_lead_ai_agent.Models.Listings.{Listing}
use realty_lead_ai_agent.Channels.{is_set, or_text}
use realty_lead_ai_agent.Tools.Context.{
  ToolContext, Parsers, not_an_amount, not_a_listing_id, listings, ToolReply, result, tool_error,
}

pub record ListingQuery : Type 0 where
  pub listing_id : Option String
  pub city : Option String
  pub locality : Option String
  pub property_type : Option PropertyType
  pub bhk : Option ℕ
  pub budget_min : Option String
  pub budget_max : Option String

abbrev pub max_listing_results : ℕ
max_listing_results = 5

abbrev same_type : PropertyType → PropertyType → Bool
same_type PropertyType.flat PropertyType.flat = true
same_type PropertyType.villa PropertyType.villa = true
same_type PropertyType.plot PropertyType.plot = true
same_type PropertyType.commercial PropertyType.commercial = true
same_type _ _ = false

-- The agent's, active and available.
abbrev in_stock : ℕ → Listing → Bool
in_stock agent_id l = l.agent_id == agent_id && l.is_active && is_available l.status

-- A column that is null matches nothing.
abbrev matches : (String → String → Bool) → Option String → Option String → Bool
matches ilike pattern none = if is_set pattern then false else true
matches ilike pattern (some value) =
    if is_set pattern then ilike value (or_text pattern "") else true

abbrev with_type : Option PropertyType → Listing → Bool
with_type none l = true
with_type (some t) l = same_type l.property_type t

abbrev with_bhk : Option ℕ → Option ℕ → Bool
with_bhk none column = true
with_bhk (some n) none = false
with_bhk (some n) (some k) = k == n

abbrev at_least : Option ℕ → ℕ → Bool
at_least none price = true
at_least (some low) price = leb low price

abbrev at_most : Option ℕ → ℕ → Bool
at_most none price = true
at_most (some high) price = leb price high

unfoldable pub by_criteria : Parsers → ListingQuery → Option ℕ → Option ℕ → Listing → Bool
by_criteria parsers query low high l =
    matches parsers.ilike query.city (some l.city)
    && matches parsers.ilike query.locality l.locality
    && with_type query.property_type l
    && with_bhk query.bhk l.bhk
    && at_least low l.price
    && at_most high l.price

-- `.order_by(Listing.price)`: rows of one price stay in their order.
unfoldable pub insert_by_price : Listing → List Listing → List Listing
insert_by_price l [] = l ∷ []
insert_by_price l (k ∷ ks) =
    let rest = insert_by_price l ks in if leb l.price k.price then l ∷ k ∷ ks else k ∷ rest

unfoldable pub sort_by_price : List Listing → List Listing
sort_by_price [] = []
sort_by_price (l ∷ ls) = insert_by_price l (sort_by_price ls)

-- `_decimal`: no amount, an amount, or the text that is none.
pub data Amount : Type 0 where
  absent : Amount
  given : ℕ → Amount
  malformed : String → Amount

abbrev pub amount_of : (String → Option ℕ) → Option String → Amount
amount_of decimal none = absent
amount_of decimal (some text) = elim (decimal text) [ some n ↦ given n | none ↦ malformed text ]

abbrev found : ToolContext → (Listing → Bool) → ToolReply
found ctx p = result (
    listings (
      take max_listing_results
        (sort_by_price (filter p (filter (in_stock ctx.agent.id) ctx.db.listings)))))

abbrev by_budget : Parsers → ToolContext → ListingQuery → Amount → Amount → ToolReply
by_budget parsers ctx query (malformed text) high = tool_error (not_an_amount text)
by_budget parsers ctx query low (malformed text) = tool_error (not_an_amount text)
by_budget parsers ctx query absent absent = found ctx (by_criteria parsers query none none)
by_budget parsers ctx query absent (given high) =
    found ctx (by_criteria parsers query none (some high))
by_budget parsers ctx query (given low) absent =
    found ctx (by_criteria parsers query (some low) none)
by_budget parsers ctx query (given low) (given high) =
    found ctx (by_criteria parsers query (some low) (some high))

unfoldable pub get_listing_details : Parsers → ToolContext → ListingQuery → ToolReply
get_listing_details parsers ctx query =
    if is_set query.listing_id
    then elim (parsers.uuid (or_text query.listing_id "")) [
      | none ↦ tool_error (not_a_listing_id (or_text query.listing_id ""))
      | some id ↦ found ctx (λ l. l.id == id)
    ]
    else by_budget parsers ctx query (amount_of parsers.decimal query.budget_min)
        (amount_of parsers.decimal query.budget_max)
