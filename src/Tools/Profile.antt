-- ===== src/Tools/Profile.antt =====
-- `_update_lead_profile` of backend/app/agent/tools.py: recording what the lead said.
use realty_lead_ai_agent.Common.{
  ℕ, String, Bool, Option, none, some, List, [], ◌∷◌, ◌++◌, if◌then◌else◌, is_empty, not, ◌&&◌,
  true, false,
}
use realty_lead_ai_agent.Models.Enums.{PropertyType, LeadPurpose, LeadStatus}
use realty_lead_ai_agent.Models.Rows.{Lead}
use realty_lead_ai_agent.Channels.{is_set, or_text}
use realty_lead_ai_agent.Templates.Text.{concat}
use realty_lead_ai_agent.Tools.Context.{
  ToolContext, Parsers, ToolError, not_an_amount, updated, ToolReply, result, tool_error, flush,
}
use realty_lead_ai_agent.Tools.Listings.{Amount, absent, given, malformed, amount_of}

pub record ProfileUpdate : Type 0 where
  pub name : Option String
  pub bhk : Option ℕ
  pub timeline_months : Option ℕ
  pub loan_preapproved : Option Bool
  pub site_visit_willing : Option Bool
  pub budget_min : Option String
  pub budget_max : Option String
  pub preferred_locations : List String
  pub property_type : Option PropertyType
  pub purpose : Option LeadPurpose
  pub notes : Option String

-- The lead so far and the keys updated, or the error that stopped it with the lead as it was left.
pub data Progress : Type 0 where
  updating : Lead → List String → Progress
  stopped : Lead → ToolError → Progress

-- One key: a value that is there is set, and the key noted.
abbrev put {ℓ} : {A : Type ℓ} → String → Option A → (A → Lead → Lead) → Progress → Progress
put key none set p = p
put key (some a) set (stopped lead e) = stopped lead e
put key (some a) set (updating lead keys) = updating (set a lead) (keys ++ key ∷ [])

abbrev put_amount : String → Amount → (ℕ → Lead → Lead) → Progress → Progress
put_amount key absent set p = p
put_amount key (given n) set p = put key (some n) set p
put_amount key (malformed text) set (updating lead keys) = stopped lead (not_an_amount text)
put_amount key (malformed text) set (stopped lead e) = stopped lead e

abbrev when_set : Option String → Option String
when_set o = if is_set o then o else none

abbrev when_some : List String → Option (List String)
when_some xs = if is_empty xs then none else some xs

abbrev add_notes : String → Lead → Lead
add_notes notes lead = record lead {
  notes =
      some
        (if is_set lead.notes then concat (or_text lead.notes "") (concat "\n" notes) else notes);
}

unfoldable pub apply_profile : Parsers → ProfileUpdate → Lead → Progress
apply_profile parsers args lead =
    let p = put "name" args.name (λ a l. record l { name = some a }) (updating lead []) in
    let p = put "bhk" args.bhk (λ a l. record l { bhk = some a }) p in
    let p =
      put "timeline_months" args.timeline_months (λ a l. record l { timeline_months = some a }) p in
    let p =
      put "loan_preapproved" args.loan_preapproved (λ a l. record l { loan_preapproved = some a })
        p in
    let p =
      put "site_visit_willing" args.site_visit_willing
        (λ a l. record l { site_visit_willing = some a }) p in
    let low = amount_of parsers.decimal args.budget_min in
    let p = put_amount "budget_min" low (λ a l. record l { budget_min = some a }) p in
    let high = amount_of parsers.decimal args.budget_max in
    let p = put_amount "budget_max" high (λ a l. record l { budget_max = some a }) p in
    let p =
      put "preferred_locations" (when_some args.preferred_locations)
        (λ a l. record l { preferred_locations = a }) p in
    let p = put "property_type" args.property_type (λ a l. record l { property_type = some a }) p in
    let p = put "purpose" args.purpose (λ a l. record l { purpose = a }) p in
    put "notes" (when_set args.notes) add_notes p

abbrev is_new : LeadStatus → Bool
is_new LeadStatus.new = true
is_new _ = false

abbrev engage : Lead → List String → Lead
engage lead keys =
    if is_new lead.status && not (is_empty keys)
    then record lead { status = LeadStatus.engaged }
    else lead

-- An error leaves the keys set that came before it.
abbrev pub finish : ToolContext → Progress → ToolReply × ToolContext
finish ctx (stopped lead e) = (tool_error e, record ctx { lead = lead })
finish ctx (updating lead keys) =
    let after = engage lead keys in
    (result (updated keys after.status), flush (record ctx { lead = after }))

unfoldable pub update_lead_profile : Parsers → ToolContext → ProfileUpdate → ToolReply × ToolContext
update_lead_profile parsers ctx args = finish ctx (apply_profile parsers args ctx.lead)
