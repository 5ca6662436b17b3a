-- ===== src/Models/Listings.antt =====
-- backend/app/models/listing.py: a row of an agent's inventory, with the columns that the score and
-- the tools read.
use realty_lead_ai_agent.Common.{ℕ, Bool, String, Option}
use realty_lead_ai_agent.Models.Enums.{ListingStatus, PropertyType}

pub record Listing : Type 0 where
  pub id : ℕ
  pub agent_id : ℕ
  pub title : String
  pub property_type : PropertyType
  pub status : ListingStatus
  pub locality : Option String
  pub city : String
  -- in paise
  pub price : ℕ
  pub bhk : Option ℕ
  pub is_active : Bool
