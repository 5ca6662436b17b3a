-- ===== src/Models/Db.antt =====
-- The tables that the services share, and the queries that they have in common. The rows of a table
-- stand in the order of their creation, which is the order of `created_at`.
use realty_lead_ai_agent.Common.{ℕ, Bool, Option, none, some, List, [], ◌∷◌, ◌==◌, if◌then◌else◌}
use realty_lead_ai_agent.Models.Rows.{Lead, Agent, FollowUpTask, Conversation, Message, Appointment}
use realty_lead_ai_agent.Models.Listings.{Listing}

pub record Db : Type 0 where
  pub agents : List Agent
  pub leads : List Lead
  pub tasks : List FollowUpTask
  pub conversations : List Conversation
  pub messages : List Message
  pub listings : List Listing
  pub appointments : List Appointment
  -- the next fresh id
  pub next_id : ℕ

module _ {ℓ} {A : Type ℓ} where
  -- `.order_by(created_at.desc()).limit(1)` over the rows that pass a test
  unfoldable pub latest : (A → Bool) → List A → Option A
  latest p [] = none
  latest p (x ∷ xs) = elim (latest p xs) [ some y ↦ some y | none ↦ if p x then some x else none ]

  -- The one row that passes a test, if there is one.
  unfoldable pub find : (A → Bool) → List A → Option A
  find p [] = none
  find p (x ∷ xs) = let rest = find p xs in if p x then some x else rest

  -- Rewrite the rows that pass a test.
  unfoldable pub update_where : (A → Bool) → (A → A) → List A → List A
  update_where p f [] = []
  update_where p f (x ∷ xs) = (if p x then f x else x) ∷ update_where p f xs

abbrev pub find_lead : Db → ℕ → Option Lead
find_lead db id = find (λ l. l.id == id) db.leads

abbrev pub find_agent : Db → ℕ → Option Agent
find_agent db id = find (λ a. a.id == id) db.agents

-- Write a changed row back.
abbrev pub save_lead : Db → Lead → Db
save_lead db lead = record db { leads = update_where (λ l. l.id == lead.id) (λ _. lead) db.leads }

abbrev pub save_task : Db → FollowUpTask → Db
save_task db task = record db { tasks = update_where (λ t. t.id == task.id) (λ _. task) db.tasks }
