-- ===== src/FollowUps/Eligible.antt =====
-- When `check_eligibility` of backend/app/services/followups.py passes.
use realty_lead_ai_agent.Common.{
  ℕ, ◌≤◌, ◌<◌, ◌≡◌, ◌≢◌, ◌↔◌, Option, none, some, true, false, arith, refl, inl, inr, Option-cases,
}
use realty_lead_ai_agent.Models.Enums.{LeadStatus, ConsentStatus, ConversationStatus}
use realty_lead_ai_agent.Models.Rows.{Lead, FollowUpTask, Conversation}
use realty_lead_ai_agent.Models.Settings.{Settings}
use realty_lead_ai_agent.Models.Db.{Db}
use realty_lead_ai_agent.FollowUps.{
  check_eligibility, max_attempts, latest_conversation, replied_after, taken_over,
}

-- The lead is neither done with us nor in a human's hands.
abbrev pub IsOpen : Lead → Type 0
IsOpen lead =
    (lead.status ≢ LeadStatus.opted_out)
    × (lead.status ≢ LeadStatus.booked)
    × (lead.status ≢ LeadStatus.handed_off)

-- What makes a nudge appropriate.
pub record IsAppropriate (db : Db) (lead : Lead) (task : Option FollowUpTask) (settings : Settings)
    : Type 0 where
  pub consents : lead.consent_status ≢ ConsentStatus.opted_out
  pub is_open : IsOpen lead
  pub below_cap : lead.follow_up_count < max_attempts settings
  pub no_reply :
      (t : FollowUpTask) (baseline at : ℕ)
      → task ≡ some t
      → t.baseline_at ≡ some baseline
      → lead.last_inbound_at ≡ some at
      → at ≤ baseline
  pub no_human :
      (c : Conversation)
      → latest_conversation db lead ≡ some c
      → c.status ≢ ConversationStatus.human_takeover

not_replied :
    (task : Option FollowUpTask) (last : Option ℕ)
    → ((t : FollowUpTask) (baseline at : ℕ)
        → task ≡ some t
        → t.baseline_at ≡ some baseline
        → last ≡ some at
        → at ≤ baseline)
    → replied_after task last ≡ false
not_replied none last h = refl
not_replied (some t) none h = elim (Option-cases t.baseline_at) [ inl e ↦ rw e | inr (b, e) ↦ rw e ]
not_replied (some t) (some at) h = elim (Option-cases t.baseline_at) [
  | inl e ↦ rw e
  | inr (b, e) ↦ rw e (ground (arith, h t b at refl e refl))
]

not_taken_over :
    (o : Option Conversation)
    → ((c : Conversation) → o ≡ some c → c.status ≢ ConversationStatus.human_takeover)
    → taken_over o ≡ false
not_taken_over none h = refl
not_taken_over (some c) h = ground (arith, h c refl)

module _ (db : Db) (lead : Lead) (task : Option FollowUpTask) (settings : Settings) where
  pub ok-IsAppropriate :
      (check_eligibility db lead task settings).ok ≡ true → IsAppropriate db lead task settings
  unfolding check_eligibility
  ok-IsAppropriate h = record {
    consents = ground arith;
    is_open = ground arith;
    below_cap = ground arith;
    no_reply = λ t baseline at p q r. ground arith;
    no_human = λ c p. ground arith;
  }

  pub IsAppropriate-ok :
      IsAppropriate db lead task settings → (check_eligibility db lead task settings).ok ≡ true
  unfolding check_eligibility
  IsAppropriate-ok a = ground (
    arith,
    not_replied task lead.last_inbound_at a.no_reply,
    not_taken_over (latest_conversation db lead) a.no_human,
  )

  -- A check passes exactly when the lead has not opted out, is open, is below the cap of nudges, has
  -- not written since the baseline of the task, and no human has their latest conversation.
  pub check_eligibility_iff :
      ((check_eligibility db lead task settings).ok ≡ true) ↔ IsAppropriate db lead task settings
  check_eligibility_iff = (ok-IsAppropriate, IsAppropriate-ok)
