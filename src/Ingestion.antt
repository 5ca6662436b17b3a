-- ===== src/Ingestion.antt =====
-- backend/app/services/ingestion.py: claiming an inbound message, and delivery receipts. A flush is
-- checked against the unique constraint on (channel, external_id) of the table of messages.
pub mod Once
pub mod Receipts
mod Examples
use text.Mathlib.Text.{◌==◌ as str_eq}
use realty_lead_ai_agent.Common.{
  ℕ, suc, ◌+◌, String, Bool, true, false, not, Option, none, some, List, [], ◌∷◌, ◌++◌, ltb, ◌==◌,
  ◌&&◌, if◌then◌else◌, get_or, length, filter,
}
use realty_lead_ai_agent.Models.Enums.{
  Language, LeadTemperature, LeadPurpose, Channel, same_channel, LeadStatus, ConsentStatus,
  ConversationStatus, MessageRole, MessageDirection, MessageStatus,
}
use realty_lead_ai_agent.Models.Rows.{Lead, Agent, Conversation, Message, is_closed}
use realty_lead_ai_agent.Models.Db.{Db, find, latest, update_where, save_lead}
use realty_lead_ai_agent.Channels.{or_text, is_set}
use realty_lead_ai_agent.InboundQueue.Redis.{Claim}

-- `InboundMessage` of backend/app/channels/base.py, with the profile name of its `raw`
pub record InboundMessage : Type 0 where
  pub channel : Channel
  pub sender : String
  pub text : String
  pub external_id : Option String
  pub received_at : Option ℕ
  pub profile_name : Option String
  pub recipient : Option String

-- `StatusUpdate` of backend/app/channels/whatsapp_payload.py
pub record StatusUpdate : Type 0 where
  pub external_id : String
  pub status : MessageStatus
  pub error : Option String

-- The text stands in the column.
abbrev pub is_text : String → Option String → Bool
is_text x none = false
is_text x (some y) = str_eq x y

-- The only row. `scalar_one_or_none` raises where there are several.
abbrev pub sole {ℓ} : {A : Type ℓ} → List A → Option A
sole [] = none
sole (x ∷ []) = some x
sole (x ∷ y ∷ xs) = none

-- None where it raises: `UnknownAgentError` for no number and for no agent, and the query's own error
-- where several active agents have the number.
unfoldable pub resolve_agent : Db → Option String → Option Agent
resolve_agent db number =
    if is_set number
    then sole (
        filter (λ a. is_text (or_text number "") a.whatsapp_phone_number_id && a.is_active)
          db.agents)
    else none

abbrev new_lead : Db → Agent → String → String → Option String → Language → Lead
new_lead db agent phone source profile_name language = record {
  id = db.next_id;
  agent_id = agent.id;
  name = profile_name;
  phone = phone;
  source = source;
  language = language;
  timezone = agent.timezone;
  status = LeadStatus.new;
  consent_status = ConsentStatus.unknown;
  opted_out_at = none;
  last_inbound_at = none;
  last_outbound_at = none;
  follow_up_count = 0;
  handed_off_at = none;
  handoff_reason = none;
  email = none;
  budget_min = none;
  budget_max = none;
  preferred_locations = [];
  property_type = none;
  bhk = none;
  timeline_months = none;
  loan_preapproved = none;
  site_visit_willing = none;
  purpose = LeadPurpose.unknown;
  notes = none;
  score = 0;
  temperature = LeadTemperature.cold;
  score_reasons = [];
  scored_at = none;
}

-- A lead who is known gets the profile's name if they have none.
abbrev name_lead : Db → Lead → Option String → Db × Lead
name_lead db lead profile_name =
    if is_set profile_name && not (is_set lead.name)
    then (save_lead db (record lead { name = profile_name }), record lead { name = profile_name })
    else (db, lead)

unfoldable pub get_or_create_lead :
    Db → Agent → String → String → Option String → Language → Db × Lead
get_or_create_lead db agent phone source profile_name language =
    elim (find (λ l. l.agent_id == agent.id && str_eq l.phone phone) db.leads) [
      | some lead ↦ name_lead db lead profile_name
      | none ↦
          let lead = new_lead db agent phone source profile_name language in
          (record db { leads = db.leads ++ lead ∷ []; next_id = suc db.next_id }, lead)
    ]

unfoldable pub get_or_create_conversation : Db → Lead → Channel → Db × Conversation
get_or_create_conversation db lead channel =
    elim (latest
      (λ c. c.lead_id == lead.id && same_channel c.channel channel && not (is_closed c.status))
      db.conversations) [
        | some c ↦ (db, c)
        | none ↦
            let c : Conversation = record {
              id = db.next_id;
              lead_id = lead.id;
              channel = channel;
              status = ConversationStatus.active;
              last_message_at = none;
            } in
            (record db { conversations = db.conversations ++ c ∷ []; next_id = suc db.next_id }, c)
      ]

-- The message is known by this id of the provider.
abbrev pub has_id : Channel → String → Message → Bool
has_id channel x m = same_channel m.channel channel && is_text x m.external_id

-- How many messages the provider knows by this id.
unfoldable pub recorded : Channel → String → List Message → ℕ
recorded channel x ms = length (filter (has_id channel x) ms)

-- `already is not None`
abbrev pub is_recorded : Channel → String → List Message → Bool
is_recorded channel x ms = ltb 0 (recorded channel x ms)

-- The unique constraint: a row with no external id breaks it never.
abbrev pub violates : List Message → Message → Bool
violates ms m = elim m.external_id [ none ↦ false | some x ↦ is_recorded m.channel x ms ]

-- The call raised as `resolve_agent` did, or with the IntegrityError of a lead's flush, returned None,
-- or returned a claim.
pub data ClaimResult : Type 0 where
  unknown_agent integrity_error duplicate : ClaimResult
  claimed : Claim → ClaimResult

abbrev opt_in : ConsentStatus → ConsentStatus
opt_in ConsentStatus.unknown = ConsentStatus.opted_in
opt_in c = c

abbrev inbound_row : ℕ → Conversation → InboundMessage → ℕ → Message
inbound_row id conversation inbound now = record {
  id = id;
  conversation_id = conversation.id;
  role = MessageRole.lead;
  direction = MessageDirection.inbound;
  channel = inbound.channel;
  status = MessageStatus.received;
  content = inbound.text;
  external_id = inbound.external_id;
  delivery_error = none;
  sent_at = some (get_or inbound.received_at now);
}

-- Commits of other deliveries, between this one's checks and its flushes.
pub record Race : Type 0 where
  pub messages : List Message
  pub leads : List Lead

abbrev pub arrive : Db → Race → Db
arrive db race = record db {
  messages = db.messages ++ race.messages;
  leads = db.leads ++ race.leads;
}

abbrev is_lead_of : Agent → String → Lead → Bool
is_lead_of agent phone l = l.agent_id == agent.id && str_eq l.phone phone

-- The unique constraint on (agent_id, phone), for a lead that is new: the flush of
-- `get_or_create_lead` raises, and nothing catches it.
abbrev pub lead_violates : Db → Race → Agent → String → Bool
lead_violates db race agent phone = elim (find (is_lead_of agent phone) db.leads) [
  | some lead ↦ false
  | none ↦ ltb 0 (length (filter (is_lead_of agent phone) race.leads))
]

-- From the rows to the flush; an IntegrityError rolls the session back.
unfoldable pub flush_claim : Db → Race → ℕ → InboundMessage → Agent → Db × Lead → ClaimResult × Db
flush_claim before race now inbound agent (db, lead) =
    let (db', conversation) = get_or_create_conversation db lead inbound.channel in
    let message = inbound_row db'.next_id conversation inbound now in
    let opted = record lead { consent_status = opt_in lead.consent_status } in
    if violates (before.messages ++ race.messages) message
    then (duplicate, arrive before race)
    else (
      claimed (record {
        lead_id = lead.id;
        agent_id = agent.id;
        message_id = message.id;
        text = inbound.text;
        channel = inbound.channel;
      }),
      record (save_lead db' opted) {
        messages = (before.messages ++ race.messages) ++ message ∷ [];
        leads = (save_lead db' opted).leads ++ race.leads;
        conversations =
            update_where (λ c. c.id == conversation.id)
              (λ c. record c { last_message_at = message.sent_at }) db'.conversations;
        next_id = suc db'.next_id;
      },
    )

-- `inbound.external_id` counts as true and is recorded already.
abbrev pub is_known : Db → InboundMessage → Bool
is_known db inbound =
    if is_set inbound.external_id
    then is_recorded inbound.channel (or_text inbound.external_id "") db.messages
    else false

unfoldable pub claim_inbound : Db → Race → ℕ → InboundMessage → String → ClaimResult × Db
claim_inbound db race now inbound source = elim (resolve_agent db inbound.recipient) [
  | none ↦ (unknown_agent, db)
  | some agent ↦
      if is_known db inbound
      then (duplicate, db)
      else if lead_violates db race agent inbound.sender
      then (integrity_error, arrive db race)
      else flush_claim db race now inbound agent
          (get_or_create_lead db agent inbound.sender source inbound.profile_name Language.english)
]

-- `_rank`
abbrev pub rank : MessageStatus → ℕ
rank MessageStatus.pending = 0
rank MessageStatus.sent = 1
rank MessageStatus.delivered = 2
rank MessageStatus.read = 3
rank MessageStatus.received = 3
rank MessageStatus.failed = 4

abbrev note_error : StatusUpdate → Message → Message
note_error u m = if is_set u.error then record m { delivery_error = u.error } else m

-- What one receipt does to the message that it is for.
unfoldable pub receipt : StatusUpdate → Message → Message
receipt u m =
    note_error u (if ltb (rank m.status) (rank u.status) then record m { status = u.status } else m)

abbrev pub is_for : StatusUpdate → Message → Bool
is_for u m = has_id Channel.whatsapp u.external_id m

-- One round of the loop: the messages after it, and the count of changes.
unfoldable pub apply_update : StatusUpdate → List Message → List Message × ℕ
apply_update u ms = elim (find (is_for u) ms) [
  | none ↦ (ms, 0)
  | some m ↦
      (update_where (is_for u) (receipt u) ms, if ltb (rank m.status) (rank u.status) then 1 else 0)
]

unfoldable pub apply_status_updates : List StatusUpdate → List Message → List Message × ℕ
apply_status_updates [] ms = (ms, 0)
apply_status_updates (u ∷ us) ms =
    let (ms', n) = apply_update u ms in let (ms'', k) = apply_status_updates us ms' in (ms'', n + k)
