-- ===== src/Ingestion/Once.antt =====
-- Repeated deliveries to `claim_inbound` of backend/app/services/ingestion.py.
use realty_lead_ai_agent.Common.{
  ℕ, ◌+◌, ◌<◌, ◌∙◌, String, ◌≡◌, ◌≢◌, refl, true, false, Option, some, inl, inr, List, [], ◌∷◌,
  ◌++◌, arith, eq_iff, Bool-cases, Option-cases,
}
use realty_lead_ai_agent.Models.Enums.{Language, Channel, same_channel}
use realty_lead_ai_agent.Models.Rows.{Message, Lead, Agent}
use realty_lead_ai_agent.Models.Db.{Db}
use realty_lead_ai_agent.Channels.{is_set}
use realty_lead_ai_agent.Ingestion.{
  InboundMessage, Race, integrity_error, lead_violates, unknown_agent, duplicate, recorded,
  is_known, violates, inbound_row, flush_claim, get_or_create_conversation, get_or_create_lead,
  resolve_agent, claim_inbound,
}

recorded-append :
    (channel : Channel) (x : String) (ms ns : List Message)
    → recorded channel x (ms ++ ns) ≡ recorded channel x ms + recorded channel x ns
unfolding recorded
recorded-append channel x [] ns = ground arith
recorded-append channel x (m ∷ ms) ns = ground (arith, recorded-append channel x ms ns)

same_channel_refl : (a : Channel) → same_channel a a ≡ true
unfolding same_channel
same_channel_refl a = ground arith

-- A row is recorded under its own id.
recorded-own :
    (ms : List Message) (m : Message) (y : String)
    → m.external_id ≡ some y
    → 0 < recorded m.channel y (ms ++ m ∷ [])
unfolding recorded
recorded-own ms m y e = ground (
  arith,
  recorded-append m.channel y ms (m ∷ []),
  e,
  same_channel_refl m.channel,
  (eq_iff y y).1 refl,
)

agents-get_or_create_lead :
    (db : Db) (agent : Agent) (phone source : String) (name : Option String) (language : Language)
    → (get_or_create_lead db agent phone source name language).0.agents ≡ db.agents
unfolding get_or_create_lead
agents-get_or_create_lead db agent phone source name language = ground arith

agents-get_or_create_conversation :
    (db : Db) (lead : Lead) (channel : Channel)
    → (get_or_create_conversation db lead channel).0.agents ≡ db.agents
unfolding get_or_create_conversation
agents-get_or_create_conversation db lead channel = ground arith

module _ (db : Db) (race : Race) (now : ℕ) (inbound : InboundMessage) (agent : Agent)
    (found : Db × Lead) where
  row : Message
  row =
      let (db', conversation) = get_or_create_conversation found.0 found.1 inbound.channel in
      inbound_row db'.next_id conversation inbound now

  flush_claim-agents :
      found.0.agents ≡ db.agents
      → (flush_claim db race now inbound agent found).1.agents ≡ db.agents
  unfolding flush_claim row
  flush_claim-agents h = elim (Bool-cases (violates (db.messages ++ race.messages) row)) [
    | inl e ↦ rw (e, flush_claim) refl
    | inr e ↦
        rw (e, flush_claim) (agents-get_or_create_conversation found.0 found.1 inbound.channel ∙ h)
  ]

  flush_claim-recorded :
      (y : String)
      → inbound.external_id ≡ some y
      → 0 < recorded inbound.channel y (flush_claim db race now inbound agent found).1.messages
  unfolding flush_claim row
  flush_claim-recorded y x = elim (Bool-cases (violates (db.messages ++ race.messages) row)) [
    | inl e ↦ rw (e, flush_claim) (ground (arith, e, x))
    | inr e ↦ rw (e, flush_claim) (recorded-own (db.messages ++ race.messages) row y x)
  ]

  flush_claim-is_known :
      is_set inbound.external_id ≡ true
      → is_known (flush_claim db race now inbound agent found).1 inbound ≡ true
  flush_claim-is_known h = elim (Option-cases inbound.external_id) [
    | inl e ↦ ground (arith, h, e)
    | inr (y, x) ↦ ground (arith, h, x, flush_claim-recorded y x)
  ]

abbrev lead_of : Db → Agent → InboundMessage → String → Db × Lead
lead_of db agent inbound source =
    get_or_create_lead db agent inbound.sender source inbound.profile_name Language.english

claim_known :
    (db : Db) (race : Race) (now : ℕ) (inbound : InboundMessage) (source : String) (a : Agent)
    → resolve_agent db inbound.recipient ≡ some a
    → is_known db inbound ≡ true
    → claim_inbound db race now inbound source ≡ (duplicate, db)
unfolding claim_inbound
claim_known db race now inbound source a e f = rw (e, claim_inbound, f) refl

claim_unknown :
    (db : Db) (race : Race) (now : ℕ) (inbound : InboundMessage) (source : String) (a : Agent)
    → resolve_agent db inbound.recipient ≡ some a
    → is_known db inbound ≡ false
    → lead_violates db race a inbound.sender ≡ false
    → claim_inbound db race now inbound source
      ≡ flush_claim db race now inbound a (lead_of db a inbound source)
unfolding claim_inbound
claim_unknown db race now inbound source a e f g = rw (e, claim_inbound, f, g) refl

resolve_agent-eq :
    (db db' : Db) (r : Option String)
    → db'.agents ≡ db.agents
    → resolve_agent db' r ≡ resolve_agent db r
unfolding resolve_agent
resolve_agent-eq db db' r h = rw h refl

module _ (db : Db) (race : Race) (now : ℕ) (inbound : InboundMessage) (source : String) where
  -- What a delivery to a known agent leaves behind.
  record Leaves (a : Agent) (db' : Db) : Type 0 where
    agent : resolve_agent db' inbound.recipient ≡ some a
    known : is_known db' inbound ≡ true

  no_clash :
      (a : Agent)
      → resolve_agent db inbound.recipient ≡ some a
      → is_known db inbound ≡ false
      → (claim_inbound db race now inbound source).0 ≢ integrity_error
      → lead_violates db race a inbound.sender ≡ false
  unfolding claim_inbound
  no_clash a e f n = elim (Bool-cases (lead_violates db race a inbound.sender)) [
    | inl g ↦ absurd (n (rw (e, claim_inbound, f, g) refl))
    | inr g ↦ g
  ]

  claim_inbound-Leaves :
      (a : Agent)
      → resolve_agent db inbound.recipient ≡ some a
      → is_set inbound.external_id ≡ true
      → (claim_inbound db race now inbound source).0 ≢ integrity_error
      → Leaves a (claim_inbound db race now inbound source).1
  claim_inbound-Leaves a e h n = elim (Bool-cases (is_known db inbound)) [
    | inl f ↦ rw (claim_known db race now inbound source a e f) (record { agent = e; known = f })
    | inr f ↦
        let g = no_clash a e f n in
        let found = lead_of db a inbound source in
        let same = flush_claim-agents db race now inbound a found (
          agents-get_or_create_lead db a inbound.sender source inbound.profile_name
            Language.english) in
        rw (claim_unknown db race now inbound source a e f g) (record {
          agent =
              resolve_agent-eq db (flush_claim db race now inbound a found).1 inbound.recipient same
              ∙ e;
          known = flush_claim-is_known db race now inbound a found h;
        })
  ]

  -- A message with an id that was delivered, and claimed or found to be a duplicate, is a duplicate
  -- when it is delivered again, and the second delivery changes nothing.
  pub claim_inbound_twice :
      (race' : Race) (now' : ℕ) (source' : String)
      → is_set inbound.external_id ≡ true
      → (claim_inbound db race now inbound source).0 ≢ unknown_agent
      → (claim_inbound db race now inbound source).0 ≢ integrity_error
      → let db' = (claim_inbound db race now inbound source).1 in
        claim_inbound db' race' now' inbound source' ≡ (duplicate, db')
  unfolding claim_inbound
  claim_inbound_twice race' now' source' h k n =
      elim (Option-cases (resolve_agent db inbound.recipient)) [
        | inl e ↦ absurd (k (rw (e, claim_inbound) refl))
        | inr (a, e) ↦
            let left = claim_inbound-Leaves a e h n in
            claim_known (claim_inbound db race now inbound source).1 race' now' inbound source' a
              left.agent left.known
      ]
