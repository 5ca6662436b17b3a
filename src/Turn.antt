-- ===== src/Turn.antt =====
-- backend/app/services/turn.py: one turn for a claimed message. What `process_claimed` does, and the
-- clients that a turn needs, are parameters.
pub mod Outcomes
mod Examples
use realty_lead_ai_agent.Common.{
  ℕ, String, Bool, true, false, not, Option, none, some, List, if◌then◌else◌,
}
use realty_lead_ai_agent.Models.Rows.{Agent}
use realty_lead_ai_agent.Models.Settings.{Settings}
use realty_lead_ai_agent.Models.Db.{Db, find_agent}
use realty_lead_ai_agent.Channels.{OutboundMessage, is_set}
use realty_lead_ai_agent.RateLimit.Store.{Counters, Reply, ok, raised}
use realty_lead_ai_agent.RateLimit.{Decision, check, inbound_limit}
use realty_lead_ai_agent.InboundQueue.Redis.{Claim}

pub data TurnOutcome : Type 0 where
  completed rate_limited not_configured failed : TurnOutcome

-- `TurnOutcome.should_retry`
abbrev pub should_retry : TurnOutcome → Bool
should_retry TurnOutcome.failed = true
should_retry _ = false

-- `self is TurnOutcome.COMPLETED`
abbrev pub is_completed : TurnOutcome → Bool
is_completed TurnOutcome.completed = true
is_completed _ = false

-- The tables as the open session sees them, Redis, and the messages sent.
pub record World (S : Type 0) : Type 0 where
  pub db : Db
  pub redis : S
  pub outbox : List OutboundMessage

-- What a turn is given: Redis and the hash of its keys, the text of a lead's id, the settings, whether
-- a model client, a channel of that number and a calendar client can be built, what `process_claimed`
-- does with the tables and what it sends, and whether the database takes a commit.
pub record Env : Type 1 where
  pub redis : Counters
  pub digest : String → String
  pub id_text : ℕ → String
  pub settings : Settings
  pub has_llm : Bool
  pub has_channel : Option String → Bool
  pub has_calendar : Bool
  pub process_claimed : Claim → World redis.State → Reply (Unit {0}) × World redis.State
  pub commits : Db → Bool

module _ (env : Env) where
  open env use {redis, digest, id_text, settings}
  open redis use {State}

  abbrev pub Turn : Type 0
  Turn = World State

  -- Every exception of `process_claimed` is caught, and gives FAILED.
  abbrev processed : Reply (Unit {0}) × Turn → TurnOutcome × Turn
  processed (ok _, w) = (TurnOutcome.completed, w)
  processed (raised, w) = (TurnOutcome.failed, w)

  -- The body of the `try`: `get_one` and the clients' constructors raise inside it.
  unfoldable pub with_agent : Claim → Turn → Option Agent → TurnOutcome × Turn
  with_agent claim w none = (TurnOutcome.failed, w)
  with_agent claim w (some agent) =
      if not (is_set agent.whatsapp_phone_number_id)
      then (TurnOutcome.not_configured, w)
      else if not (env.has_channel agent.whatsapp_phone_number_id)
      then (TurnOutcome.failed, w)
      else if is_set agent.google_refresh_token
      then (if env.has_calendar
          then processed (env.process_claimed claim w)
          else (TurnOutcome.failed, w))
      else processed (env.process_claimed claim w)

  abbrev with_allowance : Claim → Turn → Decision → TurnOutcome × Turn
  with_allowance claim w d =
      if not d.allowed
      then (TurnOutcome.rate_limited, w)
      else if not env.has_llm
      then (TurnOutcome.not_configured, w)
      else with_agent claim w (find_agent w.db claim.agent_id)

  -- `_run`
  unfoldable pub run : Claim → Turn → TurnOutcome × Turn
  run claim w =
      let (d, s) = check redis digest (inbound_limit settings) (id_text claim.lead_id) w.redis in
      with_allowance claim (record w { redis = s }) d

  -- COMPLETED is committed, everything else rolled back; a commit that raises takes nothing.
  abbrev settle : Db → TurnOutcome × Turn → Reply TurnOutcome × Turn
  settle before (outcome, w) =
      if is_completed outcome
      then (if env.commits w.db then (ok outcome, w) else (raised, record w { db = before }))
      else (ok outcome, record w { db = before })

  unfoldable pub run_claim : Claim → Turn → Reply TurnOutcome × Turn
  run_claim claim w = settle w.db (run claim w)
