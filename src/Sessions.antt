-- ===== src/Sessions.antt =====
-- backend/app/services/sessions.py and backend/app/models/session.py: the sessions of the dashboard.
-- The SHA-256 of a token and the random tokens are parameters. The column of the hashes is unique, so
-- a query finds one row or none.
pub mod Revoked
mod Examples
use text.Mathlib.Text.{◌==◌ as str_eq}
use realty_lead_ai_agent.Common.{
  ℕ, ◌+◌, ◌*◌, String, Bool, true, false, ◌&&◌, Option, none, some, List, [], ◌∷◌, ◌++◌, ltb, ◌==◌,
  if◌then◌else◌, is_none, length, filter,
}
use realty_lead_ai_agent.Models.Db.{find, update_where}
use realty_lead_ai_agent.Channels.{or_text}
use realty_lead_ai_agent.Templates.Text.{truncate}
use realty_lead_ai_agent.Zones.{minute_us, day_us}

pub record AgentSession : Type 0 where
  pub id : ℕ
  pub agent_id : ℕ
  pub token_hash : String
  pub expires_at : ℕ
  pub last_used_at : Option ℕ
  pub revoked_at : Option ℕ
  pub user_agent : Option String

abbrev pub default_ttl : ℕ
default_ttl = 14 * day_us

abbrev pub touch_interval : ℕ
touch_interval = 15 * minute_us

-- `AgentSession.is_valid`
unfoldable pub is_valid : AgentSession → ℕ → Bool
is_valid r now = is_none r.revoked_at && ltb now r.expires_at

-- `text or None`
abbrev or_none : String → Option String
or_none s = if str_eq s "" then none else some s

unfoldable pub create_session :
    (String → String)
    → List AgentSession
    → ℕ
    → ℕ
    → String
    → Option String
    → ℕ
    → ℕ
    → List AgentSession
create_session hash rows id agent_id token user_agent ttl now =
    rows
    ++ record {
      id = id;
      agent_id = agent_id;
      token_hash = hash token;
      expires_at = now + ttl;
      last_used_at = none;
      revoked_at = none;
      user_agent = or_none (truncate 255 (or_text user_agent ""));
    }
      ∷ []

-- `last_used_at` is None, or further back than the interval.
abbrev pub is_stale : Option ℕ → ℕ → Bool
is_stale none now = true
is_stale (some used) now = ltb (used + touch_interval) now

unfoldable pub touch : AgentSession → ℕ → AgentSession
touch r now = if is_stale r.last_used_at now then record r { last_used_at = some now } else r

abbrev pub has_token : (String → String) → String → AgentSession → Bool
has_token hash token r = str_eq r.token_hash (hash token)

abbrev pub resolved : ℕ → Option AgentSession → Option AgentSession
resolved now none = none
resolved now (some r) = if is_valid r now then some (touch r now) else none

abbrev store : List AgentSession → Option AgentSession → List AgentSession
store rows none = rows
store rows (some r) = update_where (λ s. s.id == r.id) (λ _. r) rows

-- The live session, and the rows once it is touched.
unfoldable pub resolve_session :
    (String → String) → List AgentSession → String → ℕ → Option AgentSession × List AgentSession
resolve_session hash rows token now =
    let r = resolved now (find (has_token hash token) rows) in (r, store rows r)

abbrev pub end_at : ℕ → AgentSession → AgentSession
end_at now r = record r { revoked_at = some now }

unfoldable pub revoke : List AgentSession → ℕ → ℕ → List AgentSession
revoke rows id now = update_where (λ r. r.id == id) (end_at now) rows

abbrev pub is_open_of : ℕ → AgentSession → Bool
is_open_of agent_id r = r.agent_id == agent_id && is_none r.revoked_at

unfoldable pub revoke_all : List AgentSession → ℕ → ℕ → List AgentSession × ℕ
revoke_all rows agent_id now = (
  update_where (is_open_of agent_id) (end_at now) rows,
  length (filter (is_open_of agent_id) rows),
)

abbrev pub is_over : ℕ → AgentSession → Bool
is_over now r = ltb r.expires_at now && is_none r.revoked_at

unfoldable pub purge_expired : List AgentSession → ℕ → List AgentSession × ℕ
purge_expired rows now =
    (update_where (is_over now) (end_at now) rows, length (filter (is_over now) rows))
