-- ===== src/Sessions/Examples.antt =====
-- Tests of the sessions: two agents, one of whom signs out everywhere.
use realty_lead_ai_agent.Common.{ℕ, String, ◌≡◌, refl, none, List, [], ◌∷◌}
use realty_lead_ai_agent.Models.Db.{find, update_where}
use realty_lead_ai_agent.Sessions.{AgentSession, default_ttl, is_valid, resolve_session, revoke_all}
use realty_lead_ai_agent.Sessions.Revoked.{unless_of, resolve_session-revoke_all}

abbrev session : ℕ → String → AgentSession
session n token = record {
  id = n;
  agent_id = n;
  token_hash = token;
  expires_at = default_ttl;
  last_used_at = none;
  revoked_at = none;
  user_agent = none;
}

abbrev signed_in : List AgentSession
signed_in = session 1 "a" ∷ session 2 "b" ∷ []

signed_out : (resolve_session (λ s. s) (revoke_all signed_in 1 50).0 "a" 60).0 ≡ none
unfolding resolve_session revoke_all find update_where is_valid
signed_out = refl

resolve_session-revoke_all_example :
    (resolve_session (λ s. s) (revoke_all signed_in 1 50).0 "b" 60).0
    ≡ unless_of 1 (resolve_session (λ s. s) signed_in "b" 60).0
resolve_session-revoke_all_example = resolve_session-revoke_all (λ s. s) signed_in 1 50 "b" 60
