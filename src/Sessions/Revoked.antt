-- ===== src/Sessions/Revoked.antt =====
-- Signing out in backend/app/services/sessions.py: which tokens still work afterwards.
use realty_lead_ai_agent.Common.{
  ℕ, String, ◌≡◌, refl, ap, ◌∙◌, Bool, true, false, Bool-cases, if_rule, Option, none, some, List,
  [], ◌∷◌, ◌==◌, inl, inr, if◌then◌else◌, arith,
}
use realty_lead_ai_agent.Models.Db.{find, update_where}
use realty_lead_ai_agent.Sessions.{
  AgentSession, is_valid, touch, is_stale, has_token, resolved, resolve_session, end_at, is_open_of,
  revoke_all,
}

-- A row where it passes the test is rewritten.
abbrev rewritten : (AgentSession → Bool) → ℕ → AgentSession → AgentSession
rewritten p now r = if p r then end_at now r else r

abbrev map_row : (AgentSession → AgentSession) → Option AgentSession → Option AgentSession
map_row f none = none
map_row f (some r) = some (f r)

module _ (hash : String → String) (token : String) (p : AgentSession → Bool) (now : ℕ) where
  -- Ending sessions moves no token.
  find-end_at :
      (rows : List AgentSession)
      → find (has_token hash token) (update_where p (end_at now) rows)
        ≡ map_row (rewritten p now) (find (has_token hash token) rows)
  unfolding find update_where
  find-end_at [] = refl
  find-end_at (r ∷ rows) = elim (Bool-cases (has_token hash token r)) [
    | inl f ↦ elim (Bool-cases (p r)) [ inl e ↦ rw (e, f, e) refl | inr e ↦ rw (e, f, e) refl ]
    | inr f ↦ elim (Bool-cases (p r)) [
      | inl e ↦ rw (e, f) (find-end_at rows)
      | inr e ↦ rw (e, f) (find-end_at rows)
    ]
  ]

-- What is left of a session once an agent is signed out everywhere.
abbrev pub unless_of : ℕ → Option AgentSession → Option AgentSession
unless_of agent_id none = none
unless_of agent_id (some r) = if r.agent_id == agent_id then none else some r

agent_id-touch : (r : AgentSession) (now : ℕ) → (touch r now).agent_id ≡ r.agent_id
unfolding touch
agent_id-touch r now =
    if_rule (λ (s : AgentSession). s.agent_id ≡ r.agent_id) (is_stale r.last_used_at now) refl refl

resolved-rewritten :
    (agent_id now later : ℕ) (r : AgentSession)
    → resolved later (some (rewritten (is_open_of agent_id) now r))
      ≡ unless_of agent_id (resolved later (some r))
unfolding is_valid
resolved-rewritten agent_id now later r =
    let same = agent_id-touch r later in
    elim (Bool-cases (is_open_of agent_id r)) [
      | inl e ↦
          let a : (r.agent_id == agent_id) ≡ true = ground arith in
          elim (Bool-cases (is_valid r later)) [
            | inl v ↦ rw (e, v, same, a) refl
            | inr v ↦ rw (e, v) refl
          ]
      | inr e ↦ elim (Bool-cases (is_valid r later)) [
        | inl v ↦ let a : (r.agent_id == agent_id) ≡ false = ground arith in rw (e, v, same, a) refl
        | inr v ↦ rw (e, v) refl
      ]
    ]

-- Signing an agent out everywhere ends every session of theirs, and leaves every other token as it
-- was: from then on a token resolves to what it would have, unless that is a session of this agent.
pub resolve_session-revoke_all :
    (hash : String → String) (rows : List AgentSession) (agent_id now : ℕ) (token : String)
    (later : ℕ)
    → (resolve_session hash (revoke_all rows agent_id now).0 token later).0
      ≡ unless_of agent_id (resolve_session hash rows token later).0
unfolding resolve_session revoke_all
resolve_session-revoke_all hash rows agent_id now token later =
    ap (resolved later) (find-end_at hash token (is_open_of agent_id) now rows)
    ∙ both (find (has_token hash token) rows)
  where
    both :
        (o : Option AgentSession)
        → resolved later (map_row (rewritten (is_open_of agent_id) now) o)
          ≡ unless_of agent_id (resolved later o)
    both none = refl
    both (some r) = resolved-rewritten agent_id now later r
