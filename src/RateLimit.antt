-- ===== src/RateLimit.antt =====
-- backend/app/services/ratelimit.py: fixed-window limits on Redis counters. Redis, and the hash of a
-- subject, are parameters.
pub mod Store
pub mod Window
mod Examples
use realty_lead_ai_agent.Common.{ℕ, ◌-◌, String, Bool, true, false, leb, ◌==◌, if◌then◌else◌}
use realty_lead_ai_agent.Common.Int.{ℤ, pos, negsuc}
use realty_lead_ai_agent.Models.Settings.{Settings}
use realty_lead_ai_agent.Templates.Text.{concat}
use Store.{Counters, Reply, ok, raised}

pub record Limit : Type 0 where
  pub name : String
  pub max_events : ℕ
  pub window_seconds : ℕ

pub record Decision : Type 0 where
  pub allowed : Bool
  pub limit : Limit
  pub remaining : ℕ
  pub retry_after_seconds : ℕ

abbrev pub decide : Bool → Limit → ℕ → ℕ → Decision
decide a l r t = record { allowed = a; limit = l; remaining = r; retry_after_seconds = t }

-- `_key`: the prefix, the limit's name and the first 32 digits of the subject's SHA-256.
unfoldable pub limit_key : (String → String) → Limit → String → String
unfolding concat
limit_key digest limit subject =
    concat "realtylead:rl:" (concat limit.name (concat ":" (digest subject)))

module _ (redis : Counters) (digest : String → String) where
  open redis use {State, incr, expire, ttl, delete}

  -- `except Exception`: the check is allowed.
  fail_open : Limit → State → Decision × State
  fail_open limit s = (decide true limit limit.max_events 0, s)

  -- The reply to `EXPIRE` carries nothing that is read; only its failure matters.
  after_expire : Reply (Unit {0}) × State → Limit → Decision → Decision × State
  after_expire (ok _, s) limit d = (d, s)
  after_expire (raised, s) limit d = fail_open limit s

  after_ttl : Reply ℤ × State → Limit → String → Decision × State
  unfolding after_expire fail_open
  after_ttl (raised, s) limit key = fail_open limit s
  after_ttl (ok (pos t), s) limit key = (decide false limit 0 t, s)
  after_ttl (ok (negsuc _), s) limit key =
      after_expire (expire key limit.window_seconds s) limit
        (decide false limit 0 limit.window_seconds)

  after_incr : Reply ℕ × State → Limit → String → Decision × State
  unfolding after_expire after_ttl fail_open
  after_incr (raised, s) limit key = fail_open limit s
  after_incr (ok count, s) limit key =
      if count == 1
      then after_expire (expire key limit.window_seconds s) limit
          (decide true limit (limit.max_events - 1) 0)
      else if leb count limit.max_events
      then (decide true limit (limit.max_events - count) 0, s)
      else after_ttl (ttl key s) limit key

  unfoldable pub check : Limit → String → State → Decision × State
  unfolding after_incr
  check limit subject s =
      let key = limit_key digest limit subject in after_incr (incr key s) limit key

  -- A failure is logged, and the budget stays as it was.
  unfoldable pub reset : Limit → String → State → State
  reset limit subject s = (delete (limit_key digest limit subject) s).1

abbrev pub inbound_limit : Settings → Limit
inbound_limit settings = record {
  name = "inbound";
  max_events = settings.inbound_messages_per_lead;
  window_seconds = settings.inbound_window_seconds;
}

abbrev pub follow_up_limit : Settings → Limit
follow_up_limit settings = record {
  name = "followup";
  max_events = settings.follow_ups_per_agent;
  window_seconds = settings.follow_up_window_seconds;
}

abbrev pub login_limit : Settings → Limit
login_limit settings = record {
  name = "login";
  max_events = settings.login_attempts_per_window;
  window_seconds = settings.login_window_seconds;
}
