-- ===== src/RateLimit/Window.antt =====
-- What `check` of backend/app/services/ratelimit.py allows within one window.
use text.Mathlib.TextPositions.{eq_refl}
use realty_lead_ai_agent.Common.{
  ℕ, zero, suc, ◌+◌, ◌≤◌, ◌<◌, min, String, ◌≡◌, refl, ◌≢◌, ◌⊎◌, inl, inr, none, true, false, leb,
  ◌==◌, Bool-cases, if◌then◌else◌, arith,
}
use realty_lead_ai_agent.Common.Int.{ℤ, pos, negsuc}
use realty_lead_ai_agent.RateLimit.Store.{Counters, Reply, ok, raised, IsUp}
use realty_lead_ai_agent.RateLimit.{
  Limit, Decision, limit_key, fail_open, after_expire, after_ttl, check, after_incr,
}

-- What Redis answered to a call that was not allowed: TTL gave a time that is left, or none, and then
-- EXPIRE went through.
abbrev Answered : (redis : Counters) → Limit → String → Reply ℤ × redis.State → Type 0
Answered redis limit k (r, s) =
    (t : ℤ) × (r ≡ ok t)
    × (((u : ℕ) × (t ≡ pos u)) ⊎ ((redis.expire k limit.window_seconds s).0 ≡ ok tt))

-- A check that was rejected: INCR, TTL and, where it is called, EXPIRE all answered.
abbrev pub IsRejection : (redis : Counters) → Limit → String → redis.State → Type 0
IsRejection redis limit k s =
    let (r, s') = redis.incr k s in
    (n : ℕ) × (r ≡ ok n) × (limit.max_events < n) × Answered redis limit k (redis.ttl k s')

module _ (redis : Counters) (digest : String → String) (limit : Limit) (k : String) where
  open redis use {State, incr, expire, ttl}

  after_expire_rejected :
      (m : Reply (Unit {0}) × State) (d : Decision)
      → (after_expire redis digest m limit d).0.allowed ≡ false
      → m.0 ≡ ok tt
  unfolding after_expire fail_open
  after_expire_rejected (ok tt, s) d h = refl
  after_expire_rejected (raised, s) d h = cc

  after_expire_allowed :
      (m : Reply (Unit {0}) × State) (d : Decision)
      → d.allowed ≡ true
      → (after_expire redis digest m limit d).0.allowed ≢ false
  unfolding after_expire fail_open
  after_expire_allowed (ok u, s) d e h = cc
  after_expire_allowed (raised, s) d e h = cc

  after_ttl_rejected :
      (m : Reply ℤ × State)
      → (after_ttl redis digest m limit k).0.allowed ≡ false
      → Answered redis limit k m
  unfolding after_ttl fail_open
  after_ttl_rejected (raised, s) h = cc
  after_ttl_rejected (ok (pos t), s) h = (pos t, refl, inl (t, refl))
  after_ttl_rejected (ok (negsuc t), s) h =
      (negsuc t, refl, inr (after_expire_rejected (expire k limit.window_seconds s) _ h))

  after_incr_rejected :
      (m : Reply ℕ × State)
      → (after_incr redis digest m limit k).0.allowed ≡ false
      → (n : ℕ) × (m.0 ≡ ok n)
        × (limit.max_events < n)
        × ((after_ttl redis digest (ttl k m.1) limit k).0.allowed ≡ false)
  unfolding after_incr
  after_incr_rejected (raised, s) h = cc
  after_incr_rejected (ok n, s) h = elim (Bool-cases (n == 1)) [
    | inl e ↦ absurd (after_expire_allowed (expire k limit.window_seconds s) _ refl (rw e at h))
    | inr e ↦ elim (Bool-cases (leb n limit.max_events)) [
      | inl f ↦ absurd (refuse (rw (e, f) at h))
      | inr f ↦ (n, refl, ground arith, rw (e, f) at h)
    ]
  ]
    where
      refuse : true ≢ false
      refuse e = cc

-- A check that is not allowed had INCR reply with a count over `max_events`, TTL reply, and EXPIRE go
-- through where TTL found no time that is left: a failure of any of them lets the event pass.
pub rejected_needs_count :
    (redis : Counters) (digest : String → String) (limit : Limit) (subject : String)
    (s : redis.State)
    → (check redis digest limit subject s).0.allowed ≡ false
    → IsRejection redis limit (limit_key digest limit subject) s
unfolding check
rejected_needs_count redis digest limit subject s h =
    let k = limit_key digest limit subject in
    let (n, e, over, later) = after_incr_rejected redis digest limit k (redis.incr k s) h in
    (n, e, over, after_ttl_rejected redis digest limit k (redis.ttl k (redis.incr k s).1) later)

module _ {redis : Counters} (up : IsUp redis) (digest : String → String) (limit : Limit)
    (subject : String) where
  open redis use {State, incr, expire, ttl}

  abbrev pub key : String
  key = limit_key digest limit subject

  check_up :
      (s : State)
      → 1 ≤ limit.max_events
      → (up.count (check redis digest limit subject s).1 key ≡ suc (up.count s key))
        × ((check redis digest limit subject s).0.allowed
            ≡ leb (suc (up.count s key)) limit.max_events)
  unfolding check
  check_up s h = ground (
    arith,
    eq_refl key,
    up.incr_reply key s,
    up.incr_count key key s,
    up.expire_reply key limit.window_seconds (incr key s).1,
    up.expire_count key key limit.window_seconds (incr key s).1,
    up.ttl_lem key (incr key s).1,
  )

  -- With Redis up, the key has an expiry after the first event of a window and after every rejected
  -- one, so no subject stays blocked for good.
  pub check_clears :
      (s : State)
      → 1 ≤ limit.max_events
      → (up.count s key ≡ 0) ⊎ ((check redis digest limit subject s).0.allowed ≡ false)
      → up.left (check redis digest limit subject s).1 key ≢ none
  unfolding check
  check_clears s h w = ground (
    arith,
    eq_refl key,
    up.incr_reply key s,
    up.incr_count key key s,
    up.incr_left key key s,
    up.expire_reply key limit.window_seconds (incr key s).1,
    up.expire_left key key limit.window_seconds (incr key s).1,
    up.ttl_lem key (incr key s).1,
  )

  -- The number of checks allowed among `n` made one after the other.
  abbrev pub count_allowed : ℕ → State → ℕ
  count_allowed zero s = 0
  count_allowed (suc n) s =
      let (d, s') = check redis digest limit subject s in
      let rest = count_allowed n s' in if d.allowed then suc rest else rest

  count_allowed-add :
      (n : ℕ) (s : State)
      → 1 ≤ limit.max_events
      → count_allowed n s + min (up.count s key) limit.max_events
        ≡ min (up.count s key + n) limit.max_events
  count_allowed-add zero s h = omega arith
  count_allowed-add (suc n) s h =
      ground (arith, check_up s h, count_allowed-add n (check redis digest limit subject s).1 h)

  -- With Redis up, of any number of checks in one window exactly the first `max_events` are allowed.
  pub window_budget :
      (n : ℕ) (s : State)
      → 1 ≤ limit.max_events
      → up.count s key ≡ 0
      → count_allowed n s ≡ min n limit.max_events
  window_budget n s h fresh = omega (arith, count_allowed-add n s h)
