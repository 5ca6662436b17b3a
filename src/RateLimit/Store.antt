-- ===== src/RateLimit/Store.antt =====
-- The Redis commands that the rate limiter calls (`RedisLike` of backend/app/core/redis.py), and what
-- it relies on while Redis answers. Time does not pass within the laws: a window is one key's life.
use text.Mathlib.Text.{◌==◌ as str_eq}
use realty_lead_ai_agent.Common.{
  ℕ, suc, String, ◌≡◌, refl, ◌⊎◌, inl, inr, Option, none, some, if◌then◌else◌,
}
use realty_lead_ai_agent.Common.Int.{ℤ, pos, negsuc}

-- A command replies or raises.
pub data Reply {ℓ} (A : Type ℓ) : Type ℓ where
  ok : A → Reply A
  raised : Reply A

pub record Counters : Type 1 where
  pub State : Type 0
  pub incr : String → State → Reply ℕ × State
  pub expire : String → ℕ → State → Reply (Unit {0}) × State
  pub ttl : String → State → Reply ℤ × State
  pub delete : String → State → Reply (Unit {0}) × State

-- TTL's reply: -1 for a key with no expiry.
abbrev pub ttl_reply : Option ℕ → ℤ
ttl_reply (some t) = pos t
ttl_reply none = negsuc 0

-- Redis while it answers: `count` is a key's counter, 0 if it is not there, and `left` the seconds
-- that remain until it expires, if it does.
pub record IsUp (redis : Counters) : Type 0 where
  pub count : redis.State → String → ℕ
  pub left : redis.State → String → Option ℕ
  pub incr_reply : (k : String) (s : redis.State) → (redis.incr k s).0 ≡ ok (suc (count s k))
  pub incr_count :
      (k j : String) (s : redis.State)
      → count (redis.incr k s).1 j ≡ (if str_eq k j then suc (count s k) else count s j)
  pub incr_left : (k j : String) (s : redis.State) → left (redis.incr k s).1 j ≡ left s j
  pub expire_reply : (k : String) (n : ℕ) (s : redis.State) → (redis.expire k n s).0 ≡ ok tt
  pub expire_count :
      (k j : String) (n : ℕ) (s : redis.State) → count (redis.expire k n s).1 j ≡ count s j
  pub expire_left :
      (k j : String) (n : ℕ) (s : redis.State)
      → left (redis.expire k n s).1 j ≡ (if str_eq k j then some n else left s j)
  pub ttl_lem : (k : String) (s : redis.State) → redis.ttl k s ≡ (ok (ttl_reply (left s k)), s)

-- A table of counters that always answers.
pub record Table : Type 0 where
  pub counts : String → ℕ
  pub lefts : String → Option ℕ

abbrev update {ℓ} : {A : Type ℓ} → String → A → (String → A) → String → A
update k a f j = if str_eq k j then a else f j

abbrev pub table : Counters
table = record {
  State = Table;
  incr = λ k s. (ok (suc (s.counts k)), record s { counts = update k (suc (s.counts k)) s.counts });
  expire = λ k n s. (ok tt, record s { lefts = update k (some n) s.lefts });
  ttl = λ k s. (ok (ttl_reply (s.lefts k)), s);
  delete = λ k s. (ok tt, record s { counts = update k 0 s.counts; lefts = update k none s.lefts });
}

abbrev pub table-IsUp : IsUp table
table-IsUp = record {
  count = λ s. s.counts;
  left = λ s. s.lefts;
  incr_reply = λ k s. refl;
  incr_count = λ k j s. refl;
  incr_left = λ k j s. refl;
  expire_reply = λ k n s. refl;
  expire_count = λ k j n s. refl;
  expire_left = λ k j n s. refl;
  ttl_lem = λ k s. refl;
}

abbrev pub empty_table : Table
empty_table = record { counts = λ _. 0; lefts = λ _. none }

pub Reply-cases {ℓ} : {A : Type ℓ} (r : Reply A) → (r ≡ raised) ⊎ ((a : A) × (r ≡ ok a))
Reply-cases raised = inl refl
Reply-cases (ok a) = inr (a, refl)

pub ok_inj {ℓ} : {A : Type ℓ} {x y : A} → ok x ≡ ok y → x ≡ y
ok_inj e = cc
