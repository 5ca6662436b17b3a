-- ===== src/InboundQueue.antt =====
-- backend/app/services/inbound_queue.py: the durable queue of inbound messages on Redis Streams. An
-- operation is a function of the state of Redis; a call that raises ends it there.
pub mod Redis
pub mod Held
pub mod Reclaim
pub mod Budget
pub mod Attempts
pub mod Fake
mod Examples
use realty_lead_ai_agent.Common.{
  ℕ, suc, ◌+◌, min, String, ◌≡◌, Bool, true, false, Option, none, some, List, [], ◌∷◌, leb, get_or,
  if◌then◌else◌,
}
use realty_lead_ai_agent.RateLimit.Store.{Reply, ok, raised}
use realty_lead_ai_agent.Channels.{or_text}
use Redis.{StreamName, inbound, dead, Fields, Claim, Codec, Created, created, busy, failed, Streams}

abbrev pub max_stream_length : ℕ
max_stream_length = 10_000

abbrev pub max_attempts : ℕ
max_attempts = 4

-- `MAX_BLOCK_MS` of backend/app/core/redis.py
abbrev pub max_block_ms : ℕ
max_block_ms = 20_000

pub record QueuedClaim : Type 0 where
  pub entry_id : String
  pub claim : Claim
  pub attempts : ℕ
  pub enqueued_at : String

abbrev pub is_last_attempt : QueuedClaim → Bool
is_last_attempt q = leb max_attempts q.attempts

-- `_decode` gives a claim, nothing for a claim that cannot be read, or raises for a count that is no
-- number.
pub data Decoded : Type 0 where
  queued : QueuedClaim → Decoded
  unusable : Decoded
  crashed : Decoded

pub record ReclaimReport : Type 0 where
  pub retried : ℕ
  pub dead_lettered : ℕ
  pub discarded : ℕ

abbrev pub empty_report : ReclaimReport
empty_report = record { retried = 0; dead_lettered = 0; discarded = 0 }

-- `ReclaimReport.total`
abbrev pub total : ReclaimReport → ℕ
total r = r.retried + r.dead_lettered + r.discarded

pub record Depth : Type 0 where
  pub in_flight : ℕ
  pub retained : ℕ
  pub dead_lettered : ℕ

module _ (codec : Codec) where
  open codec use {dumps, loads, show, parse, isoformat}

  -- `_encode` at the moment `now`
  unfoldable pub encode : ℕ → Claim → ℕ → Option String → Fields
  encode now claim attempts enqueued_at = record {
    claim = some (dumps claim);
    attempts = some (show attempts);
    enqueued_at = some (or_text enqueued_at (isoformat now));
    reason = none;
    dead_lettered_at = none;
  }

  abbrev pub load_claim : Option String → Option Claim
  load_claim none = none
  load_claim (some text) = loads text

  -- `int(fields.get("attempts", 1))`
  abbrev pub load_attempts : Option String → Option ℕ
  load_attempts none = some 1
  load_attempts (some text) = parse text

  abbrev with_attempts : String → Fields → Claim → Option ℕ → Decoded
  with_attempts id fields claim none = crashed
  with_attempts id fields claim (some n) = queued (record {
    entry_id = id;
    claim = claim;
    attempts = n;
    enqueued_at = get_or fields.enqueued_at "";
  })

  abbrev with_claim : String → Fields → Option Claim → Decoded
  with_claim id fields none = unusable
  with_claim id fields (some claim) = with_attempts id fields claim (load_attempts fields.attempts)

  unfoldable pub decode : String → Fields → Decoded
  decode id fields = with_claim id fields (load_claim fields.claim)

  -- `_flatten`: entries that do not decode are dropped and stay pending.
  unfoldable pub flatten : List (String × Fields) → Reply (List QueuedClaim)
  flatten [] = ok []
  flatten ((id, fields) ∷ es) =
      let rest = flatten es in
      elim (decode id fields) [
        | crashed ↦ raised
        | unusable ↦ rest
        | queued q ↦ elim rest [ raised ↦ raised | ok qs ↦ ok (q ∷ qs) ]
      ]

-- A call on Redis that may raise, and what comes after it if it does not.
module _ {S : Type 0} where
  infixl 5 ◌>>=◌ ◌>>◌
  abbrev pub next : {A B : Type 0} → Reply A → (A → S → Reply B × S) → S → Reply B × S
  next raised f s = (raised, s)
  next (ok a) f s = f a s

  abbrev pub ◌>>=◌ : {A B : Type 0} → (S → Reply A × S) → (A → S → Reply B × S) → S → Reply B × S
  ◌>>=◌ m f s = let (r, s') = m s in next r f s'

  abbrev pub ◌>>◌ : {A B : Type 0} → (S → Reply A × S) → (S → Reply B × S) → S → Reply B × S
  m >> k = m >>= λ _. k

  abbrev pub pure : {A : Type 0} → A → S → Reply A × S
  pure a s = (ok a, s)

  abbrev pub raise : {A : Type 0} → S → Reply A × S
  raise s = (raised, s)

module _ (redis : Streams) (codec : Codec) (now : ℕ) where
  open redis use {State, xadd, xack, xreadgroup, xautoclaim, xgroup_create, xlen, xpending}

  abbrev pub Exec : Type 0 → Type 0
  Exec A = State → Reply A × State

  abbrev pub group_reply : Created → Reply (Unit {0})
  group_reply created = ok tt
  group_reply busy = ok tt
  group_reply failed = raised

  -- BUSYGROUP is the expected outcome of a race.
  unfoldable pub ensure_group : Exec (Unit {0})
  ensure_group s = let (c, s') = xgroup_create s in (group_reply c, s')

  unfoldable pub enqueue : Claim → Exec String
  enqueue claim = xadd inbound (encode codec now claim 1 none) max_stream_length

  unfoldable pub consume : String → ℕ → ℕ → Exec (List QueuedClaim)
  consume consumer count block_ms = do
    entries ← xreadgroup consumer count (min block_ms max_block_ms)
    λ s. (flatten codec entries, s)

  unfoldable pub ack : QueuedClaim → Exec (Unit {0})
  ack q = xack q.entry_id

  abbrev pub dead_fields : QueuedClaim → String → Fields
  dead_fields q reason = record (encode codec now q.claim q.attempts (some q.enqueued_at)) {
    reason = some reason;
    dead_lettered_at = some (codec.isoformat now);
  }

  unfoldable pub dead_letter : QueuedClaim → String → Exec (Unit {0})
  dead_letter q reason = do xadd dead (dead_fields q reason) max_stream_length; xack q.entry_id

  abbrev pub retry_fields : QueuedClaim → Fields
  retry_fields q = encode codec now q.claim (q.attempts + 1) (some q.enqueued_at)

  unfoldable pub retry : QueuedClaim → Exec (Unit {0})
  retry q = do xadd inbound (retry_fields q) max_stream_length; xack q.entry_id

  -- One round of the loop of `reclaim_stale`
  unfoldable pub reclaim_one : ReclaimReport → String → Decoded → Exec ReclaimReport
  reclaim_one r id crashed = raise
  reclaim_one r id unusable = do xack id; pure (record r { discarded = r.discarded + 1 })
  reclaim_one r id (queued q) =
      if is_last_attempt q
      then (do
        dead_letter q "attempts exhausted"
        pure (record r { dead_lettered = r.dead_lettered + 1 }))
      else (do retry q; pure (record r { retried = r.retried + 1 }))

  unfoldable pub reclaim_all : ReclaimReport → List (String × Fields) → Exec ReclaimReport
  reclaim_all r [] = pure r
  reclaim_all r ((id, fields) ∷ es) = do
    r' ← reclaim_one r id (decode codec id fields)
    reclaim_all r' es

  unfoldable pub reclaim_stale : String → ℕ → ℕ → Exec ReclaimReport
  reclaim_stale consumer min_idle_ms count = do
    entries ← xautoclaim consumer min_idle_ms count
    reclaim_all empty_report entries

  unfoldable pub depth : Exec Depth
  depth = do
    in_flight ← xpending
    retained ← xlen inbound
    dead_lettered ← xlen dead
    pure (record { in_flight = in_flight; retained = retained; dead_lettered = dead_lettered })
