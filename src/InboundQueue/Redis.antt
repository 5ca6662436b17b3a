-- ===== src/InboundQueue/Redis.antt =====
-- The Redis commands that the inbound queue calls (`RedisLike` of backend/app/core/redis.py), what it
-- relies on, and the encodings that it takes from Python's library. A command takes effect or not,
-- and replies or raises: a reply may be lost after the effect.
use realty_lead_ai_agent.Common.{
  ℕ, suc, ◌≤◌, ◌<◌, String, ◌≡◌, ◌≢◌, ◌⊎◌, Option, some, List, [], ◌∷◌, length, All,
}
use realty_lead_ai_agent.Models.Enums.{Channel}
use realty_lead_ai_agent.RateLimit.Store.{Reply, ok}

-- `STREAM` and `DEAD_LETTER_STREAM`
pub data StreamName : Type 0 where
  inbound dead : StreamName

-- The fields of an entry that the program reads or writes; one that is missing is `none`.
pub record Fields : Type 0 where
  pub claim : Option String
  pub attempts : Option String
  pub enqueued_at : Option String
  pub reason : Option String
  pub dead_lettered_at : Option String

-- `Claim` of backend/app/services/ingestion.py
pub record Claim : Type 0 where
  pub lead_id : ℕ
  pub agent_id : ℕ
  pub message_id : ℕ
  pub text : String
  pub channel : Channel

-- `json.dumps` and `json.loads` of a claim with its UUIDs and channel, `str` and `int` of a count,
-- and `isoformat` of a moment. A text that is refused decodes to `none`. A count
-- is a natural number: `encode` writes no other, and a negative one is not represented.
pub record Codec : Type 0 where
  pub dumps : Claim → String
  pub loads : String → Option Claim
  pub loads-dumps : (c : Claim) → loads (dumps c) ≡ some c
  pub show : ℕ → String
  pub parse : String → Option ℕ
  pub parse-show : (n : ℕ) → parse (show n) ≡ some n
  pub isoformat : ℕ → String

-- What XGROUP CREATE does: it succeeds, says BUSYGROUP, or raises something else.
pub data Created : Type 0 where
  created busy failed : Created

pub record Streams : Type 1 where
  pub State : Type 0
  pub xadd : StreamName → Fields → ℕ → State → Reply String × State
  pub xack : String → State → Reply (Unit {0}) × State
  pub xreadgroup : String → ℕ → ℕ → State → Reply (List (String × Fields)) × State
  pub xautoclaim : String → ℕ → ℕ → State → Reply (List (String × Fields)) × State
  pub xgroup_create : State → Created × State
  pub xlen : StreamName → State → Reply ℕ × State
  pub xpending : State → Reply ℕ × State

-- No id occurs twice.
abbrev pub Apart : List (String × Fields) → Type 0
Apart [] = Unit
Apart ((i, f) ∷ es) = All (λ e. e.0 ≢ i) es × Apart es

-- What Redis Streams document. `IsLive s i f`: the inbound stream holds the entry `i` with the fields
-- `f` and the group has not acknowledged it. `IsDead s f`: the dead-letter stream holds an entry with
-- these fields. `room s n`: how many entries the stream takes before it trims its oldest.
pub record IsStreams (redis : Streams) : Type 1 where
  pub IsLive : redis.State → String → Fields → Type 0
  pub IsDead : redis.State → Fields → Type 0
  pub room : redis.State → StreamName → ℕ
  -- an id names one entry
  pub live_unique :
      (s : redis.State) (i : String) (f g : Fields) → IsLive s i f → IsLive s i g → f ≡ g
  -- XADD adds the entry under a fresh id, and trims nothing while there is room
  pub xadd_live :
      (s : redis.State) (f : Fields) (m : ℕ) (i : String)
      → (redis.xadd inbound f m s).0 ≡ ok i
      → IsLive (redis.xadd inbound f m s).1 i f
  pub xadd_dead :
      (s : redis.State) (f : Fields) (m : ℕ) (i : String)
      → (redis.xadd dead f m s).0 ≡ ok i
      → IsDead (redis.xadd dead f m s).1 f
  pub xadd_fresh :
      (s : redis.State) (n : StreamName) (f g : Fields) (m : ℕ) (i : String)
      → (redis.xadd n f m s).0 ≡ ok i
      → ¬ IsLive s i g
  pub xadd_keeps_live :
      (s : redis.State) (n : StreamName) (f g : Fields) (m : ℕ) (i : String)
      → 0 < room s n
      → IsLive s i g
      → IsLive (redis.xadd n f m s).1 i g
  pub xadd_keeps_dead :
      (s : redis.State) (n : StreamName) (f g : Fields) (m : ℕ)
      → 0 < room s n
      → IsDead s g
      → IsDead (redis.xadd n f m s).1 g
  pub xadd_only :
      (s : redis.State) (n : StreamName) (f g : Fields) (m : ℕ) (i : String)
      → IsLive (redis.xadd n f m s).1 i g
      → IsLive s i g ⊎ (g ≡ f)
  pub xadd_room :
      (s : redis.State) (n k : StreamName) (f : Fields) (m : ℕ)
      → room s k ≤ suc (room (redis.xadd n f m s).1 k)
  -- XACK releases that entry and no other
  pub xack_keeps_live :
      (s : redis.State) (i j : String) (g : Fields)
      → i ≢ j
      → IsLive s i g
      → IsLive (redis.xack j s).1 i g
  pub xack_keeps_dead :
      (s : redis.State) (j : String) (g : Fields) → IsDead s g → IsDead (redis.xack j s).1 g
  pub xack_only :
      (s : redis.State) (i j : String) (g : Fields) → IsLive (redis.xack j s).1 i g → IsLive s i g
  pub xack_removes :
      (s : redis.State) (j : String) (g : Fields)
      → (redis.xack j s).0 ≡ ok tt
      → ¬ IsLive (redis.xack j s).1 j g
  pub xack_room :
      (s : redis.State) (j : String) (k : StreamName) → room s k ≤ room (redis.xack j s).1 k
  -- XAUTOCLAIM changes no entry and replies with at most `count` live ones
  pub xautoclaim_keeps_live :
      (s : redis.State) (who : String) (idle count : ℕ) (i : String) (g : Fields)
      → IsLive s i g
      → IsLive (redis.xautoclaim who idle count s).1 i g
  pub xautoclaim_keeps_dead :
      (s : redis.State) (who : String) (idle count : ℕ) (g : Fields)
      → IsDead s g
      → IsDead (redis.xautoclaim who idle count s).1 g
  pub xautoclaim_only :
      (s : redis.State) (who : String) (idle count : ℕ) (i : String) (g : Fields)
      → IsLive (redis.xautoclaim who idle count s).1 i g
      → IsLive s i g
  pub xautoclaim_room :
      (s : redis.State) (who : String) (idle count : ℕ) (k : StreamName)
      → room s k ≤ room (redis.xautoclaim who idle count s).1 k
  pub xautoclaim_lem :
      (s : redis.State) (who : String) (idle count : ℕ) (es : List (String × Fields))
      → (redis.xautoclaim who idle count s).0 ≡ ok es
      → (length es ≤ count)
        × Apart es
        × All (λ e. IsLive (redis.xautoclaim who idle count s).1 e.0 e.1) es
  -- XGROUP CREATE and XREADGROUP change no entry, and XREADGROUP replies as XAUTOCLAIM does
  pub xgroup_create_keeps_live :
      (s : redis.State) (i : String) (g : Fields)
      → IsLive s i g
      → IsLive (redis.xgroup_create s).1 i g
  pub xgroup_create_keeps_dead :
      (s : redis.State) (g : Fields) → IsDead s g → IsDead (redis.xgroup_create s).1 g
  pub xgroup_create_room :
      (s : redis.State) (k : StreamName) → room s k ≤ room (redis.xgroup_create s).1 k
  pub xreadgroup_keeps_live :
      (s : redis.State) (who : String) (count block : ℕ) (i : String) (g : Fields)
      → IsLive s i g
      → IsLive (redis.xreadgroup who count block s).1 i g
  pub xreadgroup_keeps_dead :
      (s : redis.State) (who : String) (count block : ℕ) (g : Fields)
      → IsDead s g
      → IsDead (redis.xreadgroup who count block s).1 g
  pub xreadgroup_room :
      (s : redis.State) (who : String) (count block : ℕ) (k : StreamName)
      → room s k ≤ room (redis.xreadgroup who count block s).1 k
  pub xreadgroup_lem :
      (s : redis.State) (who : String) (count block : ℕ) (es : List (String × Fields))
      → (redis.xreadgroup who count block s).0 ≡ ok es
      → (length es ≤ count)
        × Apart es
        × All (λ e. IsLive (redis.xreadgroup who count block s).1 e.0 e.1) es
