-- ===== src/OauthState.antt =====
-- backend/app/services/oauth_state.py: the signed, expiring `state` of an OAuth redirect. HMAC-SHA256,
-- JSON and Base64 of Python's library are parameters, over a type of bytes; a moment is in microseconds.
pub mod Padding
pub mod Roundtrip
mod Examples
use Prim.Native.Char.{code}
use realty_lead_ai_agent.Common.{
  ℕ, zero, suc, ◌+◌, ◌-◌, ◌*◌, ◌/◌, ◌%◌, String, Bool, true, false, ◌&&◌, Option, none, some, ltb,
  ◌==◌, if◌then◌else◌,
}
use realty_lead_ai_agent.Templates.Text.{concat}

pub record Library : Type 1 where
  pub Bytes : Type 0
  -- `hmac.new(secret, payload, sha256).digest()`
  pub hmac : String → Bytes → Bytes
  pub same : Bytes → Bytes → Bool
  -- the JSON of an agent's id and a time, and what reads it back, if it can be read
  pub dumps : ℕ → ℕ → Bytes
  pub loads : Bytes → Option (ℕ × ℕ)
  -- `base64.urlsafe_b64encode` and `urlsafe_b64decode`, which raises for a text that is none
  pub encode : Bytes → String
  pub decode : String → Option Bytes

pub data InvalidState : Type 0 where
  malformed signature_does_not_match not_readable expired : InvalidState

-- The agent's id, or the message of `InvalidStateError`.
pub data Verdict : Type 0 where
  valid : ℕ → Verdict
  invalid : InvalidState → Verdict

abbrev is_nil : String → Bool
is_nil String.[] = true
is_nil (String.◌∷◌ c s) = false

-- `text.rstrip("=")`
unfoldable pub rstrip_equals : String → String
rstrip_equals String.[] = String.[]
rstrip_equals (String.◌∷◌ c s) =
    let rest = rstrip_equals s in
    if code c == 61 && is_nil rest then String.[] else String.◌∷◌ c rest

-- `len(text)`
unfoldable pub size : String → ℕ
size String.[] = 0
size (String.◌∷◌ c s) = suc (size s)

-- `"=" * n`
unfoldable pub equals : ℕ → String
equals zero = String.[]
equals (suc n) = String.◌∷◌ "=" (equals n)

-- `state.split(".", 1)` where it has two parts
unfoldable pub split_dot : String → Option (String × String)
split_dot String.[] = none
split_dot (String.◌∷◌ c s) =
    let rest = split_dot s in
    if code c == 46
    then some (String.[], s)
    else elim rest [ none ↦ none | some (a, b) ↦ some (String.◌∷◌ c a, b) ]

abbrev pub second_us : ℕ
second_us = 1_000_000

module _ (lib : Library) where
  open lib use {Bytes, hmac, dumps, loads}

  -- `_b64encode`
  unfoldable pub b64encode : Bytes → String
  b64encode raw = rstrip_equals (lib.encode raw)

  -- `_b64decode`, with `-len(value) % 4` equals signs
  unfoldable pub b64decode : String → Option Bytes
  b64decode value = lib.decode (concat value (equals ((4 - size value % 4) % 4)))

  unfoldable pub issue : ℕ → String → ℕ → String
  issue agent_id secret now =
      let payload = dumps agent_id (now / second_us) in
      concat (b64encode payload) (String.◌∷◌ "." (b64encode (hmac secret payload)))

  -- `now.timestamp() - issued_at > ttl_seconds`
  abbrev is_expired : ℕ → ℕ → ℕ → Bool
  is_expired issued_at ttl_seconds now = ltb ((issued_at + ttl_seconds) * second_us) now

  abbrev read_payload : ℕ → ℕ → Option (ℕ × ℕ) → Verdict
  read_payload ttl_seconds now none = invalid InvalidState.not_readable
  read_payload ttl_seconds now (some (agent_id, issued_at)) =
      if is_expired issued_at ttl_seconds now then invalid InvalidState.expired else valid agent_id

  abbrev check_signature : String → ℕ → ℕ → Option Bytes → Option Bytes → Verdict
  check_signature secret ttl_seconds now (some payload) (some signature) =
      if lib.same (hmac secret payload) signature
      then read_payload ttl_seconds now (loads payload)
      else invalid InvalidState.signature_does_not_match
  check_signature secret ttl_seconds now _ _ = invalid InvalidState.malformed

  unfoldable pub verify : String → String → ℕ → ℕ → Verdict
  verify state secret ttl_seconds now = elim (split_dot state) [
    | none ↦ invalid InvalidState.malformed
    | some (payload, signature) ↦
        check_signature secret ttl_seconds now (b64decode payload) (b64decode signature)
  ]
