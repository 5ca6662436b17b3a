-- ===== src/Passwords.antt =====
-- backend/app/services/passwords.py: the stored form of a password. scrypt, the salt, and the texts of
-- bytes and of counts are parameters of Python's library.
pub mod Roundtrip
mod Examples
use Prim.Native.Char.{code}
use text.Mathlib.Text.{◌==◌ as str_eq}
use realty_lead_ai_agent.Common.{
  ℕ, ◌^◌, ◌*◌, String, Bool, true, false, not, ◌||◌, Option, none, some, List, [], ◌∷◌, ltb, ◌==◌,
  if◌then◌else◌,
}
use realty_lead_ai_agent.Templates.Text.{concat}
use realty_lead_ai_agent.Channels.{is_set, or_text}
use realty_lead_ai_agent.RateLimit.Store.{Reply, ok, raised}
use realty_lead_ai_agent.OauthState.{size}

pub record Library : Type 1 where
  pub Bytes : Type 0
  -- `hashlib.scrypt` with the salt, n, r, p, the length of the key and the limit of its memory, which
  -- raises for parameters that it does not take and where the limit is too low
  pub scrypt : String → Bytes → ℕ → ℕ → ℕ → ℕ → ℕ → Option Bytes
  pub length : Bytes → ℕ
  -- `bytes.hex` and `bytes.fromhex`
  pub hex : Bytes → String
  pub fromhex : String → Option Bytes
  -- a count as text, and `int`
  pub show : ℕ → String
  pub int : String → Option ℕ
  -- `hmac.compare_digest`
  pub same : Bytes → Bytes → Bool

abbrev pub algorithm : String
algorithm = "scrypt"

abbrev pub scrypt_n : ℕ
scrypt_n = 2 ^ 15

abbrev pub scrypt_r : ℕ
scrypt_r = 8

abbrev pub scrypt_p : ℕ
scrypt_p = 1

abbrev pub key_bytes : ℕ
key_bytes = 32

-- `MAX_MEMORY`
abbrev pub max_memory : ℕ
max_memory = 128 * scrypt_n * scrypt_r * 2

-- `validate` does not raise `WeakPasswordError`.
unfoldable pub validate : String → Bool
validate password = if ltb (size password) 10 then false else not (ltb 1024 (size password))

-- `text.split("$")`
abbrev onto_first : String → List String → List String
onto_first c [] = c ∷ []
onto_first c (w ∷ ws) = concat c w ∷ ws

unfoldable pub split_dollar : String → List String
split_dollar String.[] = String.[] ∷ []
split_dollar (String.◌∷◌ c s) =
    let rest = split_dollar s in
    if code c == 36 then String.[] ∷ rest else onto_first (String.◌∷◌ c String.[]) rest

-- The parts of a hash, one dollar between two of them.
unfoldable pub join_dollar : List String → String
join_dollar [] = String.[]
join_dollar (a ∷ []) = a
join_dollar (a ∷ b ∷ rest) = concat a (String.◌∷◌ "$" (join_dollar (b ∷ rest)))

module _ (lib : Library) where
  open lib use {Bytes, scrypt, hex, fromhex, show, int}

  abbrev stored_as : Bytes → ℕ → ℕ → ℕ → Option Bytes → Reply String
  stored_as salt n r p none = raised
  stored_as salt n r p (some derived) =
      ok (join_dollar (algorithm ∷ show n ∷ show r ∷ show p ∷ hex salt ∷ hex derived ∷ []))

  -- The salt is fresh random bytes.
  unfoldable pub hash_password : String → Bytes → ℕ → ℕ → ℕ → Reply String
  hash_password password salt n r p =
      if validate password
      then stored_as salt n r p (scrypt password salt n r p key_bytes max_memory)
      else raised

  abbrev compared : Bytes → Option Bytes → Reply Bool
  compared expected none = raised
  compared expected (some candidate) = ok (lib.same candidate expected)

  abbrev check : String → Option ℕ → Option ℕ → Option ℕ → Option Bytes → Option Bytes → Reply Bool
  check password (some n) (some r) (some p) (some salt) (some expected) =
      compared expected (scrypt password salt n r p (lib.length expected) (128 * n * r * 2))
  check password _ _ _ _ _ = ok false

  abbrev check_parts : String → List String → Reply Bool
  check_parts password (a ∷ n ∷ r ∷ p ∷ salt ∷ digest ∷ []) =
      if str_eq a algorithm
      then check password (int n) (int r) (int p) (fromhex salt) (fromhex digest)
      else ok false
  check_parts password _ = ok false

  -- A missing or malformed hash is a failure; scrypt itself may raise.
  unfoldable pub verify_password : String → Option String → Reply Bool
  verify_password password stored =
      if is_set stored then check_parts password (split_dollar (or_text stored "")) else ok false

  abbrev weaker : Option ℕ → ℕ → Reply Bool
  weaker none least = raised
  weaker (some n) least = ok (ltb n least)

  abbrev pub or_else : Reply Bool → Reply Bool → Reply Bool
  or_else (ok true) later = ok true
  or_else (ok false) later = later
  or_else raised later = raised

  abbrev rehash_parts : List String → Reply Bool
  rehash_parts (a ∷ n ∷ r ∷ p ∷ salt ∷ digest ∷ []) =
      if str_eq a algorithm
      then or_else (weaker (int n) scrypt_n)
          (or_else (weaker (int r) scrypt_r) (weaker (int p) scrypt_p))
      else ok true
  rehash_parts _ = ok true

  unfoldable pub needs_rehash : Option String → Reply Bool
  needs_rehash stored =
      if is_set stored then rehash_parts (split_dollar (or_text stored "")) else ok true
