-- ===== src/Passwords/Roundtrip.antt =====
-- hash_password and verify_password of backend/app/services/passwords.py, one after the other.
use Prim.Native.Char.{Char, code}
use native.Mathlib.Nat.{mul-le-mul_left}
use text.Mathlib.Text.{◌==◌ as str_eq}
use realty_lead_ai_agent.Common.{
  ℕ, ◌+◌, ◌*◌, ◌≤◌, String, ◌≡◌, refl, ap, ◌∙◌, sym, Bool, true, false, not, ◌&&◌, some, List, [],
  ◌∷◌, ◌==◌, All, arith, ◌≢◌, inl, inr, Bool-cases, Option-cases, ltb, ◌||◌, eq_iff,
}
use realty_lead_ai_agent.Templates.Text.{concat}
use realty_lead_ai_agent.RateLimit.Store.{ok, raised, ok_inj}
use realty_lead_ai_agent.Passwords.{
  max_memory, scrypt_n, scrypt_r, scrypt_p, needs_rehash, or_else, Library, algorithm, key_bytes,
  validate, split_dollar, join_dollar, hash_password, verify_password,
}

-- A text with no dollar.
unfoldable pub no_dollar : String → Bool
no_dollar String.[] = true
no_dollar (String.◌∷◌ c s) = not (code c == 36) && no_dollar s

no_dollar-cons :
    (c : Char) (s : String)
    → no_dollar (String.◌∷◌ c s) ≡ true
    → ((code c == 36) ≡ false) × (no_dollar s ≡ true)
unfolding no_dollar
no_dollar-cons c s h = ground arith

split_dollar-one : (a : String) → no_dollar a ≡ true → split_dollar a ≡ a ∷ []
unfolding split_dollar concat
split_dollar-one String.[] h = refl
split_dollar-one (String.◌∷◌ c s) h =
    let parts = no_dollar-cons c s h in rw (parts.0, split_dollar-one s parts.1) refl

split_dollar-concat :
    (a t : String)
    → no_dollar a ≡ true
    → split_dollar (concat a (String.◌∷◌ "$" t)) ≡ a ∷ split_dollar t
unfolding split_dollar concat
split_dollar-concat String.[] t h = refl
split_dollar-concat (String.◌∷◌ c s) t h =
    let parts = no_dollar-cons c s h in rw (parts.0, split_dollar-concat s t parts.1) refl

-- Parts without dollars are found again.
split_dollar-join_dollar :
    (a : String) (rest : List String)
    → All (λ s. no_dollar s ≡ true) (a ∷ rest)
    → split_dollar (join_dollar (a ∷ rest)) ≡ a ∷ rest
unfolding join_dollar
split_dollar-join_dollar a [] h = split_dollar-one a h.0
split_dollar-join_dollar a (b ∷ rest) h =
    split_dollar-concat a (join_dollar (b ∷ rest)) h.0
    ∙ ap (λ ws. a ∷ ws) (split_dollar-join_dollar b rest h.1)

-- What Python's library documents: hexadecimal and decimal texts are read back and hold no dollar,
-- scrypt gives a key of the length asked for, and equal digests compare as the same. OpenSSL's scrypt
-- needs `128 * r * (n + p + 2)` bytes, and its key does not depend on a limit that allows them.
pub record IsPython (lib : Library) : Type 0 where
  pub hex_plain : (b : lib.Bytes) → no_dollar (lib.hex b) ≡ true
  pub show_plain : (n : ℕ) → no_dollar (lib.show n) ≡ true
  pub fromhex-hex : (b : lib.Bytes) → lib.fromhex (lib.hex b) ≡ some b
  pub int-show : (n : ℕ) → lib.int (lib.show n) ≡ some n
  pub length-scrypt :
      (password : String) (salt : lib.Bytes) (n r p k limit : ℕ) (d : lib.Bytes)
      → lib.scrypt password salt n r p k limit ≡ some d
      → lib.length d ≡ k
  pub scrypt_limit :
      (password : String) (salt : lib.Bytes) (n r p k limit limit' : ℕ) (d : lib.Bytes)
      → lib.scrypt password salt n r p k limit ≡ some d
      → 128 * (r * (n + p + 2)) ≤ limit'
      → lib.scrypt password salt n r p k limit' ≡ some d
  pub same_refl : (d : lib.Bytes) → lib.same d d ≡ true

-- The limit of a verification allows what scrypt needs.
memory-le : (n r p : ℕ) → p + 2 ≤ n → 128 * (r * (n + p + 2)) ≤ 128 * n * r * 2
memory-le n r p h =
    let twice : n + p + 2 ≤ n + n = omega arith in omega (arith, mul-le-mul_left r twice)

module _ {lib : Library} (laws : IsPython lib) (password : String) (salt : lib.Bytes)
    (n r p : ℕ) where
  abbrev parts : lib.Bytes → List String
  parts d = algorithm ∷ lib.show n ∷ lib.show r ∷ lib.show p ∷ lib.hex salt ∷ lib.hex d ∷ []

  hash_password-parts :
      (stored : String)
      → hash_password lib password salt n r p ≡ ok stored
      → (d : lib.Bytes) × (lib.scrypt password salt n r p key_bytes max_memory ≡ some d)
        × (stored ≡ join_dollar (parts d))
  unfolding hash_password
  hash_password-parts stored h = elim (Bool-cases (validate password)) [
    | inr e ↦ absurd (refuse (rw (hash_password, e) at h))
    | inl e ↦ elim (Option-cases (lib.scrypt password salt n r p key_bytes max_memory)) [
      | inl f ↦ absurd (refuse (rw (hash_password, e, f) at h))
      | inr (d, f) ↦ (d, f, sym (ok_inj (rw (hash_password, e, f) at h)))
    ]
  ]
    where
      refuse : raised ≢ ok stored
      refuse e = cc

  split_dollar-parts : (d : lib.Bytes) → split_dollar (join_dollar (parts d)) ≡ parts d
  unfolding no_dollar
  split_dollar-parts d =
      split_dollar-join_dollar algorithm
        (lib.show n ∷ lib.show r ∷ lib.show p ∷ lib.hex salt ∷ lib.hex d ∷ [])
        (
          refl,
          (
            laws.show_plain n,
            (laws.show_plain r, (laws.show_plain p, (laws.hex_plain salt, (laws.hex_plain d, tt)))),
          ),
        )

  nonempty : (d : lib.Bytes) → str_eq (join_dollar (parts d)) "" ≡ false
  unfolding join_dollar concat
  nonempty d = elim (Bool-cases (str_eq (join_dollar (parts d)) "")) [
    | inr e ↦ e
    | inl e ↦ absurd (refuse ((eq_iff (join_dollar (parts d)) "").0 e))
  ]
    where
      refuse : {c : Char} {s : String} → String.◌∷◌ c s ≢ String.[]
      refuse e = cc

  any_of_three : (a b c : Bool) → or_else lib (ok a) (or_else lib (ok b) (ok c)) ≡ ok (a || b || c)
  any_of_three true b c = refl
  any_of_three false true c = refl
  any_of_three false false c = refl

  -- A password that was hashed with an n of at least p + 2 is verified against its own hash, and the
  -- hash needs renewal exactly when one of its parameters is below the present ones.
  pub verify_password-hash_password :
      (stored : String)
      → p + 2 ≤ n
      → hash_password lib password salt n r p ≡ ok stored
      → (verify_password lib password (some stored) ≡ ok true)
        × (needs_rehash lib (some stored) ≡ ok (ltb n scrypt_n || ltb r scrypt_r || ltb p scrypt_p))
  unfolding verify_password needs_rehash
  verify_password-hash_password stored enough h =
      let (d, f, same) = hash_password-parts stored h in
      let again =
        laws.scrypt_limit password salt n r p key_bytes max_memory (128 * n * r * 2) d f
          (memory-le n r p enough) in
      (
        rw
            (
              same,
              verify_password,
              nonempty d,
              split_dollar-parts d,
              laws.int-show n,
              laws.int-show r,
              laws.int-show p,
              laws.fromhex-hex salt,
              laws.fromhex-hex d,
              laws.length-scrypt password salt n r p key_bytes max_memory d f,
              again,
              laws.same_refl d,
            )
            refl,
        rw
            (
              same,
              needs_rehash,
              nonempty d,
              split_dollar-parts d,
              laws.int-show n,
              laws.int-show r,
              laws.int-show p,
            )
            (any_of_three (ltb n scrypt_n) (ltb r scrypt_r) (ltb p scrypt_p)),
      )
