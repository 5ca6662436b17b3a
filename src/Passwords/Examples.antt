-- ===== src/Passwords/Examples.antt =====
-- A small library for the tests: bytes are numbers, all texts are strokes, and the key is the length of
-- the password with the length of the key.
use realty_lead_ai_agent.Common.{
  ℕ, zero, suc, ◌≡◌, refl, ap, String, true, false, Bool, ◌+◌, ◌*◌, leb, if◌then◌else◌, arith, none,
  ◌||◌, some, ltb, ◌==◌, ==_refl,
}
use realty_lead_ai_agent.RateLimit.Store.{ok}
use realty_lead_ai_agent.OauthState.{size}
use realty_lead_ai_agent.Templates.Text.{concat}
use realty_lead_ai_agent.Passwords.{
  Library, validate, join_dollar, hash_password, verify_password, needs_rehash, scrypt_n, scrypt_r,
  scrypt_p,
}
use realty_lead_ai_agent.Passwords.Roundtrip.{no_dollar, IsPython, verify_password-hash_password}

abbrev strokes : ℕ → String
strokes zero = String.[]
strokes (suc n) = String.◌∷◌ "I" (strokes n)

abbrev count : String → ℕ
count String.[] = 0
count (String.◌∷◌ c s) = suc (count s)

count-strokes : (n : ℕ) → count (strokes n) ≡ n
count-strokes zero = refl
count-strokes (suc n) = ap suc (count-strokes n)

strokes_plain : (n : ℕ) → no_dollar (strokes n) ≡ true
unfolding no_dollar
strokes_plain zero = refl
strokes_plain (suc n) = strokes_plain n

abbrev small : Library
small = record {
  Bytes = ℕ;
  scrypt =
      λ password salt n r p k limit. if leb (128 * (r * (n + p + 2))) limit then some k else none;
  length = λ b. b;
  hex = strokes;
  fromhex = λ s. some (count s);
  show = strokes;
  int = λ s. some (count s);
  same = λ a b. a == b;
}

small-IsPython : IsPython small
small-IsPython = record {
  hex_plain = strokes_plain;
  show_plain = strokes_plain;
  fromhex-hex = λ b. ap some (count-strokes b);
  int-show = λ n. ap some (count-strokes n);
  length-scrypt = λ password salt n r p k limit d h. key (leb (128 * (r * (n + p + 2))) limit) h;
  scrypt_limit = λ password salt n r p k limit limit' d h enough. ground arith;
  same_refl = ==_refl;
}
  where
    key : {x y : ℕ} (b : Bool) → (if b then some x else none) ≡ some y → y ≡ x
    key true h = cc
    key false h = cc

abbrev kept : String
kept = "scrypt$IIII$II$I$III$IIIIIIIIIIIIIIIIIIIIIIIIIIIIIIII"

hashes : hash_password small "correct horse" 3 4 2 1 ≡ ok kept
unfolding hash_password validate size join_dollar concat
hashes = refl

verify_password-hash_password_example :
    (verify_password small "correct horse" (some kept) ≡ ok true)
    × (needs_rehash small (some kept) ≡ ok (ltb 4 scrypt_n || ltb 2 scrypt_r || ltb 1 scrypt_p))
verify_password-hash_password_example =
    verify_password-hash_password small-IsPython "correct horse" 3 4 2 1 kept (omega arith) hashes
