-- ===== src/OauthState/Examples.antt =====
-- A small library for the tests: bytes are numbers, written in strokes, and the digest of a payload
-- has the secret's length and the payload itself.
use Prim.Native.Char.{code}
use realty_lead_ai_agent.Common.{
  ℕ, zero, suc, ◌+◌, ◌-◌, ◌%◌, ◌≡◌, refl, ap, ◌∙◌, String, Bool, true, false, ◌&&◌, Option, none,
  some, List, [], ◌∷◌, ◌==◌, ==_refl, if◌then◌else◌, arith, ltb, ◌*◌, ◌/◌,
}
use realty_lead_ai_agent.Templates.Text.{concat}
use realty_lead_ai_agent.OauthState.{
  Library, InvalidState, invalid, valid, rstrip_equals, size, equals, issue, verify, second_us,
}
use realty_lead_ai_agent.OauthState.Padding.{is_plain, rstrip_equals-concat}
use realty_lead_ai_agent.OauthState.Roundtrip.{IsPython, verify-issue}

abbrev strokes : ℕ → String → String
strokes zero s = String.◌∷◌ "-" s
strokes (suc n) s = String.◌∷◌ "I" (strokes n s)

abbrev body : List ℕ → String
body [] = String.[]
body (n ∷ ns) = strokes n (body ns)

abbrev push : ℕ → Option (List ℕ) → Option (List ℕ)
push n none = none
push n (some ns) = some (n ∷ ns)

abbrev parse : ℕ → String → Option (List ℕ)
parse n String.[] = some []
parse n (String.◌∷◌ c s) =
    let more = parse (suc n) s in
    let next = push n (parse 0 s) in if code c == code "I" then more else next

parse-strokes : (k n : ℕ) (s : String) → parse k (strokes n s) ≡ push (k + n) (parse 0 s)
parse-strokes k zero s = ap (λ m. push m (parse 0 s)) (omega arith)
parse-strokes k (suc n) s = parse-strokes (suc k) n s ∙ ap (λ m. push m (parse 0 s)) (omega arith)

parse-body : (ns : List ℕ) → parse 0 (body ns) ≡ some ns
parse-body [] = refl
parse-body (n ∷ ns) =
    parse-strokes 0 n (body ns) ∙ rw (parse-body ns) (ap (λ m. some (m ∷ ns)) (omega arith))

plain_strokes : (n : ℕ) (s : String) → is_plain s ≡ true → is_plain (strokes n s) ≡ true
unfolding is_plain
plain_strokes zero s h = h
plain_strokes (suc n) s h = plain_strokes n s h

plain_body : (ns : List ℕ) → is_plain (body ns) ≡ true
unfolding is_plain
plain_body [] = refl
plain_body (n ∷ ns) = plain_strokes n (body ns) (plain_body ns)

abbrev pads : List ℕ → ℕ
pads ns = (4 - size (body ns) % 4) % 4

abbrev equal_lists : List ℕ → List ℕ → Bool
equal_lists [] [] = true
equal_lists (m ∷ ms) (n ∷ ns) = m == n && equal_lists ms ns
equal_lists _ _ = false

equal_lists_refl : (ns : List ℕ) → equal_lists ns ns ≡ true
equal_lists_refl [] = refl
equal_lists_refl (n ∷ ns) = rw (==_refl n, equal_lists_refl ns) refl

abbrev read : List ℕ → Option (ℕ × ℕ)
read (a ∷ i ∷ []) = some (a, i)
read _ = none

abbrev small : Library
small = record {
  Bytes = List ℕ;
  hmac = λ secret payload. size secret ∷ payload;
  same = equal_lists;
  dumps = λ a i. a ∷ i ∷ [];
  loads = read;
  encode = λ ns. concat (body ns) (equals (pads ns));
  decode = λ s. parse 0 (rstrip_equals s);
}

small-IsPython : IsPython small
small-IsPython = record {
  body = body;
  pads = pads;
  encode_lem = λ ns. refl;
  plain = plain_body;
  few = λ ns. omega arith;
  fours = λ ns. omega arith;
  decode-encode =
      λ ns. ap (parse 0) (rstrip_equals-concat (body ns) (pads ns) (plain_body ns)) ∙ parse-body ns;
  loads-dumps = λ a i. refl;
  same_refl = equal_lists_refl;
}

-- Agent 3 connects in the fifth second, and comes back in the ninth, of ten that are allowed.
verify-issue_example : verify small (issue small 3 "key" 5_500_000) "key" 10 9_000_000 ≡ (
    if ltb ((5_500_000 / second_us + 10) * second_us) 9_000_000
    then invalid InvalidState.expired
    else valid 3)
verify-issue_example = verify-issue small-IsPython 3 "key" 10 5_500_000 9_000_000
