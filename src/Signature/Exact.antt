-- ===== src/Signature/Exact.antt =====
-- Which headers backend/app/channels/whatsapp_payload.py accepts.
use Prim.Native.Char.{Char, code}
use text.Mathlib.Text.{◌==◌ as str_eq}
use text.Mathlib.TextEquality.{Char-path}
use realty_lead_ai_agent.Common.{
  ◌≡◌, refl, ap, ◌∙◌, sym, subst, inl, inr, Option-cases, eq_iff, ◌≢◌, ◌↔◌, String, Bool-cases,
  true, false, Option, none, some, ◌==◌, arith,
}
use realty_lead_ai_agent.Templates.Text.{concat}
use realty_lead_ai_agent.RateLimit.Store.{ok}
use realty_lead_ai_agent.Signature.{Digests, signature_prefix, after_prefix, verify_signature, sign}

after_prefix-concat : (p s : String) → after_prefix p (concat p s) ≡ some s
unfolding after_prefix concat
after_prefix-concat String.[] s = refl
after_prefix-concat (String.◌∷◌ c p) s =
    let same : (code c == code c) ≡ true = ground arith in rw same (after_prefix-concat p s)

after_prefix_sound : (p s rest : String) → after_prefix p s ≡ some rest → s ≡ concat p rest
unfolding after_prefix concat
after_prefix_sound String.[] s rest e = cc
after_prefix_sound (String.◌∷◌ c p) String.[] rest e = cc
after_prefix_sound (String.◌∷◌ c p) (String.◌∷◌ d s) rest e = elim (Bool-cases (code c == code d)) [
  | inl same ↦
      let shorter : after_prefix p s ≡ some rest = ground arith in
      let equal : code d ≡ code c = ground arith in
      ap (λ x. String.◌∷◌ x s) (Char-path d c equal)
      ∙ ap (String.◌∷◌ c) (after_prefix_sound p s rest shorter)
  | inr other ↦ cc
]

-- What Python documents of `compare_digest`: it is true for equal texts of ASCII alone, as hexadecimal
-- digests are, and for no two texts that differ.
pub record IsExact (lib : Digests) : Type 0 where
  pub same :
      (secret : String) (raw : lib.Bytes)
      → lib.compare_digest (lib.hexdigest secret raw) (lib.hexdigest secret raw) ≡ ok true
  pub equal : (a b : String) → lib.compare_digest a b ≡ ok true → a ≡ b

signed_nonempty : (s : String) → str_eq (concat signature_prefix s) "" ≡ false
unfolding concat
signed_nonempty s = elim (Bool-cases (str_eq (concat signature_prefix s) "")) [
  | inl e ↦ absurd (refuse ((eq_iff (concat signature_prefix s) "").0 e))
  | inr e ↦ e
]
  where
    refuse : {c : Char} {s : String} → String.◌∷◌ c s ≢ String.[]
    refuse e = cc

not_accepted : ok false ≢ ok true
not_accepted e = cc

module _ {lib : Digests} (laws : IsExact lib) where
  sign-verify_signature :
      (raw : lib.Bytes) (secret : String)
      → verify_signature lib raw (some (sign lib raw secret)) secret ≡ ok true
  unfolding verify_signature sign concat
  sign-verify_signature raw secret =
      let digest = lib.hexdigest secret raw in
      rw (signed_nonempty digest, after_prefix-concat signature_prefix digest)
        (laws.same secret raw)

  verify_signature_sound :
      (raw : lib.Bytes) (header : Option String) (secret : String)
      → verify_signature lib raw header secret ≡ ok true
      → header ≡ some (sign lib raw secret)
  unfolding verify_signature sign
  verify_signature_sound raw none secret e = absurd (not_accepted e)
  verify_signature_sound raw (some header) secret e = elim (Bool-cases (str_eq header "")) [
    | inl empty ↦ absurd (not_accepted (rw empty at e))
    | inr full ↦ elim (Option-cases (after_prefix signature_prefix header)) [
      | inl missing ↦ absurd (not_accepted (rw (full, missing) at e))
      | inr (given, found) ↦
          let compared : lib.compare_digest (lib.hexdigest secret raw) given ≡ ok true =
            rw (full, found) at e in
          let equal = laws.equal (lib.hexdigest secret raw) given compared in
          ap some (
            after_prefix_sound signature_prefix header given found
            ∙ ap (concat signature_prefix) (sym equal))
    ]
  ]

  -- A webhook's body is accepted just where its header is the one that signs that body with the app's
  -- secret; a missing, empty or other header is not accepted.
  pub verify_signature_iff :
      (raw : lib.Bytes) (header : Option String) (secret : String)
      → (verify_signature lib raw header secret ≡ ok true) ↔ (header ≡ some (sign lib raw secret))
  verify_signature_iff raw header secret = (
    verify_signature_sound raw header secret,
    λ e.
        subst (λ h. verify_signature lib raw h secret ≡ ok true) (sym e)
          (sign-verify_signature raw secret),
  )
