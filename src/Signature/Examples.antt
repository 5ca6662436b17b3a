-- ===== src/Signature/Examples.antt =====
-- Tests of the signature, with texts for the bodies and a digest that shows its secret.
use text.Mathlib.Text.{◌==◌ as str_eq}
use text.Mathlib.TextPositions.{eq_refl}
use realty_lead_ai_agent.Common.{◌≡◌, refl, ap, ◌↔◌, String, true, false, none, some, eq_iff}
use realty_lead_ai_agent.Templates.Text.{concat}
use realty_lead_ai_agent.RateLimit.Store.{ok, ok_inj}
use realty_lead_ai_agent.Signature.{Digests, after_prefix, verify_signature, sign}
use realty_lead_ai_agent.Signature.Exact.{IsExact, verify_signature_iff}

abbrev texts : Digests
texts = record { Bytes = String; hexdigest = concat; compare_digest = λ a b. ok (str_eq a b) }

texts-IsExact : IsExact texts
texts-IsExact = record {
  same = λ secret raw. ap ok (eq_refl (concat secret raw));
  equal = λ a b e. (eq_iff a b).0 (ok_inj e);
}

header_without_prefix : verify_signature texts "{}" (some "key{}") "key" ≡ ok false
unfolding verify_signature after_prefix
header_without_prefix = refl

no_header : verify_signature texts "{}" none "key" ≡ ok false
unfolding verify_signature
no_header = refl

verify_signature_iff_example :
    (verify_signature texts "{}" (some "sha256=key{}") "key" ≡ ok true)
    ↔ (some "sha256=key{}" ≡ some (sign texts "{}" "key"))
verify_signature_iff_example = verify_signature_iff texts-IsExact "{}" (some "sha256=key{}") "key"
