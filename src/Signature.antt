-- ===== src/Signature.antt =====
-- backend/app/channels/whatsapp_payload.py: the signature of a webhook's delivery. HMAC-SHA256 of the
-- raw body, as hexadecimal text, and the comparison of two digests are parameters.
pub mod Exact
mod Examples
use Prim.Native.Char.{code}
use text.Mathlib.Text.{◌==◌ as str_eq}
use realty_lead_ai_agent.Common.{String, Bool, true, false, Option, none, some, ◌==◌, if◌then◌else◌}
use realty_lead_ai_agent.Templates.Text.{concat}
use realty_lead_ai_agent.RateLimit.Store.{Reply, ok, raised}

pub record Digests : Type 1 where
  pub Bytes : Type 0
  -- `hmac.new(secret.encode(), raw_body, hashlib.sha256).hexdigest()`
  pub hexdigest : String → Bytes → String
  -- `hmac.compare_digest` of two texts, which raises TypeError for a text beyond ASCII
  pub compare_digest : String → String → Reply Bool

-- `SIGNATURE_PREFIX`
abbrev pub signature_prefix : String
signature_prefix = "sha256="

-- What follows a prefix, where the text starts with it: `startswith` and the slice after it.
unfoldable pub after_prefix : String → String → Option String
after_prefix String.[] s = some s
after_prefix (String.◌∷◌ c p) String.[] = none
after_prefix (String.◌∷◌ c p) (String.◌∷◌ d s) =
    let rest = after_prefix p s in if code c == code d then rest else none

module _ (lib : Digests) where
  unfoldable pub verify_signature : lib.Bytes → Option String → String → Reply Bool
  verify_signature raw_body none app_secret = ok false
  verify_signature raw_body (some header) app_secret =
      if str_eq header "" then ok false else elim (after_prefix signature_prefix header) [
        | none ↦ ok false
        | some given ↦ lib.compare_digest (lib.hexdigest app_secret raw_body) given
      ]

  unfoldable pub sign : lib.Bytes → String → String
  sign raw_body app_secret = concat signature_prefix (lib.hexdigest app_secret raw_body)
