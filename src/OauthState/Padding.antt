-- ===== src/OauthState/Padding.antt =====
-- The texts of backend/app/services/oauth_state.py: taking off Base64's padding and putting it back, and
-- finding the dot between two encoded parts.
use Prim.Native.Char.{Char, code}
use realty_lead_ai_agent.Common.{
  ℕ, zero, suc, ◌+◌, ◌-◌, ◌%◌, ◌<◌, ◌≡◌, refl, String, Bool, true, false, not, ◌&&◌, some, ◌==◌,
  arith,
}
use realty_lead_ai_agent.Templates.Text.{concat}
use realty_lead_ai_agent.OauthState.{rstrip_equals, equals, split_dot}

-- Neither a dot nor an equals sign.
unfoldable pub is_plain : String → Bool
is_plain String.[] = true
is_plain (String.◌∷◌ c s) = not (code c == 61) && not (code c == 46) && is_plain s

is_plain-cons :
    (c : Char) (s : String)
    → is_plain (String.◌∷◌ c s) ≡ true
    → ((code c == 61) ≡ false) × ((code c == 46) ≡ false) × (is_plain s ≡ true)
unfolding is_plain
is_plain-cons c s h = ground arith

rstrip_equals-equals : (k : ℕ) → rstrip_equals (equals k) ≡ String.[]
unfolding rstrip_equals equals
rstrip_equals-equals zero = refl
rstrip_equals-equals (suc k) = rw (rstrip_equals-equals k) refl

pub rstrip_equals-concat :
    (s : String) (k : ℕ) → is_plain s ≡ true → rstrip_equals (concat s (equals k)) ≡ s
unfolding rstrip_equals concat is_plain
rstrip_equals-concat String.[] k h = rstrip_equals-equals k
rstrip_equals-concat (String.◌∷◌ c s) k h =
    let parts = is_plain-cons c s h in rw (parts.0, rstrip_equals-concat s k parts.2) refl

pub split_dot-concat :
    (s t : String) → is_plain s ≡ true → split_dot (concat s (String.◌∷◌ "." t)) ≡ some (s, t)
unfolding split_dot concat is_plain
split_dot-concat String.[] t h = refl
split_dot-concat (String.◌∷◌ c s) t h =
    let parts = is_plain-cons c s h in rw (parts.1, split_dot-concat s t parts.2) refl

-- The padding of a text is known from its length.
pub padding : (n k : ℕ) → k < 4 → (n + k) % 4 ≡ 0 → (4 - n % 4) % 4 ≡ k
padding n k h e = omega arith
