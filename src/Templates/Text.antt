-- ===== src/Templates/Text.antt =====
-- The methods of Python's `str` that the templates use, over a text's characters.
use Prim.Native.Char.{code}
use realty_lead_ai_agent.Common.{
  ℕ, zero, suc, ◌-◌, String, Bool, true, false, ◌&&◌, ◌||◌, leb, ◌==◌, if◌then◌else◌,
}

-- `str.isspace` of one character
unfoldable pub is_space : ℕ → Bool
is_space c =
    (leb 9 c && leb c 13)
    || (leb 28 c && leb c 32)
    || c == 0x85
    || c == 0xa0
    || c == 0x1680
    || (leb 0x2000 c && leb c 0x200a)
    || c == 0x2028
    || c == 0x2029
    || c == 0x202f
    || c == 0x205f
    || c == 0x3000

unfoldable pub lstrip : String → String
lstrip String.[] = String.[]
lstrip (String.◌∷◌ c s) = let rest = lstrip s in if is_space (code c) then rest else String.◌∷◌ c s

-- Every character is white space: `not s.strip()`.
unfoldable pub is_blank : String → Bool
is_blank String.[] = true
is_blank (String.◌∷◌ c s) = is_space (code c) && is_blank s

unfoldable pub rstrip : String → String
rstrip String.[] = String.[]
rstrip (String.◌∷◌ c s) =
    let rest = rstrip s in if is_blank (String.◌∷◌ c s) then String.[] else String.◌∷◌ c rest

unfoldable pub strip : String → String
unfolding lstrip rstrip
strip s = rstrip (lstrip s)

-- The characters up to the first white space: `s.split()[0]` of a text that does not begin with it.
unfoldable pub first_word : String → String
first_word String.[] = String.[]
first_word (String.◌∷◌ c s) =
    let rest = first_word s in if is_space (code c) then String.[] else String.◌∷◌ c rest

-- `s.startswith(p)`
unfoldable pub has_prefix : String → String → Bool
has_prefix String.[] s = true
has_prefix (String.◌∷◌ c p) String.[] = false
has_prefix (String.◌∷◌ c p) (String.◌∷◌ d s) = code c == code d && has_prefix p s

-- `p in s`
unfoldable pub contains : String → String → Bool
unfolding has_prefix
contains p String.[] = has_prefix p String.[]
contains p (String.◌∷◌ c s) = has_prefix p (String.◌∷◌ c s) || contains p s

unfoldable pub concat : String → String → String
concat String.[] t = t
concat (String.◌∷◌ c s) t = String.◌∷◌ c (concat s t)

unfoldable pub size : String → ℕ
size String.[] = 0
size (String.◌∷◌ c s) = suc (size s)

-- `s[:n]`
unfoldable pub truncate : ℕ → String → String
truncate zero s = String.[]
truncate (suc n) String.[] = String.[]
truncate (suc n) (String.◌∷◌ c s) = String.◌∷◌ c (truncate n s)

-- `skip` characters are left of the occurrence that was replaced last.
unfoldable pub replace_from : String → String → ℕ → String → String
replace_from old new skip String.[] = String.[]
replace_from old new (suc skip) (String.◌∷◌ c s) = replace_from old new skip s
replace_from old new zero (String.◌∷◌ c s) =
    let hit = has_prefix old (String.◌∷◌ c s) in
    let rest = replace_from old new (if hit then size old - 1 else 0) s in
    if hit then concat new rest else String.◌∷◌ c rest

-- `s.replace(old, new)`, for an `old` that is not empty
unfoldable pub replace : String → String → String → String
unfolding replace_from has_prefix concat size
replace old new s = replace_from old new 0 s
