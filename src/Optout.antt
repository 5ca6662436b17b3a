-- ===== src/Optout.antt =====
-- backend/app/agent/optout.py: whether a message asks not to be contacted any more. `str.lower` and
-- the regex's class of word characters are Unicode's tables, which are parameters.
mod Examples
use Prim.Native.Char.{code}
use text.Mathlib.Text.{◌==◌ as str_eq}
use realty_lead_ai_agent.Common.{
  ℕ, String, Bool, true, false, not, ◌&&◌, ◌||◌, List, [], ◌∷◌, leb, ◌==◌, if◌then◌else◌, filter,
}
use realty_lead_ai_agent.Models.Enums.{Language}
use realty_lead_ai_agent.Templates.Text.{is_space, strip, contains, concat}

pub record Unicode : Type 0 where
  pub lower : String → String
  pub is_word : ℕ → Bool

-- `_STOP_WORDS`
abbrev pub stop_words : List String
stop_words =
    "stop" ∷ "unsubscribe" ∷ "opt out" ∷ "optout" ∷ "remove me" ∷ "do not contact" ∷ "dont contact"
    ∷ "don't contact" ∷ "not interested" ∷ "no longer interested" ∷ "leave me alone"
    ∷ "stop messaging" ∷ "stop texting" ∷ "band karo" ∷ "band karein" ∷ "mat bhejo"
    ∷ "message mat karo" ∷ "nahi chahiye" ∷ "interested nahi" ∷ "बंद करो" ∷ "मत भेजो" ∷ "नहीं चाहिए"
    ∷ "रुचि नहीं" ∷ "bandh karo" ∷ "nathi joitu" ∷ "ras nathi" ∷ "બંધ કરો" ∷ "નથી જોઈતું" ∷ "રસ નથી"
    ∷ []

-- `_STANDALONE_ONLY`
abbrev pub standalone_only : List String
standalone_only = "stop" ∷ "unsubscribe" ∷ "optout" ∷ "band" ∷ "bandh" ∷ []

-- `_FILLER`
abbrev pub filler : List String
filler =
    "please" ∷ "pls" ∷ "plz" ∷ "thanks" ∷ "thank" ∷ "you" ∷ "no" ∷ "kindly" ∷ "just" ∷ "ok" ∷ []

-- `text in words`
unfoldable pub is_in : String → List String → Bool
is_in text [] = false
is_in text (w ∷ ws) = str_eq text w || is_in text ws

-- `re.compile("[...]+").sub(" ", text)`: a run of such characters becomes one space. The Boolean tells
-- that a run has begun.
unfoldable pub squeeze : (ℕ → Bool) → Bool → String → String
squeeze p inside String.[] = String.[]
squeeze p inside (String.◌∷◌ c s) =
    let next = squeeze p true s in
    let other = squeeze p false s in
    if p (code c) then (if inside then next else concat " " next) else String.◌∷◌ c other

-- What `_NORMALISE_RE` keeps: word characters, white space, Devanagari, Gujarati and the apostrophe.
abbrev is_kept : Unicode → ℕ → Bool
is_kept unicode c =
    unicode.is_word c
    || is_space c
    || (leb 0x900 c && leb c 0x97f)
    || (leb 0xa80 c && leb c 0xaff)
    || c == 39

unfoldable pub normalise : Unicode → String → String
normalise unicode text =
    strip
      (squeeze is_space false (squeeze (λ c. not (is_kept unicode c)) false (unicode.lower text)))

abbrev begins_word : String → Bool
begins_word String.[] = false
begins_word (String.◌∷◌ c s) = not (is_space (code c))

abbrev onto_first : String → List String → List String
onto_first c [] = c ∷ []
onto_first c (w ∷ ws) = concat c w ∷ ws

-- `text.split()`
unfoldable pub words : String → List String
words String.[] = []
words (String.◌∷◌ c s) =
    let rest = words s in
    let letter = String.◌∷◌ c String.[] in
    if is_space (code c)
    then rest
    else if begins_word s
    then onto_first letter rest
    else letter ∷ rest

-- A phrase of several words occurs in the text.
unfoldable pub has_phrase : String → List String → Bool
has_phrase text [] = false
has_phrase text (p ∷ ps) = (contains " " p && contains p text) || has_phrase text ps

-- `len(remainder) == 1 and remainder[0] in _STANDALONE_ONLY`
abbrev stands_alone : List String → Bool
stands_alone [] = false
stands_alone (w ∷ []) = is_in w standalone_only
stands_alone (w ∷ v ∷ ws) = false

unfoldable pub is_opt_out : Unicode → String → Bool
is_opt_out unicode text =
    let normalised = normalise unicode text in
    if str_eq normalised ""
    then false
    else if has_phrase normalised stop_words
    then true
    else stands_alone (filter (λ w. not (is_in w filler)) (words normalised))

-- `opt_out_confirmation`
abbrev pub opt_out_confirmation : Language → String
opt_out_confirmation Language.english =
    "Understood — I won't message you again. If you change your mind, just reply here."
opt_out_confirmation Language.hindi =
    "ठीक है, अब मैं आपको संदेश नहीं भेजूँगा। ज़रूरत हो तो यहीं जवाब दे दीजिए।"
opt_out_confirmation Language.gujarati =
    "સમજી ગયો — હવે હું તમને સંદેશ નહીં મોકલું. જરૂર પડે તો અહીં જ જવાબ આપજો."
