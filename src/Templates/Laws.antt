-- ===== src/Templates/Laws.antt =====
-- The templates and the greeting of backend/app/channels/templates.py.
use Prim.Native.Char.{code}
use realty_lead_ai_agent.Common.{
  ◌≡◌, ◌≢◌, String, Option, none, some, false, arith, Bool-cases, inl, inr,
}
use realty_lead_ai_agent.Models.Enums.{Language}
use realty_lead_ai_agent.Templates.Text.{is_space, is_blank, lstrip, rstrip, strip, first_word}
use realty_lead_ai_agent.Templates.{first_name, neutral_greeting}

-- The text begins with a character that is no white space.
abbrev Starts : String → Type 0
Starts String.[] = ⊥
Starts (String.◌∷◌ c s) = is_space (code c) ≡ false

-- The text has no white space.
abbrev pub NoSpace : String → Type 0
NoSpace String.[] = Unit
NoSpace (String.◌∷◌ c s) = (is_space (code c) ≡ false) × NoSpace s

lstrip-Starts : (s : String) → is_blank s ≡ false → Starts (lstrip s)
unfolding lstrip is_blank
lstrip-Starts String.[] h = cc
lstrip-Starts (String.◌∷◌ c s) h = elim (Bool-cases (is_space (code c))) [
  | inl e ↦ rw (e, lstrip) (lstrip-Starts s (ground arith))
  | inr e ↦ rw (e, lstrip) e
]

rstrip-Starts : (s : String) → Starts s → Starts (rstrip s)
unfolding rstrip is_blank
rstrip-Starts String.[] h = h
rstrip-Starts (String.◌∷◌ c s) h = rw h h

first_word-Starts : (s : String) → Starts s → first_word s ≢ ""
unfolding first_word
first_word-Starts String.[] h = absurd h
first_word-Starts (String.◌∷◌ c s) h = rw h (λ e. cc)

first_word-NoSpace : (s : String) → NoSpace (first_word s)
unfolding first_word
first_word-NoSpace String.[] = tt
first_word-NoSpace (String.◌∷◌ c s) = elim (Bool-cases (is_space (code c))) [
  | inl e ↦ rw (e, first_word) tt
  | inr e ↦ rw (e, first_word) (e, first_word-NoSpace s)
]

greeting_word : (l : Language) → (neutral_greeting l ≢ "") × NoSpace (neutral_greeting l)
unfolding neutral_greeting is_space
greeting_word Language.english = ((λ e. cc), ground arith)
greeting_word Language.hindi = ((λ e. cc), ground arith)
greeting_word Language.gujarati = ((λ e. cc), ground arith)

-- The greeting is never empty and is one word, whatever the name on record.
pub first_name_word :
    (n : Option String) (l : Language) → (first_name n l ≢ "") × NoSpace (first_name n l)
unfolding first_name strip
first_name_word none l = greeting_word l
first_name_word (some name) l = elim (Bool-cases (is_blank name)) [
  | inl e ↦ rw (e, first_name) (greeting_word l)
  | inr e ↦
      rw (e, first_name)
        (
          first_word-Starts _ (rstrip-Starts _ (lstrip-Starts name e)),
          first_word-NoSpace (strip name),
        )
]
