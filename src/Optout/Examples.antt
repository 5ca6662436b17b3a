-- ===== src/Optout/Examples.antt =====
-- Tests of the opt-out words.
use realty_lead_ai_agent.Common.{true, false, ◌≡◌, refl, [], ◌∷◌, map}
use realty_lead_ai_agent.Fixtures.{ascii}
use realty_lead_ai_agent.Optout.{is_opt_out, normalise, squeeze, words, has_phrase, is_in}
use realty_lead_ai_agent.Templates.Text.{is_space, strip, contains, concat, is_blank}

asked_out :
    map (is_opt_out ascii) (
      "please stop, thanks!" ∷ "stop by the site on sunday" ∷ "i am not  interested" ∷ "?"
      ∷ "remove meters" ∷ [])
    ≡ true ∷ false ∷ true ∷ false ∷ true ∷ []
unfolding is_opt_out normalise squeeze words has_phrase is_in is_space strip contains concat
    is_blank
asked_out = refl
