-- ===== src/Templates/Examples.antt =====
-- Tests of the templates and of the name that a lead is greeted with.
use realty_lead_ai_agent.Common.{◌≢◌, ◌≡◌, refl, some}
use realty_lead_ai_agent.Models.Enums.{Language}
use realty_lead_ai_agent.Templates.{first_name}
use realty_lead_ai_agent.Templates.Text.{is_blank, is_space, first_word, strip}
use realty_lead_ai_agent.Templates.Laws.{NoSpace, first_name_word}

asha_is : first_name (some "  Asha Patel ") Language.english ≡ "Asha"
unfolding first_name is_blank is_space first_word strip
asha_is = refl

first_name_word_example :
    (first_name (some "  Asha Patel ") Language.english ≢ "")
    × NoSpace (first_name (some "  Asha Patel ") Language.english)
first_name_word_example = first_name_word (some "  Asha Patel ") Language.english
