-- ===== src/Templates.antt =====
-- backend/app/channels/templates.py: the approved follow-up templates and their variables.
pub mod Table
pub mod Text
pub mod Laws
mod Examples
use realty_lead_ai_agent.Common.{ℕ, String, Option, none, some, Bool, true, false, if◌then◌else◌}
use realty_lead_ai_agent.Models.Enums.{Language}
use Table.{MessageTemplate, follow_up_templates}
use Text.{strip, first_word, replace, is_blank}

unfoldable pub neutral_greeting : Language → String
neutral_greeting Language.english = "there"
neutral_greeting Language.hindi = "जी"
neutral_greeting Language.gujarati = "જી"

abbrev or_english : Option MessageTemplate → ℕ → Option MessageTemplate
or_english (some t) attempt = some t
or_english none attempt = follow_up_templates attempt Language.english

-- The template for this attempt, in English where it is not localised.
unfoldable pub follow_up_template : ℕ → Language → Option MessageTemplate
follow_up_template attempt language = or_english (follow_up_templates attempt language) attempt

-- `full_name.strip().split()[0]`, or the greeting where nothing is left
unfoldable pub first_name : Option String → Language → String
first_name none language = neutral_greeting language
first_name (some name) language =
    if is_blank name then neutral_greeting language else first_word (strip name)

unfoldable pub render : MessageTemplate → String → String → String
render template lead_name agent_name =
    replace "{{2}}" agent_name (replace "{{1}}" lead_name template.body)
