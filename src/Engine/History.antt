-- ===== src/Engine/History.antt =====
-- Reading messages in backend/app/agent/engine.py: the history that the model sees.
use realty_lead_ai_agent.Common.{
  ℕ, String, Bool, true, false, ◌&&◌, List, [], ◌∷◌, ◌==◌, if◌then◌else◌, length, filter,
}
use realty_lead_ai_agent.Models.Enums.{MessageDirection}
use realty_lead_ai_agent.Models.Rows.{Conversation, Message}
use realty_lead_ai_agent.Models.Db.{Db}
use realty_lead_ai_agent.Templates.Text.{concat}
use realty_lead_ai_agent.Engine.Model.{Role, user, assistant, plain, Chat}
use realty_lead_ai_agent.Engine.Records.{is_inbound}

abbrev role_of : MessageDirection → Role
role_of MessageDirection.inbound = user
role_of MessageDirection.outbound = assistant

abbrev pub same_role : Role → Role → Bool
same_role user user = true
same_role assistant assistant = true
same_role _ _ = false

-- A text of the history, joined to the last one where the roles are the same.
unfoldable pub add_text : List (Role × String) → Role → String → List (Role × String)
add_text [] role t = (role, t) ∷ []
add_text ((r, s) ∷ []) role t =
    if same_role r role then (r, concat s (concat "\n" t)) ∷ [] else (r, s) ∷ (role, t) ∷ []
add_text (m ∷ n ∷ ms) role t = m ∷ add_text (n ∷ ms) role t

abbrev add_all : List (Role × String) → List Message → List (Role × String)
add_all acc [] = acc
add_all acc (m ∷ ms) = add_all (add_text acc (role_of m.direction) m.content) ms

-- The API wants the first turn from the user.
unfoldable pub from_user : List (Role × String) → List (Role × String)
from_user [] = []
from_user ((user, t) ∷ ms) = (user, t) ∷ ms
from_user ((assistant, t) ∷ ms) = from_user ms

abbrev as_chat : List (Role × String) → List Chat
as_chat [] = []
as_chat ((r, t) ∷ ms) = record { role = r; content = plain t } ∷ as_chat ms

-- `_history_as_messages`
unfoldable pub history_as_messages : Db → Conversation → List Chat
history_as_messages db conversation =
    as_chat
      (from_user (add_all [] (filter (λ m. m.conversation_id == conversation.id) db.messages)))

-- `_inbound_count`
unfoldable pub inbound_count : Db → Conversation → ℕ
inbound_count db conversation =
    length
      (filter (λ m. m.conversation_id == conversation.id && is_inbound m.direction) db.messages)
