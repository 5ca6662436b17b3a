-- ===== src/Engine/Model.antt =====
-- backend/app/agent/engine.py and backend/app/agent/llm.py: what the engine and the model client
-- exchange, and the state of a turn. The model client is a parameter; the requests it gets are logged.
use realty_lead_ai_agent.Common.{ℕ, String, Bool, Option, List}
use realty_lead_ai_agent.Models.Enums.{Language}
use realty_lead_ai_agent.Models.Settings.{Settings}
use realty_lead_ai_agent.Templates.Text.{concat}
use realty_lead_ai_agent.Scheduling.{Services}
use realty_lead_ai_agent.Tools.Context.{ToolContext, Parsers, ToolReply}
use realty_lead_ai_agent.Tools.{ToolCall}
use realty_lead_ai_agent.Optout.{Unicode}

pub record ToolUse : Type 0 where
  pub id : String
  pub call : ToolCall

-- `LLMResponse` of backend/app/agent/llm.py
pub record LlmResponse : Type 0 where
  -- `stop_reason == "refusal"`
  pub refused : Bool
  pub text : String
  pub tool_uses : List ToolUse

-- A response, an `LLMError`, or any other exception.
pub data LlmReply : Type 0 where
  responded : LlmResponse → LlmReply
  llm_error : String → LlmReply
  crashed : LlmReply

pub data Role : Type 0 where
  user assistant : Role

pub record ToolResult : Type 0 where
  pub tool_use_id : String
  pub reply : ToolReply

-- The content of a message to the model: a text, its own response, or the results of its calls.
pub data Content : Type 0 where
  plain : String → Content
  response : LlmResponse → Content
  results : List ToolResult → Content

pub record Chat : Type 0 where
  pub role : Role
  pub content : Content

-- What the engine is built with. The model's reply may depend on the context that the system prompt is
-- rendered from, and on the messages.
pub record Env : Type 0 where
  pub services : Services
  pub parsers : Parsers
  pub unicode : Unicode
  pub settings : Settings
  -- the budget and the threshold as the reason writes them, `₹{n:,}`
  pub rupees : ℕ → String
  pub complete : ToolContext → List Chat → LlmReply

pub record EngineResult : Type 0 where
  pub reply : String
  pub escalated : Bool
  pub escalation_reason : Option String
  pub opted_out : Bool
  pub tool_calls : List ToolCall
  pub error : Option String

-- `FALLBACK_REPLY[language].format(agent=name)`
abbrev pub fallback_reply : Language → String → String
fallback_reply Language.english agent =
    concat "Sorry, I'm having trouble on my end. I've let "
      (concat agent " know and they'll get back to you shortly.")
fallback_reply Language.hindi agent =
    concat "क्षमा करें, मुझे कुछ तकनीकी दिक्कत हो रही है। मैंने "
      (concat agent " को बता दिया है, वे जल्द ही आपसे संपर्क करेंगे।")
fallback_reply Language.gujarati agent =
    concat "માફ કરશો, મને થોડી ટેકનિકલ મુશ્કેલી થઈ રહી છે. મેં "
      (concat agent "ને જાણ કરી છે, તેઓ ટૂંક સમયમાં તમારો સંપર્ક કરશે.")

-- A turn under way: the rows, the tool calls so far and the requests to the model.
pub record Turn : Type 0 where
  pub ctx : ToolContext
  pub tool_calls : List ToolCall
  pub requests : List (List Chat)

-- How `_run_turn` ends: a reply, an `LLMError`, or another exception.
pub data Ending : Type 0 where
  replied failed : String → Ending
  broke : Ending
