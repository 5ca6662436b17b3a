-- ===== src/Channels.antt =====
-- backend/app/channels/base.py: the messages that go out over a channel and the adapter that sends
-- them. An adapter's answer may depend on all that was sent before.
use text.Mathlib.Text.{◌==◌ as str_eq}
use realty_lead_ai_agent.Common.{
  ℕ, Bool, true, false, Option, none, some, List, String, if◌then◌else◌,
}
use realty_lead_ai_agent.Models.Enums.{Channel, Language}
use realty_lead_ai_agent.RateLimit.Store.{Reply}

pub record TemplateVariables : Type 0 where
  pub language : Language
  pub name : String
  pub agent : String

pub record OutboundMessage : Type 0 where
  pub channel : Channel
  pub recipient : String
  pub text : String
  pub lead_id : ℕ
  pub template_name : Option String
  pub template_variables : Option TemplateVariables

pub record DeliveryResult : Type 0 where
  pub external_id : Option String
  pub accepted : Bool
  pub error : Option String

-- `ChannelAdapter.send`
abbrev pub Adapter : Type 0
Adapter = List OutboundMessage → OutboundMessage → Reply DeliveryResult

-- `text or default`, where an empty text is false
abbrev pub or_text : Option String → String → String
or_text none d = d
or_text (some s) d = if str_eq s "" then d else s

-- The text counts as true.
abbrev pub is_set : Option String → Bool
is_set none = false
is_set (some s) = if str_eq s "" then false else true
