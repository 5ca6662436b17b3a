-- ===== src/Models/Settings.antt =====
-- backend/app/core/config.py: the settings that the modelled code reads, their defaults and bounds.
use realty_lead_ai_agent.Common.{ℕ, ◌≤◌, ◌<◌}

pub record Settings : Type 0 where
  pub max_tool_iterations : ℕ
  pub quiet_hours_start : ℕ
  pub quiet_hours_end : ℕ
  pub max_follow_ups : ℕ
  pub escalation_budget_threshold : ℕ
  pub whatsapp_service_window_hours : ℕ
  pub inbound_retry_after_seconds : ℕ
  pub inbound_messages_per_lead : ℕ
  pub inbound_window_seconds : ℕ
  pub follow_ups_per_agent : ℕ
  pub follow_up_window_seconds : ℕ
  pub login_attempts_per_window : ℕ
  pub login_window_seconds : ℕ

abbrev pub default_settings : Settings
default_settings = record {
  max_tool_iterations = 6;
  quiet_hours_start = 21;
  quiet_hours_end = 9;
  max_follow_ups = 6;
  escalation_budget_threshold = 20_000_000;
  whatsapp_service_window_hours = 24;
  inbound_retry_after_seconds = 120;
  inbound_messages_per_lead = 20;
  inbound_window_seconds = 300;
  follow_ups_per_agent = 60;
  follow_up_window_seconds = 3600;
  login_attempts_per_window = 10;
  login_window_seconds = 900;
}

-- The bounds that the fields declare (`ge`, `le`), which pydantic checks when it loads them.
pub record IsLoaded (s : Settings) : Type 0 where
  pub iterations : 1 ≤ s.max_tool_iterations
  pub start_hour : s.quiet_hours_start < 24
  pub end_hour : s.quiet_hours_end < 24
  pub per_lead : 1 ≤ s.inbound_messages_per_lead
  pub inbound_window : 1 ≤ s.inbound_window_seconds
  pub per_agent : 1 ≤ s.follow_ups_per_agent
  pub follow_up_window : 1 ≤ s.follow_up_window_seconds
  pub attempts : 1 ≤ s.login_attempts_per_window
  pub login_window : 1 ≤ s.login_window_seconds
