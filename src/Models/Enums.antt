-- ===== src/Models/Enums.antt =====
-- backend/app/models/enums.py: the enums that the modelled code reads, with their Boolean tests.
use mathlib.Core.Bool.{Bool, true, false}
use realty_lead_ai_agent.Common.{String}

pub data Language : Type 0 where
  english hindi gujarati : Language

pub data PropertyType : Type 0 where
  flat villa plot commercial : PropertyType

pub data ListingStatus : Type 0 where
  available under_offer sold withdrawn : ListingStatus

pub data LeadStatus : Type 0 where
  new engaged qualified booked cold handed_off opted_out : LeadStatus

pub data LeadTemperature : Type 0 where
  hot warm cold : LeadTemperature

pub data LeadPurpose : Type 0 where
  self_use investment unknown : LeadPurpose

pub data ConsentStatus : Type 0 where
  unknown opted_in opted_out : ConsentStatus

pub data Channel : Type 0 where
  whatsapp sms email web cli : Channel

pub data MessageRole : Type 0 where
  lead assistant human_agent system : MessageRole

pub data MessageDirection : Type 0 where
  inbound outbound : MessageDirection

pub data MessageStatus : Type 0 where
  pending sent delivered read failed received : MessageStatus

pub data ConversationStatus : Type 0 where
  active human_takeover closed : ConversationStatus

pub data AppointmentType : Type 0 where
  call site_visit : AppointmentType

pub data AppointmentStatus : Type 0 where
  pending confirmed cancelled completed no_show : AppointmentStatus

pub data FollowUpStatus : Type 0 where
  scheduled sent skipped cancelled failed : FollowUpStatus

-- `status is ListingStatus.AVAILABLE`
abbrev pub is_available : ListingStatus → Bool
is_available ListingStatus.available = true
is_available _ = false

-- `status is LeadStatus.BOOKED`
abbrev pub is_booked : LeadStatus → Bool
is_booked LeadStatus.booked = true
is_booked _ = false

-- The stored value of a channel (`channel.value`).
abbrev pub channel_value : Channel → String
channel_value Channel.whatsapp = "whatsapp"
channel_value Channel.sms = "sms"
channel_value Channel.email = "email"
channel_value Channel.web = "web"
channel_value Channel.cli = "cli"

-- `channel == other`
unfoldable pub same_channel : Channel → Channel → Bool
same_channel Channel.whatsapp Channel.whatsapp = true
same_channel Channel.sms Channel.sms = true
same_channel Channel.email Channel.email = true
same_channel Channel.web Channel.web = true
same_channel Channel.cli Channel.cli = true
same_channel _ _ = false
