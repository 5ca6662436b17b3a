-- ===== src/Lib.antt =====
-- A model of the core of RealtyLead's backend (backend/app): the nudges that an assistant sends to the
-- leads of a real-estate agent, the queue of the messages that leads send, and the rules around both.
--
-- The parts. The inbound queue keeps every message of a lead until it is settled. The follow-up worker
-- takes the nudges that are due, asks the follow-up service whether each is still appropriate, asks the
-- quiet hours and the rate limit whether it may go out now, sends it by a template and schedules the
-- next. The conversation engine answers a message: it asks a model, which may call tools that score the
-- lead, offer the agent's open slots, book one of them or hand the lead to a human. Scoring ranks a lead
-- from what they said.
--
--   Models            backend/app/models, backend/app/core/config.py: rows, enums, settings; Db: the tables
--   Scoring           backend/app/agent/scoring.py: score_lead and its five factors
--   Zones, QuietHours backend/app/services/scheduling.py (resolve_timezone), backend/app/services/quiet_hours.py
--   Templates         backend/app/channels/templates.py: the table, first_name, render
--   RateLimit         backend/app/services/ratelimit.py; RateLimit/Store: the commands of Redis that it calls
--   FollowUps         backend/app/services/followups.py: check_eligibility, cancel_pending, schedule_next
--   Channels          backend/app/channels/base.py: messages and adapters
--   Whatsapp          backend/app/channels/whatsapp.py: _request, send, mark_read, phone numbers
--   Signature         backend/app/channels/whatsapp_payload.py: verify_signature and sign
--   FollowUpWorker    backend/app/workers/followup_worker.py: run_once down to process_task
--   InboundQueue      backend/app/services/inbound_queue.py; InboundQueue/Redis: the commands that it calls
--   Turn              backend/app/services/turn.py: run_claim with its outcomes
--   InboundWorker     backend/app/workers/inbound_worker.py: run_once and handle; InboundWorker/Turns lists its turns
--   Ingestion         backend/app/services/ingestion.py: claim_inbound and apply_status_updates
--   Scheduling        backend/app/services/scheduling.py: find_available_slots; Scheduling/Grid describes its slots
--   GoogleCalendar    backend/app/services/google_calendar.py: the client, as its callers see it
--   Booking           backend/app/services/booking.py: sync_to_calendar, cancel_calendar_event
--   Tools             backend/app/agent/tools.py: dispatch and its handlers
--   Optout            backend/app/agent/optout.py: is_opt_out
--   Engine            backend/app/agent/engine.py: handle_inbound (receive, respond), run_turn
--   Delivery          backend/app/services/ingestion.py: process_claimed and deliver, over the engine
--   Sessions          backend/app/services/sessions.py: create, resolve, revoke, revoke_all, purge_expired
--   Passwords         backend/app/services/passwords.py: hash_password, verify_password, needs_rehash
--   OauthState        backend/app/services/oauth_state.py: issue and verify
--   Fixtures          rows for the tests, which stand in each part's Examples
--
-- How state is modelled. A handler is a function of the state it changes: the tables (Db), Redis, the
-- messages sent and the report. A call that may raise returns a Reply, and what was sent or counted
-- before it raised stays; run_once puts the tables back, as the session does. Rows are held in the
-- order of their creation, ids are numbers drawn from a counter, a moment is a count of microseconds
-- and an amount of money a whole number of paise. Counts, amounts and days ahead are natural numbers: the
-- negative ones that a tool call, a queue entry or a listing could carry are not modelled.
--
-- Parameters. Redis is a record of commands, with what Redis documents as named laws (IsUp for the
-- counters, IsStreams for the streams); each record of laws has an instance in the tests. So are time
-- zones (zoneinfo), the SHA-256 of a rate limit's subject, the JSON and date codecs, the adapters, the
-- calendar client, the model client, Unicode's tables, HMAC, scrypt and Base64.
--
-- Loops are recursion on a list, or on the rounds that the source counts itself (the tool loop, the days
-- of a search). The loop over one working window has one round more than slots that fit in it, which
-- is when its condition fails; Scheduling/Loop compares it with a grid that has no rounds.
--
-- Not modelled: the HTTP API, the scripts, logging, the HTTP of the model client and of Google Calendar,
-- the bodies of WhatsApp requests and its media downloads, the texts of the system prompt and of calendar
-- events; and, so far, the CSV import and the parsing of webhook payloads.
pub mod Common
pub mod GoogleCalendar
pub mod Scheduling
pub mod Booking
pub mod Tools
pub mod Optout
pub mod Models
pub mod Fixtures
pub mod Scoring
pub mod Zones
pub mod QuietHours
pub mod Templates
pub mod RateLimit
pub mod FollowUps
pub mod Channels
pub mod FollowUpWorker
pub mod InboundQueue
pub mod Turn
pub mod InboundWorker
pub mod Ingestion
pub mod Engine
pub mod Delivery
pub mod OauthState
pub mod Sessions
pub mod Signature
pub mod Passwords
pub mod Whatsapp
