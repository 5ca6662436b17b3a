-- ===== src/Whatsapp.antt =====
-- backend/app/channels/whatsapp.py: the retries of a Graph call, and sending a message with it. The HTTP
-- client is a parameter: what it answers to each attempt. The waits between attempts leave no trace.
pub mod Retries
mod Examples
use Prim.Native.Char.{code}
use text.Mathlib.Text.{◌==◌ as str_eq}
use realty_lead_ai_agent.Common.{
  ℕ, zero, suc, String, Bool, true, false, ◌||◌, Option, none, some, ltb, ◌==◌, if◌then◌else◌,
}
use realty_lead_ai_agent.Channels.{OutboundMessage, DeliveryResult}
use realty_lead_ai_agent.RateLimit.Store.{Reply, ok, raised}

-- A response with its status and body, or an `httpx.RequestError`.
pub data HttpReply : Type 0 where
  response : ℕ → String → HttpReply
  request_error : HttpReply

-- `RETRYABLE_STATUS`
abbrev pub is_retryable : ℕ → Bool
is_retryable status =
    status == 408
    || status == 429
    || status == 500
    || status == 502
    || status == 503
    || status == 504

-- The body of a response, or a `WhatsAppError`: the status and the body that were rejected, or none of
-- the attempts went through.
pub data Outcome : Type 0 where
  body : String → Outcome
  rejected : ℕ → String → Outcome
  unreachable : Outcome

-- What one attempt settles: nothing, where it is to be tried again.
unfoldable pub settled : HttpReply → Option Outcome
settled request_error = none
settled (response status content) =
    if ltb status 400
    then some (body content)
    else if is_retryable status
    then none
    else some (rejected status content)

-- The `for` loop: the attempts that are left and the number of the next one. The outcome comes with
-- the number of attempts made.
unfoldable pub attempt_from : (ℕ → HttpReply) → ℕ → ℕ → Outcome × ℕ
attempt_from client zero attempt = (unreachable, attempt)
attempt_from client (suc left) attempt = elim (settled (client attempt)) [
  | some outcome ↦ (outcome, suc attempt)
  | none ↦ attempt_from client left (suc attempt)
]

-- `_request`, which makes one attempt more than the retries
unfoldable pub request : (ℕ → HttpReply) → ℕ → Outcome × ℕ
request client max_retries = attempt_from client (suc max_retries) 0

abbrev not_delivered : String → DeliveryResult
not_delivered error = record { external_id = none; accepted = false; error = some error }

-- The id in the body of a response, whose JSON may not be readable.
abbrev accepted : Reply (Option String) → Reply DeliveryResult
accepted raised = raised
accepted (ok id) = ok (record { external_id = id; accepted = true; error = none })

-- `send`. The text of a `WhatsAppError` and the reading of a body are parameters; the client makes the
-- request's body of the message.
unfoldable pub send :
    (OutboundMessage → ℕ → HttpReply)
    → (Outcome → String)
    → (String → Reply (Option String))
    → ℕ
    → OutboundMessage
    → Reply DeliveryResult
send client error_text message_id max_retries message =
    elim (request (client message) max_retries).0 [
      | body content ↦ accepted (message_id content)
      | rejected status content ↦ ok (not_delivered (error_text (rejected status content)))
      | unreachable ↦ ok (not_delivered (error_text unreachable))
    ]

-- `mark_read`, which never raises
unfoldable pub mark_read : (ℕ → HttpReply) → ℕ → Bool
mark_read client max_retries = elim (request client max_retries).0 [
  | body content ↦ true
  | _ ↦ false
]

-- `"".join(ch for ch in raw if ch.isdigit())`
unfoldable pub digits_of : (ℕ → Bool) → String → String
digits_of is_digit String.[] = String.[]
digits_of is_digit (String.◌∷◌ c s) =
    let rest = digits_of is_digit s in if is_digit (code c) then String.◌∷◌ c rest else rest

unfoldable pub normalise_phone : (ℕ → Bool) → String → String
normalise_phone is_digit raw =
    let digits = digits_of is_digit raw in if str_eq digits "" then raw else String.◌∷◌ "+" digits

-- `phone.lstrip("+")`
unfoldable pub to_wa_id : String → String
to_wa_id String.[] = String.[]
to_wa_id (String.◌∷◌ c s) = let rest = to_wa_id s in if code c == 43 then rest else String.◌∷◌ c s
