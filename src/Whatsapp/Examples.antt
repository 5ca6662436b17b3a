-- ===== src/Whatsapp/Examples.antt =====
-- Tests of the retries: two failures of the network, then an answer; and a number that is normalised.
use realty_lead_ai_agent.Whatsapp.Retries.{request-settled}
use realty_lead_ai_agent.Common.{
  ◌<◌, none, some, arith, ℕ, ◌≡◌, refl, ◌&&◌, leb, if◌then◌else◌, ltb,
}
use realty_lead_ai_agent.Whatsapp.{
  HttpReply, response, request_error, body, settled, attempt_from, request, digits_of,
  normalise_phone, to_wa_id,
}

abbrev flaky : ℕ → HttpReply
flaky n = if ltb n 2 then request_error else response 200 "sent"

third_time : request flaky 3 ≡ (body "sent", 3)
unfolding request attempt_from settled
third_time = refl

flaky_before : (j : ℕ) → j < 2 → settled (flaky j) ≡ none
unfolding settled
flaky_before j l = ground arith

answered : settled (flaky 2) ≡ some (body "sent")
unfolding settled
answered = refl

request-settled_example : request flaky 3 ≡ (body "sent", 3)
request-settled_example =
    request-settled flaky 3 2 (body "sent") (omega arith) flaky_before answered

number_kept :
    to_wa_id (normalise_phone (λ c. leb 48 c && leb c 57) "+91 98765-43210") ≡ "919876543210"
unfolding to_wa_id normalise_phone digits_of
number_kept = refl
