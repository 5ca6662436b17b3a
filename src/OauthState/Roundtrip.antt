-- ===== src/OauthState/Roundtrip.antt =====
-- issue and verify of backend/app/services/oauth_state.py, one after the other.
use realty_lead_ai_agent.Common.{
  ℕ, ◌+◌, ◌*◌, ◌/◌, ◌%◌, ◌<◌, ◌≡◌, refl, ap, ◌∙◌, String, true, some, ltb, if◌then◌else◌,
}
use realty_lead_ai_agent.Templates.Text.{concat}
use realty_lead_ai_agent.OauthState.{
  Library, InvalidState, valid, invalid, rstrip_equals, size, equals, second_us, b64encode,
  b64decode, issue, verify,
}
use realty_lead_ai_agent.OauthState.Padding.{
  is_plain, rstrip_equals-concat, split_dot-concat, padding,
}

-- What Python's library documents: Base64's text is of the URL-safe alphabet, filled up with equals
-- signs to a multiple of four, and is decoded to what was encoded; JSON likewise; and two equal
-- digests compare as the same.
pub record IsPython (lib : Library) : Type 0 where
  pub body : lib.Bytes → String
  pub pads : lib.Bytes → ℕ
  pub encode_lem : (raw : lib.Bytes) → lib.encode raw ≡ concat (body raw) (equals (pads raw))
  pub plain : (raw : lib.Bytes) → is_plain (body raw) ≡ true
  pub few : (raw : lib.Bytes) → pads raw < 4
  pub fours : (raw : lib.Bytes) → (size (body raw) + pads raw) % 4 ≡ 0
  pub decode-encode : (raw : lib.Bytes) → lib.decode (lib.encode raw) ≡ some raw
  pub loads-dumps : (a i : ℕ) → lib.loads (lib.dumps a i) ≡ some (a, i)
  pub same_refl : (digest : lib.Bytes) → lib.same digest digest ≡ true

module _ {lib : Library} (laws : IsPython lib) where
  b64encode_lem : (raw : lib.Bytes) → b64encode lib raw ≡ laws.body raw
  unfolding b64encode
  b64encode_lem raw =
      ap rstrip_equals (laws.encode_lem raw)
      ∙ rstrip_equals-concat (laws.body raw) (laws.pads raw) (laws.plain raw)

  b64decode-body : (raw : lib.Bytes) → b64decode lib (laws.body raw) ≡ some raw
  unfolding b64decode
  b64decode-body raw =
      rw
        (
          b64decode,
          padding (size (laws.body raw)) (laws.pads raw) (laws.few raw) (laws.fours raw),
          ← laws.encode_lem raw,
        )
        (laws.decode-encode raw)

  -- A state that was issued with the same secret gives back the agent's id until its lifetime, counted
  -- from the second of issue, is over, and is expired from then on.
  pub verify-issue :
      (agent_id : ℕ) (secret : String) (ttl_seconds issued now : ℕ)
      → verify lib (issue lib agent_id secret issued) secret ttl_seconds now ≡ (
          if ltb ((issued / second_us + ttl_seconds) * second_us) now
          then invalid InvalidState.expired
          else valid agent_id)
  unfolding verify issue
  verify-issue agent_id secret ttl_seconds issued now =
      let payload = lib.dumps agent_id (issued / second_us) in
      let signature = lib.hmac secret payload in
      rw
        (
          verify,
          b64encode_lem payload,
          b64encode_lem signature,
          split_dot-concat (laws.body payload) (laws.body signature) (laws.plain payload),
          b64decode-body payload,
          b64decode-body signature,
          laws.same_refl signature,
          laws.loads-dumps agent_id (issued / second_us),
        )
        refl
