-- ===== src/InboundQueue/Attempts.antt =====
-- The attempts of the entries, over `reclaim_stale` of backend/app/services/inbound_queue.py.
use realty_lead_ai_agent.Common.{
  ℕ, ◌+◌, ◌≤◌, ◌<◌, String, ◌≡◌, refl, inl, inr, Option, some, List, [], ◌∷◌, arith, All,
  Bool-cases,
}
use realty_lead_ai_agent.RateLimit.Store.{Reply-cases}
use realty_lead_ai_agent.InboundQueue.Redis.{
  StreamName, inbound, dead, Fields, Claim, Codec, Streams, IsStreams,
}
use realty_lead_ai_agent.InboundQueue.{
  QueuedClaim, Decoded, queued, unusable, crashed, ReclaimReport, empty_report, decode, encode,
  load_attempts, is_last_attempt, dead_letter, retry, retry_fields, dead_fields, reclaim_one,
  reclaim_all, reclaim_stale, max_attempts, max_stream_length,
}
use realty_lead_ai_agent.InboundQueue.Reclaim.{next-pure}

module _ {redis : Streams} (laws : IsStreams redis) (codec : Codec) (now : ℕ) where
  open redis use {State, xadd, xack, xautoclaim}
  open laws use {IsLive}

  -- The fields count at most `max_attempts` attempts.
  abbrev pub IsWithin : Fields → Type 0
  IsWithin f = (n : ℕ) → load_attempts codec f.attempts ≡ some n → n ≤ max_attempts

  -- Every entry that waits does.
  pub record IsBounded (s : State) : Type 0 where
    pub each : (i : String) (f : Fields) → IsLive s i f → IsWithin f

  encode-IsWithin :
      (c : Claim) (k : ℕ) (at : Option String)
      → k ≤ max_attempts
      → IsWithin (encode codec now c k at)
  unfolding encode
  encode-IsWithin c k at h n e = ground (arith, h, e, codec.parse-show k)

  dead_fields-IsWithin :
      (q : QueuedClaim) (r : String)
      → q.attempts ≤ max_attempts
      → IsWithin (dead_fields redis codec now q r)
  unfolding encode
  dead_fields-IsWithin q r h n e = ground (arith, h, e, codec.parse-show q.attempts)

  xadd-IsBounded :
      (s : State) (k : StreamName) (f : Fields) (m : ℕ)
      → IsBounded s
      → IsWithin f
      → IsBounded (xadd k f m s).1
  xadd-IsBounded s k f m b h = record {
    each = λ i g l n e. elim (laws.xadd_only s k f g m i l) [
      | inl old ↦ b.each i g old n e
      | inr same ↦ h n (rw (← same) e)
    ];
  }

  xack-IsBounded : (s : State) (j : String) → IsBounded s → IsBounded (xack j s).1
  xack-IsBounded s j b = record { each = λ i g l. b.each i g (laws.xack_only s i j g l) }

  -- XADD of fields within the budget, then XACK.
  moved-IsBounded :
      (s : State) (k : StreamName) (f : Fields) (m : ℕ) (j : String)
      → IsBounded s
      → IsWithin f
      → IsBounded (xack j (xadd k f m s).1).1
  moved-IsBounded s k f m j b h = xack-IsBounded (xadd k f m s).1 j (xadd-IsBounded s k f m b h)

  dead_letter-IsBounded :
      (s : State) (q : QueuedClaim) (r : String)
      → q.attempts ≤ max_attempts
      → IsBounded s
      → IsBounded (dead_letter redis codec now q r s).1
  unfolding dead_letter
  dead_letter-IsBounded s q r h b =
      let f = dead_fields redis codec now q r in
      let w = dead_fields-IsWithin q r h in
      elim (Reply-cases (xadd dead f max_stream_length s).0) [
        | inl e ↦ rw e (xadd-IsBounded s dead f max_stream_length b w)
        | inr (i, e) ↦ rw e (moved-IsBounded s dead f max_stream_length q.entry_id b w)
      ]

  retry-IsBounded :
      (s : State) (q : QueuedClaim)
      → q.attempts < max_attempts
      → IsBounded s
      → IsBounded (retry redis codec now q s).1
  unfolding retry
  retry-IsBounded s q h b =
      let f = retry_fields redis codec now q in
      let w = encode-IsWithin q.claim (q.attempts + 1) (some q.enqueued_at) (omega arith) in
      elim (Reply-cases (xadd inbound f max_stream_length s).0) [
        | inl e ↦ rw e (xadd-IsBounded s inbound f max_stream_length b w)
        | inr (i, e) ↦ rw e (moved-IsBounded s inbound f max_stream_length q.entry_id b w)
      ]

  decode-IsWithin :
      (id : String) (f : Fields) (q : QueuedClaim)
      → decode codec id f ≡ queued q
      → IsWithin f
      → q.attempts ≤ max_attempts
  unfolding decode
  decode-IsWithin id f q e h = h q.attempts (ground (arith, e))

  reclaim_one-IsBounded :
      (s : State) (r : ReclaimReport) (id : String) (f : Fields)
      → IsBounded s
      → IsWithin f
      → IsBounded (reclaim_one redis codec now r id (decode codec id f) s).1
  unfolding reclaim_one
  reclaim_one-IsBounded s r id f b w = go (decode codec id f) refl
    where
      go :
          (d : Decoded) → decode codec id f ≡ d → IsBounded (reclaim_one redis codec now r id d s).1
      go crashed e = b
      go unusable e = next-pure IsBounded (xack id s).0 _ (xack id s).1 (xack-IsBounded s id b)
      go (queued q) e = elim (Bool-cases (is_last_attempt q)) [
        | inl l ↦ rw l (
            next-pure IsBounded (dead_letter redis codec now q "attempts exhausted" s).0 _
              (dead_letter redis codec now q "attempts exhausted" s).1
              (dead_letter-IsBounded s q "attempts exhausted" (decode-IsWithin id f q e w) b))
        | inr l ↦ rw l (
            next-pure IsBounded (retry redis codec now q s).0 _ (retry redis codec now q s).1
              (retry-IsBounded s q (ground (arith, l)) b))
      ]

  reclaim_all-IsBounded :
      (s : State) (r : ReclaimReport) (es : List (String × Fields))
      → IsBounded s
      → All (λ (e : String × Fields). IsWithin e.1) es
      → IsBounded (reclaim_all redis codec now r es s).1
  unfolding reclaim_all
  reclaim_all-IsBounded s r [] b w = b
  reclaim_all-IsBounded s r ((id, f) ∷ es) b w =
      let (m, s') = reclaim_one redis codec now r id (decode codec id f) s in
      let kept = reclaim_one-IsBounded s r id f b w.0 in
      elim (Reply-cases m) [
        | inl e ↦ rw e kept
        | inr (u, e) ↦ rw e (reclaim_all-IsBounded s' u es kept w.1)
      ]

  live-IsWithin :
      (s : State) (es : List (String × Fields))
      → IsBounded s
      → All (λ (e : String × Fields). IsLive s e.0 e.1) es
      → All (λ (e : String × Fields). IsWithin e.1) es
  live-IsWithin s [] b l = tt
  live-IsWithin s ((i, f) ∷ es) b l = (b.each i f l.0, live-IsWithin s es b l.1)

  -- A recovery pass keeps every entry of the queue within the attempt budget, whichever of its calls
  -- raise: an entry is only added again while it has attempts left.
  pub reclaim_stale-IsBounded :
      (s : State) (consumer : String) (min_idle_ms count : ℕ)
      → IsBounded s
      → IsBounded (reclaim_stale redis codec now consumer min_idle_ms count s).1
  unfolding reclaim_stale
  reclaim_stale-IsBounded s consumer min_idle_ms count b =
      let (m, s') = xautoclaim consumer min_idle_ms count s in
      let kept : IsBounded s' = record {
        each = λ i f l. b.each i f (laws.xautoclaim_only s consumer min_idle_ms count i f l);
      } in
      elim (Reply-cases m) [
        | inl e ↦ rw e kept
        | inr (es, e) ↦
            let (few, apart, live) = laws.xautoclaim_lem s consumer min_idle_ms count es e in
            rw e (reclaim_all-IsBounded s' empty_report es kept (live-IsWithin s' es kept live))
      ]
