-- ===== src/InboundQueue/Budget.antt =====
-- The report of `reclaim_stale` of backend/app/services/inbound_queue.py.
use realty_lead_ai_agent.Common.{ℕ, ◌+◌, String, ◌≡◌, inl, inr, List, [], ◌∷◌, arith, length}
use realty_lead_ai_agent.RateLimit.Store.{ok, Reply-cases}
use realty_lead_ai_agent.InboundQueue.Redis.{Fields, Codec, Streams}
use realty_lead_ai_agent.InboundQueue.{
  Decoded, queued, unusable, crashed, ReclaimReport, empty_report, decode, dead_letter, retry,
  reclaim_one, reclaim_all, reclaim_stale, total,
}

module _ (redis : Streams) (codec : Codec) (now : ℕ) where
  open redis use {State, xadd, xack, xautoclaim}

  reclaim_one-total :
      (s s' : State) (r r' : ReclaimReport) (id : String) (d : Decoded)
      → reclaim_one redis codec now r id d s ≡ (ok r', s')
      → total r' ≡ total r + 1
  unfolding reclaim_one dead_letter retry
  reclaim_one-total s s' r r' id crashed h = cc
  reclaim_one-total s s' r r' id unusable h = ground arith
  reclaim_one-total s s' r r' id (queued q) h = ground arith

  reclaim_all-total :
      (s s' : State) (r r' : ReclaimReport) (es : List (String × Fields))
      → reclaim_all redis codec now r es s ≡ (ok r', s')
      → total r' ≡ total r + length es
  unfolding reclaim_all
  reclaim_all-total s s' r r' [] h = ground arith
  reclaim_all-total s s' r r' ((id, f) ∷ es) h =
      let (m, t) = reclaim_one redis codec now r id (decode codec id f) s in
      elim (Reply-cases m) [
        | inl e ↦ ground arith
        | inr (u, e) ↦ ground (
          arith,
          reclaim_one-total s t r u id (decode codec id f),
          reclaim_all-total t s' u r' es,
        )
      ]

  -- A recovery pass that completes reports each entry that it took back once: as retried,
  -- dead-lettered or discarded.
  pub reclaim_stale-total :
      (s s' : State) (consumer : String) (min_idle_ms count : ℕ) (es : List (String × Fields))
      (r : ReclaimReport)
      → (xautoclaim consumer min_idle_ms count s).0 ≡ ok es
      → reclaim_stale redis codec now consumer min_idle_ms count s ≡ (ok r, s')
      → total r ≡ length es
  unfolding reclaim_stale
  reclaim_stale-total s s' consumer min_idle_ms count es r e h =
      let t = (xautoclaim consumer min_idle_ms count s).1 in
      ground (arith, e, h, reclaim_all-total t s' empty_report r es)
