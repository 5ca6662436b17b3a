-- ===== src/InboundQueue/Reclaim.antt =====
-- The claims of the queue, over `reclaim_stale` of backend/app/services/inbound_queue.py.
use realty_lead_ai_agent.Common.{
  ℕ, ◌+◌, ◌≤◌, ◌<◌, String, ◌≡◌, ◌≢◌, refl, subst, inl, inr, List, [], ◌∷◌, arith, length, All,
  if_rule,
}
use realty_lead_ai_agent.RateLimit.Store.{Reply, ok, raised, Reply-cases}
use realty_lead_ai_agent.InboundQueue.Redis.{
  StreamName, inbound, dead, Fields, Claim, Codec, Streams, IsStreams, Apart,
}
use realty_lead_ai_agent.InboundQueue.{
  Decoded, queued, unusable, crashed, ReclaimReport, empty_report, decode, is_last_attempt,
  dead_letter, retry, reclaim_one, reclaim_all, reclaim_stale, next,
}
use realty_lead_ai_agent.InboundQueue.Held.{
  IsHeld, InHand, Keeps, Keeps-refl, dead_letter-Keeps, retry-Keeps, xack-IsHeld, decode-Carries,
  unusable-Carries,
}

-- A step after which only a value is returned leaves the state of the step.
pub next-pure {ℓ} :
    {S : Type 0} {A B : Type 0} (P : S → Type ℓ) (r : Reply A) (b : B) (s : S)
    → P s
    → P (next r (λ _ t. (ok b, t)) s).1
next-pure P raised b s h = h
next-pure P (ok a) b s h = h

module _ {redis : Streams} (laws : IsStreams redis) (codec : Codec) (now : ℕ) where
  open redis use {State, xadd, xack, xautoclaim}
  open laws use {IsLive, IsDead, room}

  -- An entry that cannot be read carries no claim, so it may go.
  discard-Keeps :
      (s : State) (id : String) (f : Fields)
      → IsLive s id f
      → decode codec id f ≡ unusable
      → Keeps laws codec now id s (xack id s).1
  discard-Keeps s id f live e = record {
    others = λ i g ne l. laws.xack_keeps_live s i id g ne l;
    rooms = λ k. omega (arith, laws.xack_room s id k);
    held = λ c h. xack-IsHeld laws codec now s id c h λ g l carries.
        absurd (
          unusable-Carries laws codec now id f c e (rw (laws.live_unique s id f g live l) carries));
  }

  reclaim_one-Keeps :
      (s : State) (r : ReclaimReport) (id : String) (f : Fields)
      → 0 < room s inbound
      → 0 < room s dead
      → IsLive s id f
      → Keeps laws codec now id s (reclaim_one redis codec now r id (decode codec id f) s).1
  unfolding reclaim_one
  reclaim_one-Keeps s r id f hi hd live = go (decode codec id f) refl
    where
      go :
          (d : Decoded)
          → decode codec id f ≡ d
          → Keeps laws codec now id s (reclaim_one redis codec now r id d s).1
      go crashed e = Keeps-refl laws codec now id s
      go unusable e =
          next-pure (Keeps laws codec now id s) (xack id s).0
            (record r { discarded = r.discarded + 1 }) (xack id s).1 (discard-Keeps s id f live e)
      go (queued q) e =
          let (carries, same) = decode-Carries laws codec now id f q e in
          let hand : InHand laws codec now s q = record {
            fields = f;
            live = rw same live;
            carries = carries;
          } in
          if_rule (λ (m : State → Reply ReclaimReport × State). Keeps laws codec now id s (m s).1)
            (is_last_attempt q)
            (next-pure (Keeps laws codec now id s)
              (dead_letter redis codec now q "attempts exhausted" s).0
              (record r { dead_lettered = r.dead_lettered + 1 })
              (dead_letter redis codec now q "attempts exhausted" s).1
              (subst
                (λ i.
                  Keeps laws codec now i s (dead_letter redis codec now q "attempts exhausted" s).1)
                same (dead_letter-Keeps laws codec now s q "attempts exhausted" hd hand)))
            (next-pure (Keeps laws codec now id s) (retry redis codec now q s).0
              (record r { retried = r.retried + 1 }) (retry redis codec now q s).1
              (subst (λ i. Keeps laws codec now i s (retry redis codec now q s).1) same
                (retry-Keeps laws codec now s q hi hand)))

  -- Entries in hand with distinct ids, and room for each of them in both streams.
  record Ready (s : State) (es : List (String × Fields)) : Type 0 where
    live : All (λ e. IsLive s e.0 e.1) es
    apart : Apart es
    rooms : (k : StreamName) → length es ≤ room s k

  still_live :
      (s s' : State) (id : String) (es : List (String × Fields))
      → Keeps laws codec now id s s'
      → All (λ e. e.0 ≢ id) es
      → All (λ e. IsLive s e.0 e.1) es
      → All (λ e. IsLive s' e.0 e.1) es
  still_live s s' id [] k a l = tt
  still_live s s' id ((i, f) ∷ es) k a l = (k.others i f a.0 l.0, still_live s s' id es k a.1 l.1)

  reclaim_all-IsHeld :
      (s : State) (r : ReclaimReport) (es : List (String × Fields)) (c : Claim)
      → Ready s es
      → IsHeld laws codec now c s
      → IsHeld laws codec now c (reclaim_all redis codec now r es s).1
  unfolding reclaim_all
  reclaim_all-IsHeld s r [] c ready h = h
  reclaim_all-IsHeld s r ((id, f) ∷ es) c ready h =
      let (m, s') = reclaim_one redis codec now r id (decode codec id f) s in
      let k =
        reclaim_one-Keeps s r id f (omega (arith, ready.rooms inbound))
          (omega (arith, ready.rooms dead)) ready.live.0 in
      elim (Reply-cases m) [
        | inl e ↦ rw e (k.held c h)
        | inr (r', e) ↦ rw e (
            reclaim_all-IsHeld s' r' es c
              (record {
                live = still_live s s' id es k ready.apart.0 ready.live.1;
                apart = ready.apart.1;
                rooms = λ n. omega (arith, ready.rooms n, k.rooms n);
              })
              (k.held c h))
      ]

  reclaim_all_room :
      (s : State) (r : ReclaimReport) (es : List (String × Fields)) (k : StreamName)
      → Ready s es
      → room s k ≤ room (reclaim_all redis codec now r es s).1 k + length es
  unfolding reclaim_all
  reclaim_all_room s r [] k ready = omega arith
  reclaim_all_room s r ((id, f) ∷ es) k ready =
      let (m, s') = reclaim_one redis codec now r id (decode codec id f) s in
      let moved =
        reclaim_one-Keeps s r id f (omega (arith, ready.rooms inbound))
          (omega (arith, ready.rooms dead)) ready.live.0 in
      elim (Reply-cases m) [
        | inl e ↦ rw e (omega (arith, moved.rooms k))
        | inr (r', e) ↦ rw e (
            omega (
              arith,
              moved.rooms k,
              reclaim_all_room s' r' es k (record {
                live = still_live s s' id es moved ready.apart.0 ready.live.1;
                apart = ready.apart.1;
                rooms = λ n. omega (arith, ready.rooms n, moved.rooms n);
              }),
            ))
      ]

  pub reclaim_stale_room :
      (s : State) (consumer : String) (min_idle_ms count : ℕ) (k : StreamName)
      → ((n : StreamName) → count ≤ room s n)
      → room s k ≤ room (reclaim_stale redis codec now consumer min_idle_ms count s).1 k + count
  unfolding reclaim_stale
  reclaim_stale_room s consumer min_idle_ms count k h =
      let (m, s') = xautoclaim consumer min_idle_ms count s in
      elim (Reply-cases m) [
        | inl e ↦ rw e (omega (arith, laws.xautoclaim_room s consumer min_idle_ms count k))
        | inr (es, e) ↦
            let (few, apart, live) = laws.xautoclaim_lem s consumer min_idle_ms count es e in
            rw e (
              omega (
                arith,
                few,
                laws.xautoclaim_room s consumer min_idle_ms count k,
                reclaim_all_room s' empty_report es k (record {
                  live = live;
                  apart = apart;
                  rooms =
                      λ n. omega (arith, h n, laws.xautoclaim_room s consumer min_idle_ms count n);
                }),
              ))
      ]

  -- A recovery pass loses no claim, whichever of its calls raise and however far it gets: while both
  -- streams have room for the entries that it takes back, every claim that waits unacknowledged or
  -- stands in the dead-letter stream still does after it.
  pub reclaim_stale-IsHeld :
      (s : State) (consumer : String) (min_idle_ms count : ℕ) (c : Claim)
      → ((k : StreamName) → count ≤ room s k)
      → IsHeld laws codec now c s
      → IsHeld laws codec now c (reclaim_stale redis codec now consumer min_idle_ms count s).1
  unfolding reclaim_stale
  reclaim_stale-IsHeld s consumer min_idle_ms count c h held =
      let (m, s') = xautoclaim consumer min_idle_ms count s in
      elim (Reply-cases m) [
        | inl e ↦ rw e (claimed held)
        | inr (es, e) ↦
            let (few, apart, live) = laws.xautoclaim_lem s consumer min_idle_ms count es e in
            rw e (
              reclaim_all-IsHeld s' empty_report es c
                (record {
                  live = live;
                  apart = apart;
                  rooms =
                      λ k. omega (arith, h k, laws.xautoclaim_room s consumer min_idle_ms count k);
                })
                (claimed held))
      ]
    where
      claimed :
          IsHeld laws codec now c s
          → IsHeld laws codec now c (xautoclaim consumer min_idle_ms count s).1
      claimed (inl (i, f, l, carries)) =
          inl (i, f, laws.xautoclaim_keeps_live s consumer min_idle_ms count i f l, carries)
      claimed (inr (f, d, carries)) =
          inr (f, laws.xautoclaim_keeps_dead s consumer min_idle_ms count f d, carries)
