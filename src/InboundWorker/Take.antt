-- ===== src/InboundWorker/Take.antt =====
-- What `consume` of backend/app/services/inbound_queue.py gives the inbound worker.
use realty_lead_ai_agent.Common.{
  ℕ, ◌≤◌, String, ◌≡◌, ◌≢◌, refl, ◌⊎◌, inl, inr, List, [], ◌∷◌, arith, length, All,
}
use realty_lead_ai_agent.RateLimit.Store.{Reply, ok, raised}
use realty_lead_ai_agent.InboundQueue.Redis.{StreamName, Fields, Codec, Streams, IsStreams, Apart}
use realty_lead_ai_agent.InboundQueue.{
  QueuedClaim, Decoded, queued, unusable, crashed, decode, flatten,
}
use realty_lead_ai_agent.InboundQueue.Held.{InHand, decode-Carries}

module _ {redis : Streams} (laws : IsStreams redis) (codec : Codec) (now : ℕ) where
  open redis use {xreadgroup, xgroup_create}
  open laws use {IsLive, room}

  flatten-nil : (qs : List QueuedClaim) → flatten codec [] ≡ ok qs → qs ≡ []
  unfolding flatten
  flatten-nil qs h = ground (arith, h)

  -- The entries that decode, among those read.
  flatten-step :
      (id : String) (f : Fields) (es : List (String × Fields)) (qs : List QueuedClaim)
      → flatten codec ((id, f) ∷ es) ≡ ok qs
      → (flatten codec es ≡ ok qs)
        ⊎ ((q : QueuedClaim) × (rest : List QueuedClaim) × (decode codec id f ≡ queued q)
            × (flatten codec es ≡ ok rest)
            × (qs ≡ q ∷ rest))
  unfolding flatten
  flatten-step id f es qs h = go (decode codec id f) refl (flatten codec es) refl
    where
      go :
          (d : Decoded)
          → decode codec id f ≡ d
          → (r : Reply (List QueuedClaim)) → flatten codec es ≡ r
          → (flatten codec es ≡ ok qs)
            ⊎ ((q : QueuedClaim) × (rest : List QueuedClaim) × (decode codec id f ≡ queued q)
                × (flatten codec es ≡ ok rest)
                × (qs ≡ q ∷ rest))
      go crashed e r k = ground (arith, h, e)
      go unusable e r k = inl (ground (arith, h, e))
      go (queued q) e raised k = ground (arith, h, e, k)
      go (queued q) e (ok rest) k = inr (q, rest, e, k, ground (arith, h, e, k))

  abbrev pub ApartIds : List QueuedClaim → Type 0
  ApartIds [] = Unit
  ApartIds (q ∷ qs) = All (λ p. p.entry_id ≢ q.entry_id) qs × ApartIds qs

  flatten-apart :
      (i : String) (es : List (String × Fields)) (qs : List QueuedClaim)
      → flatten codec es ≡ ok qs
      → All (λ (e : String × Fields). e.0 ≢ i) es
      → All (λ q. q.entry_id ≢ i) qs
  flatten-apart i [] qs h a = rw (flatten-nil qs h) tt
  flatten-apart i ((id, f) ∷ es) qs h a = elim (flatten-step id f es qs h) [
    | inl e ↦ flatten-apart i es qs e a.1
    | inr (q, rest, d, e, p) ↦
        let (carries, same) = decode-Carries laws codec now id f q d in
        rw p (rw same a.0, flatten-apart i es rest e a.1)
  ]

  -- Entries in hand with distinct ids, and a place for each of them in both streams.
  pub record Ready (s : redis.State) (qs : List QueuedClaim) : Type 0 where
    pub hands : All (InHand laws codec now s) qs
    pub apart : ApartIds qs
    pub rooms : (k : StreamName) → length qs ≤ room s k

  flatten-hands :
      (s : redis.State) (es : List (String × Fields)) (qs : List QueuedClaim)
      → flatten codec es ≡ ok qs
      → All (λ (e : String × Fields). IsLive s e.0 e.1) es
      → All (InHand laws codec now s) qs
  flatten-hands s [] qs h l = rw (flatten-nil qs h) tt
  flatten-hands s ((id, f) ∷ es) qs h l = elim (flatten-step id f es qs h) [
    | inl e ↦ flatten-hands s es qs e l.1
    | inr (q, rest, d, e, p) ↦
        let (carries, same) = decode-Carries laws codec now id f q d in
        rw p (
          record { fields = f; live = rw same l.0; carries = carries },
          flatten-hands s es rest e l.1,
        )
  ]

  flatten-ApartIds :
      (es : List (String × Fields)) (qs : List QueuedClaim)
      → flatten codec es ≡ ok qs
      → Apart es
      → ApartIds qs
  flatten-ApartIds [] qs h a = rw (flatten-nil qs h) tt
  flatten-ApartIds ((id, f) ∷ es) qs h a = elim (flatten-step id f es qs h) [
    | inl e ↦ flatten-ApartIds es qs e a.1
    | inr (q, rest, d, e, p) ↦
        let (carries, same) = decode-Carries laws codec now id f q d in
        rw p (rw same (flatten-apart id es rest e a.0), flatten-ApartIds es rest e a.1)
  ]

  length-flatten :
      (es : List (String × Fields)) (qs : List QueuedClaim)
      → flatten codec es ≡ ok qs
      → length qs ≤ length es
  length-flatten [] qs h = rw (flatten-nil qs h) (omega arith)
  length-flatten ((id, f) ∷ es) qs h = elim (flatten-step id f es qs h) [
    | inl e ↦ omega (arith, length-flatten es qs e)
    | inr (q, rest, d, e, p) ↦ rw p (omega (arith, length-flatten es rest e))
  ]

  -- The entries of a batch that was read are ready.
  pub taken-Ready :
      (s : redis.State) (consumer : String) (count block_ms : ℕ) (es : List (String × Fields))
      (qs : List QueuedClaim)
      → ((k : StreamName) → count ≤ room s k)
      → (xreadgroup consumer count block_ms s).0 ≡ ok es
      → flatten codec es ≡ ok qs
      → Ready (xreadgroup consumer count block_ms s).1 qs
  taken-Ready s consumer count block_ms es qs h e f =
      let (few, apart, live) = laws.xreadgroup_lem s consumer count block_ms es e in
      record {
        hands = flatten-hands (xreadgroup consumer count block_ms s).1 es qs f live;
        apart = flatten-ApartIds es qs f apart;
        rooms = λ k. omega (
          arith,
          few,
          h k,
          length-flatten es qs f,
          laws.xreadgroup_room s consumer count block_ms k,
        );
      }
