-- ===== src/InboundQueue/Held.antt =====
-- The claims that the queue holds, over `dead_letter` and a retry of
-- backend/app/services/inbound_queue.py.
use text.Mathlib.Text.{◌==◌ as str_eq}
use realty_lead_ai_agent.Common.{
  ℕ, suc, ◌≤◌, ◌<◌, String, ◌≡◌, ◌≢◌, sym, subst, ◌⊎◌, inl, inr, Option, some, arith, eq_iff,
  Bool-cases,
}
use realty_lead_ai_agent.RateLimit.Store.{Reply-cases}
use realty_lead_ai_agent.InboundQueue.Redis.{
  StreamName, inbound, dead, Fields, Claim, Codec, Streams, IsStreams,
}
use realty_lead_ai_agent.InboundQueue.{
  QueuedClaim, queued, unusable, encode, load_claim, decode, dead_fields, retry_fields, dead_letter,
  retry, max_stream_length,
}

module _ {redis : Streams} (laws : IsStreams redis) (codec : Codec) (now : ℕ) where
  open redis use {State, xadd, xack, xautoclaim}
  open laws use {IsLive, IsDead, room}

  -- The fields carry the claim.
  abbrev pub Carries : Fields → Claim → Type 0
  Carries f c = load_claim codec f.claim ≡ some c

  -- The claim waits in the inbound stream, not acknowledged, or stands in the dead-letter stream.
  abbrev pub IsHeld : Claim → State → Type 0
  IsHeld c s =
      ((i : String) × (f : Fields) × IsLive s i f × Carries f c)
      ⊎ ((f : Fields) × IsDead s f × Carries f c)

  pub encode-Carries :
      (c : Claim) (n : ℕ) (at : Option String) → Carries (encode codec now c n at) c
  unfolding encode
  encode-Carries c n at = codec.loads-dumps c

  pub dead_fields-Carries :
      (q : QueuedClaim) (r : String) → Carries (dead_fields redis codec now q r) q.claim
  unfolding encode
  dead_fields-Carries q r = codec.loads-dumps q.claim

  pub xadd-IsHeld :
      (s : State) (n : StreamName) (f : Fields) (m : ℕ) (c : Claim)
      → 0 < room s n
      → IsHeld c s
      → IsHeld c (xadd n f m s).1
  xadd-IsHeld s n f m c h (inl (i, g, live, carries)) =
      inl (i, g, laws.xadd_keeps_live s n f g m i h live, carries)
  xadd-IsHeld s n f m c h (inr (g, lost, carries)) =
      inr (g, laws.xadd_keeps_dead s n f g m h lost, carries)

  -- Acknowledging an entry keeps a claim held that another entry carries, or that is dead.
  pub xack-IsHeld :
      (s : State) (j : String) (c : Claim)
      → IsHeld c s
      → ((g : Fields) → IsLive s j g → Carries g c → IsHeld c (xack j s).1)
      → IsHeld c (xack j s).1
  xack-IsHeld s j c (inr (g, lost, carries)) k = inr (g, laws.xack_keeps_dead s j g lost, carries)
  xack-IsHeld s j c (inl (i, g, live, carries)) k = elim (Bool-cases (str_eq i j)) [
    | inl e ↦ k g (subst (λ x. IsLive s x g) ((eq_iff i j).0 e) live) carries
    | inr e ↦ inl (i, g, laws.xack_keeps_live s i j g (λ p. cc (e, (eq_iff i j).1 p)) live, carries)
  ]

  pub decode-Carries :
      (id : String) (f : Fields) (q : QueuedClaim)
      → decode codec id f ≡ queued q
      → Carries f q.claim × (q.entry_id ≡ id)
  unfolding decode
  decode-Carries id f q h = ground arith

  pub unusable-Carries :
      (id : String) (f : Fields) (c : Claim) → decode codec id f ≡ unusable → ¬ Carries f c
  unfolding decode
  unusable-Carries id f c h k = ground arith

  -- An entry in hand: it is live under the id of `q`, and carries its claim.
  pub record InHand (s : State) (q : QueuedClaim) : Type 0 where
    pub fields : Fields
    pub live : IsLive s q.entry_id fields
    pub carries : Carries fields q.claim

  -- Another copy of the claim lets go of the entry safely.
  pub release-IsHeld :
      (s : State) (q : QueuedClaim) (c : Claim)
      → InHand s q
      → IsHeld c s
      → IsHeld q.claim (xack q.entry_id s).1
      → IsHeld c (xack q.entry_id s).1
  release-IsHeld s q c hand held copy = xack-IsHeld s q.entry_id c held λ g live carries.
      let same : g ≡ hand.fields = laws.live_unique s q.entry_id g hand.fields live hand.live in
      let one : q.claim ≡ c = ground (arith, same, hand.carries, carries) in
      subst (λ x. IsHeld x (xack q.entry_id s).1) one copy

  pub dead_letter-IsHeld :
      (s : State) (q : QueuedClaim) (r : String) (c : Claim)
      → 0 < room s dead
      → InHand s q
      → IsHeld c s
      → IsHeld c (dead_letter redis codec now q r s).1
  unfolding dead_letter
  dead_letter-IsHeld s q r c h hand held =
      let f = dead_fields redis codec now q r in
      let s1 = (xadd dead f max_stream_length s).1 in
      let kept = xadd-IsHeld s dead f max_stream_length c h held in
      elim (Reply-cases (xadd dead f max_stream_length s).0) [
        | inl e ↦ rw e kept
        | inr (i, e) ↦
            let hand1 : InHand s1 q = record {
              fields = hand.fields;
              live =
                  laws.xadd_keeps_live s dead f hand.fields max_stream_length q.entry_id h
                    hand.live;
              carries = hand.carries;
            } in
            rw e (
              release-IsHeld s1 q c hand1 kept (
                inr (
                  f,
                  laws.xack_keeps_dead s1 q.entry_id f (laws.xadd_dead s f max_stream_length i e),
                  dead_fields-Carries q r,
                )))
      ]

  retry-IsHeld :
      (s : State) (q : QueuedClaim) (c : Claim)
      → 0 < room s inbound
      → InHand s q
      → IsHeld c s
      → IsHeld c (retry redis codec now q s).1
  unfolding retry
  retry-IsHeld s q c h hand held =
      let f = retry_fields redis codec now q in
      let s1 = (xadd inbound f max_stream_length s).1 in
      let kept = xadd-IsHeld s inbound f max_stream_length c h held in
      elim (Reply-cases (xadd inbound f max_stream_length s).0) [
        | inl e ↦ rw e kept
        | inr (i, e) ↦
            let hand1 : InHand s1 q = record {
              fields = hand.fields;
              live =
                  laws.xadd_keeps_live s inbound f hand.fields max_stream_length q.entry_id h
                    hand.live;
              carries = hand.carries;
            } in
            let other : i ≢ q.entry_id = λ p.
              laws.xadd_fresh s inbound f hand.fields max_stream_length i e
                (subst (λ x. IsLive s x hand.fields) (sym p) hand.live) in
            rw e (
              release-IsHeld s1 q c hand1 kept (
                inl (
                  i,
                  f,
                  laws.xack_keeps_live s1 i q.entry_id f other
                      (laws.xadd_live s f max_stream_length i e),
                  encode-Carries q.claim _ _,
                )))
      ]

  -- What an operation on the entry `id` leaves as it was: the other entries, all but one place of
  -- each stream, and every claim held.
  pub record Keeps (id : String) (s s' : State) : Type 0 where
    pub others : (i : String) (g : Fields) → i ≢ id → IsLive s i g → IsLive s' i g
    pub rooms : (k : StreamName) → room s k ≤ suc (room s' k)
    pub held : (c : Claim) → IsHeld c s → IsHeld c s'

  pub Keeps-refl : (id : String) (s : State) → Keeps id s s
  Keeps-refl id s = record { others = λ i g n l. l; rooms = λ k. omega arith; held = λ c h. h }

  -- XADD to a stream, then XACK of the entry.
  module _ (s : State) (n : StreamName) (f : Fields) (id : String) (h : 0 < room s n) where
    added_others :
        (i : String) (g : Fields)
        → i ≢ id
        → IsLive s i g
        → IsLive (xack id (xadd n f max_stream_length s).1).1 i g
    added_others i g ne l =
        laws.xack_keeps_live (xadd n f max_stream_length s).1 i id g ne
          (laws.xadd_keeps_live s n f g max_stream_length i h l)

    added_rooms :
        (k : StreamName) → room s k ≤ suc (room (xack id (xadd n f max_stream_length s).1).1 k)
    added_rooms k = omega (
      arith,
      laws.xadd_room s n k f max_stream_length,
      laws.xack_room (xadd n f max_stream_length s).1 id k,
    )

  pub dead_letter-Keeps :
      (s : State) (q : QueuedClaim) (r : String)
      → 0 < room s dead
      → InHand s q
      → Keeps q.entry_id s (dead_letter redis codec now q r s).1
  unfolding dead_letter
  dead_letter-Keeps s q r h hand = record {
    others = λ i g ne l.
        let f = dead_fields redis codec now q r in
        elim (Reply-cases (xadd dead f max_stream_length s).0) [
          | inl e ↦ rw e (laws.xadd_keeps_live s dead f g max_stream_length i h l)
          | inr (j, e) ↦ rw e (added_others s dead f q.entry_id h i g ne l)
        ];
    rooms = λ k.
        let f = dead_fields redis codec now q r in
        elim (Reply-cases (xadd dead f max_stream_length s).0) [
          | inl e ↦ rw e (laws.xadd_room s dead k f max_stream_length)
          | inr (j, e) ↦ rw e (added_rooms s dead f q.entry_id h k)
        ];
    held = λ c. dead_letter-IsHeld s q r c h hand;
  }

  pub retry-Keeps :
      (s : State) (q : QueuedClaim)
      → 0 < room s inbound
      → InHand s q
      → Keeps q.entry_id s (retry redis codec now q s).1
  unfolding retry
  retry-Keeps s q h hand = record {
    others = λ i g ne l.
        let f = retry_fields redis codec now q in
        elim (Reply-cases (xadd inbound f max_stream_length s).0) [
          | inl e ↦ rw e (laws.xadd_keeps_live s inbound f g max_stream_length i h l)
          | inr (j, e) ↦ rw e (added_others s inbound f q.entry_id h i g ne l)
        ];
    rooms = λ k.
        let f = retry_fields redis codec now q in
        elim (Reply-cases (xadd inbound f max_stream_length s).0) [
          | inl e ↦ rw e (laws.xadd_room s inbound k f max_stream_length)
          | inr (j, e) ↦ rw e (added_rooms s inbound f q.entry_id h k)
        ];
    held = λ c. retry-IsHeld s q c h hand;
  }
