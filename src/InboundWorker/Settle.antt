-- ===== src/InboundWorker/Settle.antt =====
-- What `handle` of backend/app/workers/inbound_worker.py does to the queue.
use text.Mathlib.Text.{◌==◌ as str_eq}
use realty_lead_ai_agent.Common.{
  ℕ, suc, ◌≤◌, ◌<◌, String, ◌≡◌, ◌≢◌, refl, subst, ◌⊎◌, inl, inr, arith, eq_iff, Bool-cases,
  if_rule,
}
use realty_lead_ai_agent.RateLimit.Store.{Reply, ok, raised}
use realty_lead_ai_agent.InboundQueue.Redis.{
  StreamName, dead, Fields, Claim, Codec, Streams, IsStreams,
}
use realty_lead_ai_agent.InboundQueue.{QueuedClaim, ack, is_last_attempt}
use realty_lead_ai_agent.InboundQueue.Held.{IsHeld, InHand, Keeps, Keeps-refl, dead_letter-Keeps}
use realty_lead_ai_agent.Turn.{TurnOutcome, Env, run_claim}
use realty_lead_ai_agent.InboundWorker.{State, settle, handle}
use realty_lead_ai_agent.InboundWorker.Turns.{IsDone}

module _ {redis : Streams} (laws : IsStreams redis) (codec : Codec) (now : ℕ) (env : Env) where
  open redis use {xack}
  open laws use {IsLive, room}

  -- What handling the entry `id` leaves as it was, whose turn came to `o`: the other entries, all but
  -- one place of each stream, and every claim but its own, if that turn is done.
  pub record Moves (id : String) (d : Claim) (o : Reply TurnOutcome) (s s' : redis.State)
      : Type 0 where
    pub others : (i : String) (g : Fields) → i ≢ id → IsLive s i g → IsLive s' i g
    pub rooms : (k : StreamName) → room s k ≤ suc (room s' k)
    pub held :
        (c : Claim) → IsHeld laws codec now c s → IsHeld laws codec now c s' ⊎ ((d ≡ c) × IsDone o)

  Keeps-Moves :
      (id : String) (d : Claim) (o : Reply TurnOutcome) (s s' : redis.State)
      → Keeps laws codec now id s s'
      → Moves id d o s s'
  Keeps-Moves id d o s s' k = record {
    others = k.others;
    rooms = k.rooms;
    held = λ c h. inl (k.held c h);
  }

  ack-Moves :
      (s : redis.State) (q : QueuedClaim) (o : Reply TurnOutcome)
      → InHand laws codec now s q
      → IsDone o
      → Moves q.entry_id q.claim o s (ack redis codec now q s).1
  unfolding ack
  ack-Moves s q o hand answered = record {
    others = λ i g ne l. laws.xack_keeps_live s i q.entry_id g ne l;
    rooms = λ k. omega (arith, laws.xack_room s q.entry_id k);
    held = go;
  }
    where
      go :
          (c : Claim)
          → IsHeld laws codec now c s
          → IsHeld laws codec now c (xack q.entry_id s).1 ⊎ ((q.claim ≡ c) × IsDone o)
      go c (inr (f, d, carries)) = inl (inr (f, laws.xack_keeps_dead s q.entry_id f d, carries))
      go c (inl (i, f, l, carries)) = elim (Bool-cases (str_eq i q.entry_id)) [
        | inr e ↦ inl (
            inl (
              i,
              f,
              laws.xack_keeps_live s i q.entry_id f (λ p. cc (e, (eq_iff i q.entry_id).1 p)) l,
              carries,
            ))
        | inl e ↦
            let same : f ≡ hand.fields =
              laws.live_unique s q.entry_id f hand.fields
                (subst (λ x. IsLive s x f) ((eq_iff i q.entry_id).0 e) l) hand.live in
            let one : q.claim ≡ c = ground (arith, same, hand.carries, carries) in
            inr (one, answered)
      ]

  settle-Moves :
      (w : State redis codec now env) (q : QueuedClaim) (o : Reply TurnOutcome)
      → 0 < room w.queue dead
      → InHand laws codec now w.queue q
      → Moves q.entry_id q.claim o w.queue (settle redis codec now env q o w).1.queue
  unfolding settle
  settle-Moves w q raised h hand =
      Keeps-Moves q.entry_id q.claim raised w.queue w.queue
        (Keeps-refl laws codec now q.entry_id w.queue)
  settle-Moves w q (ok TurnOutcome.completed) h hand = ack-Moves w.queue q _ hand (inl refl)
  settle-Moves w q (ok TurnOutcome.rate_limited) h hand = ack-Moves w.queue q _ hand (inr refl)
  settle-Moves w q (ok TurnOutcome.not_configured) h hand =
      Keeps-Moves q.entry_id q.claim _ w.queue _
        (dead_letter-Keeps laws codec now w.queue q _ h hand)
  settle-Moves w q (ok TurnOutcome.failed) h hand =
      if_rule
        (λ (r : Reply (Unit {0}) × State redis codec now env).
          Moves q.entry_id q.claim (ok TurnOutcome.failed) w.queue r.1.queue)
        (is_last_attempt q)
        (Keeps-Moves q.entry_id q.claim _ w.queue _
          (dead_letter-Keeps laws codec now w.queue q _ h hand))
        (Keeps-Moves q.entry_id q.claim _ w.queue w.queue
          (Keeps-refl laws codec now q.entry_id w.queue))

  pub handle-Moves :
      (w : State redis codec now env) (q : QueuedClaim)
      → 0 < room w.queue dead
      → InHand laws codec now w.queue q
      → Moves q.entry_id q.claim
          (run_claim env q.claim w.turn).0
          w.queue
          (handle redis codec now env q w).1.queue
  unfolding handle
  handle-Moves w q h hand =
      settle-Moves (record w { turn = (run_claim env q.claim w.turn).1 }) q
        (run_claim env q.claim w.turn).0 h hand
