-- ===== src/InboundWorker/Pass.antt =====
-- What `run_once` of backend/app/workers/inbound_worker.py does to the claims of the queue.
use realty_lead_ai_agent.Common.{
  ℕ, ◌+◌, ◌*◌, ◌≤◌, String, ◌≢◌, ◌⊎◌, inl, inr, Bool, List, [], ◌∷◌, arith, min, All, Bool-cases,
  some,
}
use realty_lead_ai_agent.RateLimit.Store.{Reply, ok, raised, Reply-cases}
use realty_lead_ai_agent.InboundQueue.Redis.{StreamName, dead, Claim, Codec, Streams, IsStreams}
use realty_lead_ai_agent.InboundQueue.{
  QueuedClaim, flatten, consume, max_block_ms, reclaim_stale, ensure_group, group_reply,
}
use realty_lead_ai_agent.InboundQueue.Held.{IsHeld, InHand}
use realty_lead_ai_agent.InboundQueue.Reclaim.{reclaim_stale-IsHeld, reclaim_stale_room}
use realty_lead_ai_agent.Turn.{Env, TurnOutcome, run_claim}
use realty_lead_ai_agent.InboundWorker.{
  State, empty_report, after_ensure, after_reclaim, on_queue, handle, handle_all, drain, run_once,
}
use realty_lead_ai_agent.InboundWorker.Turns.{
  Turns, IsAnswered, turns_all, turns_drained, turns_reclaimed, turns_ensured, turns_of_pass,
}
use realty_lead_ai_agent.InboundWorker.Settle.{Moves, handle-Moves}
use realty_lead_ai_agent.InboundWorker.Take.{Ready, taken-Ready}

module _ {redis : Streams} (laws : IsStreams redis) (codec : Codec) (now : ℕ) (env : Env) where
  open redis use {xreadgroup, xgroup_create}
  open laws use {IsLive, room}

  -- The claim is still held, or one of the turns answered it.
  abbrev pub IsSafe : Claim → redis.State → Turns → Type 0
  IsSafe c s turns = IsHeld laws codec now c s ⊎ IsAnswered c turns

  later :
      (c : Claim) (s : redis.State) (turns : Turns) (d : Claim) (o : Reply TurnOutcome)
      → IsSafe c s turns
      → IsSafe c s ((d, o) ∷ turns)
  later c s turns d o (inl h) = inl h
  later c s turns d o (inr a) = inr (inr a)

  still-InHand :
      (s s' : redis.State) (id : String) (d : Claim) (o : Reply TurnOutcome) (qs : List QueuedClaim)
      → Moves laws codec now env id d o s s'
      → All (λ q. q.entry_id ≢ id) qs
      → All (InHand laws codec now s) qs
      → All (InHand laws codec now s') qs
  still-InHand s s' id d o [] m a h = tt
  still-InHand s s' id d o (q ∷ qs) m a h = (
    record {
      fields = h.0.fields;
      live = m.others q.entry_id h.0.fields a.0 h.0.live;
      carries = h.0.carries;
    },
    still-InHand s s' id d o qs m a.1 h.1,
  )

  handle_all-IsSafe :
      (w : State redis codec now env) (qs : List QueuedClaim) (c : Claim)
      → Ready laws codec now w.queue qs
      → IsHeld laws codec now c w.queue
      → IsSafe c (handle_all redis codec now env qs w).1.queue (turns_all redis codec now env qs w)
  unfolding handle_all turns_all
  handle_all-IsSafe w [] c ready h = inl h
  handle_all-IsSafe w (q ∷ qs) c ready h =
      let (r, w') = handle redis codec now env q w in
      let m = handle-Moves laws codec now env w q (omega (arith, ready.rooms dead)) ready.hands.0 in
      elim (m.held c h) [
        | inr a ↦ inr (inl a)
        | inl k ↦ elim (Reply-cases r) [
          | inl e ↦ rw (e, handle_all, turns_all) (inl k)
          | inr (u, e) ↦
              rw (e, handle_all, turns_all)
                (later c _ _ q.claim (run_claim env q.claim w.turn).0 (
                  handle_all-IsSafe w' qs c
                    (record {
                      hands =
                          still-InHand w.queue w'.queue q.entry_id q.claim _ qs m ready.apart.0
                            ready.hands.1;
                      apart = ready.apart.1;
                      rooms = λ n. omega (arith, ready.rooms n, m.rooms n);
                    })
                    k))
        ]
      ]

  read-IsHeld :
      (s : redis.State) (consumer : String) (count block_ms : ℕ) (c : Claim)
      → IsHeld laws codec now c s
      → IsHeld laws codec now c (xreadgroup consumer count block_ms s).1
  read-IsHeld s consumer count block_ms c (inl (i, f, l, carries)) =
      inl (i, f, laws.xreadgroup_keeps_live s consumer count block_ms i f l, carries)
  read-IsHeld s consumer count block_ms c (inr (f, d, carries)) =
      inr (f, laws.xreadgroup_keeps_dead s consumer count block_ms f d, carries)

  drain-IsSafe :
      (w : State redis codec now env) (consumer : String) (count block_ms : ℕ) (c : Claim)
      → ((k : StreamName) → count ≤ room w.queue k)
      → IsHeld laws codec now c w.queue
      → IsSafe c
          (drain redis codec now env consumer count block_ms w).1.queue
          (turns_drained redis codec now env consumer count block_ms w)
  unfolding drain consume turns_drained
  drain-IsSafe w consumer count block_ms c h held =
      let b = min block_ms max_block_ms in
      let kept = read-IsHeld w.queue consumer count b c held in
      elim (Reply-cases (xreadgroup consumer count b w.queue).0) [
        | inl e ↦ rw e (inl kept)
        | inr (es, e) ↦ elim (Reply-cases (flatten codec es)) [
          | inl f ↦ rw (e, f) (inl kept)
          | inr (qs, f) ↦
              rw (e, f)
                (handle_all-IsSafe (record w { queue = (xreadgroup consumer count b w.queue).1 }) qs
                  c (taken-Ready laws codec now w.queue consumer count b es qs h e f) kept)
        ]
      ]

  created-IsHeld :
      (s : redis.State) (c : Claim)
      → IsHeld laws codec now c s
      → IsHeld laws codec now c (xgroup_create s).1
  created-IsHeld s c (inl (i, f, l, carries)) =
      inl (i, f, laws.xgroup_create_keeps_live s i f l, carries)
  created-IsHeld s c (inr (f, d, carries)) = inr (f, laws.xgroup_create_keeps_dead s f d, carries)

  module _ (consumer : String) (batch_size block_ms : ℕ) (reclaim : Bool) (c : Claim)
      (w : State redis codec now env)
      (h : (k : StreamName) → batch_size + batch_size ≤ room w.queue k)
      (held : IsHeld laws codec now c w.queue) where
    abbrev idle : ℕ
    idle = env.settings.inbound_retry_after_seconds * 1000

    recovered-IsSafe :
        IsSafe c
          (after_reclaim redis codec now env consumer batch_size block_ms (
            on_queue redis codec now env
              (reclaim_stale redis codec now consumer idle batch_size)
              w)).1.queue
          (turns_reclaimed redis codec now env consumer batch_size block_ms (
            on_queue redis codec now env
              (reclaim_stale redis codec now consumer idle batch_size)
              w))
    recovered-IsSafe =
        let (m, s) = reclaim_stale redis codec now consumer idle batch_size w.queue in
        let fits : (k : StreamName) → batch_size ≤ room w.queue k = λ k. omega (arith, h k) in
        let kept =
          reclaim_stale-IsHeld laws codec now w.queue consumer idle batch_size c fits held in
        elim (Reply-cases m) [
          | inl e ↦ rw e (inl kept)
          | inr (r, e) ↦ rw e (
              drain-IsSafe (record w { queue = s; report = record w.report { reclaimed = some r } })
                consumer batch_size block_ms c
                (λ k. omega (
                  arith,
                  h k,
                  reclaim_stale_room laws codec now w.queue consumer idle batch_size k fits,
                ))
                kept)
        ]

    ensured-IsSafe :
        (r : Reply (Unit {0}))
        → IsSafe c
            (after_ensure redis codec now env consumer batch_size block_ms reclaim (r, w)).1.queue
            (turns_ensured redis codec now env consumer batch_size block_ms reclaim (r, w))
    ensured-IsSafe raised = inl held
    ensured-IsSafe (ok u) = elim (Bool-cases reclaim) [
      | inl e ↦ rw e recovered-IsSafe
      | inr e ↦ rw e (drain-IsSafe w consumer batch_size block_ms c (λ k. omega (arith, h k)) held)
    ]

  -- A pass loses no claim, whichever call raises and wherever it stops: while both streams have room
  -- for twice the batch, every claim that waits unacknowledged or stands in the dead-letter stream
  -- still does after it, unless one of the turns that this pass ran was for it, and was completed or
  -- refused by its lead's rate limit.
  pub run_once-IsSafe :
      (w : State redis codec now env) (consumer : String) (batch_size block_ms : ℕ) (reclaim : Bool)
      (c : Claim)
      → ((k : StreamName) → batch_size + batch_size ≤ room w.queue k)
      → IsHeld laws codec now c w.queue
      → IsSafe c
          (run_once redis codec now env consumer batch_size block_ms reclaim w).1.queue
          (turns_of_pass redis codec now env consumer batch_size block_ms reclaim w)
  unfolding run_once ensure_group turns_of_pass
  run_once-IsSafe w consumer batch_size block_ms reclaim c h held =
      ensured-IsSafe consumer batch_size block_ms reclaim c
        (record { queue = (xgroup_create w.queue).1; turn = w.turn; report = empty_report })
        (λ k. omega (arith, h k, laws.xgroup_create_room w.queue k)) (created-IsHeld w.queue c held)
        (group_reply redis codec now (xgroup_create w.queue).0)
