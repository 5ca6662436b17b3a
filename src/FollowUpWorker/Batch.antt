-- ===== src/FollowUpWorker/Batch.antt =====
-- The queue of nudges, over `run_once` of backend/app/workers/followup_worker.py.
use realty_lead_ai_agent.Common.{
  ℕ, suc, ◌+◌, ◌≤◌, ◌<◌, ◌≡◌, ◌≢◌, refl, Bool, true, Option, none, some, List, [], ◌∷◌, ◌++◌, arith,
  All, inl, inr, Bool-cases, String, ◌==◌, if◌then◌else◌, All-append, if_rule,
}
use realty_lead_ai_agent.Models.Enums.{Channel, FollowUpStatus}
use realty_lead_ai_agent.Models.Rows.{Lead, Agent, FollowUpTask}
use realty_lead_ai_agent.Models.Settings.{Settings}
use realty_lead_ai_agent.Models.Db.{Db, find, update_where, save_task}
use realty_lead_ai_agent.Channels.{Adapter, DeliveryResult}
use realty_lead_ai_agent.Templates.Table.{MessageTemplate}
use realty_lead_ai_agent.Zones.{ZoneDb}
use realty_lead_ai_agent.RateLimit.Store.{Reply}
use realty_lead_ai_agent.FollowUps.{
  SkipReason, is_pending, schedule_next, schedule_at, cancel_pending, check_eligibility,
  next_attempt_time, baseline_of, skip_text,
}
use realty_lead_ai_agent.FollowUps.Queue.{pending, pending_in, pending-schedule_next}
use realty_lead_ai_agent.Templates.Text.{truncate}
use realty_lead_ai_agent.FollowUpWorker.{
  Env, Pass, refuse, defer, no_template, rejected, accepted, no_channel, process_loaded,
  process_one, run_once, record_outbound, conversation_for, refused_status, is_reply, sent_task,
  nudged,
}
use realty_lead_ai_agent.FollowUpWorker.Cases.{
  IsLoaded, process_loaded_cases, send_nudge_cases, process_one_cases, run_once_invariant,
}

-- No two tasks share an id, and every id is below the next fresh one.
abbrev pub Distinct : ℕ → List FollowUpTask → Type 0
Distinct n [] = Unit
Distinct n (t ∷ ts) = (t.id < n) × All (λ u. u.id ≢ t.id) ts × Distinct n ts

-- The queue is sound: ids are distinct and no lead has more than one nudge scheduled.
pub record IsQueue (db : Db) : Type 0 where
  pub distinct : Distinct db.next_id db.tasks
  pub at_most_one : (k : ℕ) → pending k db ≤ 1

-- Rewriting the one row of an id by a row of that id.
module _ (new : FollowUpTask) where
  abbrev put : List FollowUpTask → List FollowUpTask
  put ts = update_where (λ t. t.id == new.id) (λ _. new) ts

  put-apart :
      (i : ℕ) (ts : List FollowUpTask) → All (λ u. u.id ≢ i) ts → All (λ u. u.id ≢ i) (put ts)
  unfolding update_where
  put-apart i [] h = tt
  put-apart i (t ∷ ts) h = (ground arith, put-apart i ts h.1)

  put-Distinct : (n : ℕ) (ts : List FollowUpTask) → Distinct n ts → Distinct n (put ts)
  unfolding update_where
  put-Distinct n [] h = tt
  put-Distinct n (t ∷ ts) (lo, apart, rest) = elim (Bool-cases (t.id == new.id)) [
    | inr e ↦ rw e (lo, put-apart t.id ts apart, put-Distinct n ts rest)
    | inl e ↦
        let same : t.id ≡ new.id = ground arith in
        rw e (ground arith, rw (← same) (put-apart t.id ts apart), put-Distinct n ts rest)
  ]

  -- Where the id does not occur nothing changes.
  put-absent : (ts : List FollowUpTask) → All (λ u. u.id ≢ new.id) ts → put ts ≡ ts
  unfolding update_where
  put-absent [] h = refl
  put-absent (t ∷ ts) h = ground (arith, put-absent ts h.1)

  -- The count for a lead changes by what the new row counts instead of the old.
  pending_in-put :
      (k n : ℕ) (ts : List FollowUpTask) (old : FollowUpTask)
      → Distinct n ts
      → find (λ t. t.id == new.id) ts ≡ some old
      → pending_in k (put ts) + (if is_pending k old then 1 else 0)
        ≡ pending_in k ts + (if is_pending k new then 1 else 0)
  unfolding update_where find
  pending_in-put k n [] old d f = cc
  pending_in-put k n (t ∷ ts) old (lo, apart, rest) f = elim (Bool-cases (t.id == new.id)) [
    | inr e ↦ ground (arith, pending_in-put k n ts old rest)
    | inl e ↦
        let same : t.id ≡ new.id = ground arith in ground (arith, put-absent ts (rw same at apart))
  ]

find-id :
    (id : ℕ) (ts : List FollowUpTask) (t : FollowUpTask)
    → find (λ t. t.id == id) ts ≡ some t
    → t.id ≡ id
unfolding find
find-id id [] t h = cc
find-id id (u ∷ ts) t h = ground (arith, find-id id ts t)

-- A task's row may be rewritten by one that is pending only if the old one was.
save_task-IsQueue :
    (db : Db) (id : ℕ) (task new : FollowUpTask)
    → find (λ t. t.id == id) db.tasks ≡ some task
    → new.id ≡ task.id
    → ((k : ℕ) → is_pending k new ≡ true → is_pending k task ≡ true)
    → IsQueue db
    → IsQueue (save_task db new)
save_task-IsQueue db id task new found same kept q = record {
  distinct = put-Distinct new db.next_id db.tasks q.distinct;
  at_most_one = λ k.
      let at : find (λ t. t.id == new.id) db.tasks ≡ some task =
        simp (same, find-id id db.tasks task found) found in
      ground (
        arith,
        kept k,
        q.at_most_one k,
        pending_in-put new k db.next_id db.tasks task q.distinct at,
      );
}

Distinct-mono : (m n : ℕ) (ts : List FollowUpTask) → m ≤ n → Distinct m ts → Distinct n ts
Distinct-mono m n [] h d = tt
Distinct-mono m n (t ∷ ts) h (lo, apart, rest) = (omega arith, apart, Distinct-mono m n ts h rest)

module _ (p : FollowUpTask → Bool) (s : FollowUpStatus) (r : Option String) where
  abbrev mark : List FollowUpTask → List FollowUpTask
  mark ts = update_where p (λ t. record t { status = s; outcome_reason = r }) ts

  mark-apart :
      (i : ℕ) (ts : List FollowUpTask) → All (λ u. u.id ≢ i) ts → All (λ u. u.id ≢ i) (mark ts)
  unfolding update_where
  mark-apart i [] h = tt
  mark-apart i (t ∷ ts) h = (ground arith, mark-apart i ts h.1)

  mark-Distinct : (n : ℕ) (ts : List FollowUpTask) → Distinct n ts → Distinct n (mark ts)
  unfolding update_where
  mark-Distinct n [] h = tt
  mark-Distinct n (t ∷ ts) (lo, apart, rest) = elim (Bool-cases (p t)) [
    | inl e ↦ rw e (lo, mark-apart t.id ts apart, mark-Distinct n ts rest)
    | inr e ↦ rw e (lo, mark-apart t.id ts apart, mark-Distinct n ts rest)
  ]

-- A row with the fresh id may be added at the end.
apart-fresh :
    (i n : ℕ) (ts : List FollowUpTask) (t : FollowUpTask)
    → i < n
    → t.id ≡ n
    → All (λ u. u.id ≢ i) ts
    → All (λ u. u.id ≢ i) (ts ++ t ∷ [])
apart-fresh i n ts t h e a = All-append _ ts (t ∷ []) a ((λ f. omega arith), tt)

Distinct-fresh :
    (n : ℕ) (ts : List FollowUpTask) (t : FollowUpTask)
    → t.id ≡ n
    → Distinct n ts
    → Distinct (suc n) (ts ++ t ∷ [])
Distinct-fresh n [] t e d = (omega arith, tt, tt)
Distinct-fresh n (u ∷ ts) t e (lo, apart, rest) =
    (omega arith, apart-fresh u.id n ts t lo e apart, Distinct-fresh n ts t e rest)

schedule_at-Distinct :
    (zones : ZoneDb) (settings : Settings) (db : Db) (lead : Lead) (baseline : ℕ)
    (channel : Channel) (due : Option ℕ)
    → Distinct db.next_id db.tasks
    → let db' = (schedule_at zones settings db lead baseline channel due).0 in
      Distinct db'.next_id db'.tasks
unfolding schedule_at
schedule_at-Distinct zones settings db lead baseline channel none d = d
schedule_at-Distinct zones settings db lead baseline channel (some due) d =
    Distinct-fresh db.next_id db.tasks _ refl d

pub schedule_next-IsQueue :
    (zones : ZoneDb) (settings : Settings) (db : Db) (lead : Lead) (now : ℕ) (channel : Channel)
    → IsQueue db
    → IsQueue (schedule_next zones settings db lead now channel).0
unfolding schedule_next cancel_pending
schedule_next-IsQueue zones settings db lead now channel q =
    let cleared =
      mark-Distinct (is_pending lead.id) FollowUpStatus.cancelled (some (truncate 255 "superseded"))
        db.next_id db.tasks q.distinct in
    record {
      distinct =
          if_rule (λ (r : Db × Option FollowUpTask). Distinct r.0.next_id r.0.tasks)
            (check_eligibility (cancel_pending db lead.id "superseded").0 lead none settings).ok
            (schedule_at-Distinct zones settings (cancel_pending db lead.id "superseded").0 lead
              (baseline_of lead now) channel
              (next_attempt_time (baseline_of lead now) (lead.follow_up_count + 1)) cleared)
            cleared;
      at_most_one = λ k.
          ground
            (arith, q.at_most_one k, pending-schedule_next k zones settings db lead now channel);
    }

module _ (db : Db) (lead : Lead) (task : FollowUpTask) (text : String) (d : DeliveryResult) where
  tasks-record_outbound : (record_outbound db lead task text d).tasks ≡ db.tasks
  unfolding record_outbound conversation_for
  tasks-record_outbound = ground arith

  next_id-record_outbound : db.next_id ≤ (record_outbound db lead task text d).next_id
  unfolding record_outbound conversation_for
  next_id-record_outbound = ground arith

  record_outbound-IsQueue : IsQueue db → IsQueue (record_outbound db lead task text d)
  record_outbound-IsQueue q = record {
    distinct =
        rw tasks-record_outbound
          (Distinct-mono db.next_id _ db.tasks next_id-record_outbound q.distinct);
    at_most_one = λ k. rw tasks-record_outbound (q.at_most_one k);
  }

module _ (env : Env) where
  abbrev StaysQueue : Reply (Unit {0}) × Pass env → Type 0
  StaysQueue (o, w) = IsQueue w.db

  module _ (w : Pass env) (id : ℕ) (task : FollowUpTask) (lead : Lead) (agent : Agent)
      (l : IsLoaded env w id task lead agent) (q : IsQueue w.db) where
    saved :
        (new : FollowUpTask)
        → new.id ≡ task.id
        → ((k : ℕ) → is_pending k new ≡ true → is_pending k task ≡ true)
        → IsQueue (save_task w.db new)
    saved new same kept = save_task-IsQueue w.db id task new l.the_task same kept q

    refuse-IsQueue : (r : SkipReason) → IsQueue (refuse env w task lead r).db
    unfolding refuse
    refuse-IsQueue r =
        let closed =
          saved (record task { status = refused_status r; outcome_reason = some (skip_text r) })
            refl (λ k h. ground arith) in
        if_rule IsQueue (is_reply r)
          (schedule_next-IsQueue env.zones env.settings _ lead env.now Channel.whatsapp closed)
          closed

    accepted-IsQueue :
        (t : MessageTemplate) (d : DeliveryResult) (u : Pass env)
        → u.db ≡ w.db
        → IsQueue (accepted env u task lead agent t d).db
    unfolding accepted
    accepted-IsQueue t d u same =
        let done = saved (sent_task env task t) refl (λ k h. ground arith) in
        let s : IsQueue (save_task u.db (sent_task env task t)) = rw same done in
        schedule_next-IsQueue env.zones env.settings _ (nudged env lead) env.now task.channel (
          record_outbound-IsQueue _ (nudged env lead) (sent_task env task t) _ d
            (record { distinct = s.distinct; at_most_one = s.at_most_one }))

    process_loaded-IsQueue :
        (send : Adapter) → StaysQueue (process_loaded env w task send lead agent)
    unfolding defer no_template rejected
    process_loaded-IsQueue send =
        process_loaded_cases env w task lead agent StaysQueue send (λ r e. refuse-IsQueue r)
          (λ a. saved _ refl (λ k h. h)) (λ a. saved _ refl (λ k h. h))
          (λ n. saved _ refl (λ k h. ground arith))
          (λ t m.
            send_nudge_cases env w task lead agent StaysQueue send t q
              (λ d e a. accepted-IsQueue t d _ refl) (λ d a. saved _ refl (λ k h. ground arith)))

    no_channel-IsQueue : IsQueue (no_channel env w task).db
    unfolding no_channel
    no_channel-IsQueue = saved _ refl (λ k h. ground arith)

  process_one-IsQueue : (w : Pass env) (id : ℕ) → IsQueue w.db → StaysQueue (process_one env w id)
  process_one-IsQueue w id q =
      process_one_cases env w id StaysQueue q
        (λ task lead agent l. no_channel-IsQueue w id task lead agent l q)
        (λ task lead agent send l. process_loaded-IsQueue w id task lead agent l q send)

  -- A pass keeps the queue sound, whether it completes or raises: task ids stay distinct, and no lead
  -- gets a second scheduled nudge.
  pub run_once-IsQueue :
      (w : Pass env) (batch_size : ℕ) → IsQueue w.db → IsQueue (run_once env w batch_size).1.db
  run_once-IsQueue = run_once_invariant env IsQueue process_one-IsQueue
