-- ===== src/FollowUps/Queue.antt =====
-- The number of nudges that stand scheduled for a lead, over backend/app/services/followups.py.
use mathlib.Core.List.{append-nil}
use realty_lead_ai_agent.Common.{
  ℕ, suc, Bool, ap, ◌+◌, ◌≡◌, refl, String, Option, none, some, List, [], ◌∷◌, ◌++◌, ◌==◌,
  if◌then◌else◌, arith, length, filter,
}
use realty_lead_ai_agent.Models.Enums.{Channel, FollowUpStatus}
use realty_lead_ai_agent.Models.Rows.{Lead, FollowUpTask}
use realty_lead_ai_agent.Models.Settings.{Settings}
use realty_lead_ai_agent.Models.Db.{Db, update_where}
use realty_lead_ai_agent.Zones.{ZoneDb}
use realty_lead_ai_agent.FollowUps.{
  is_pending, cancel_pending, schedule_next, next_attempt_time, baseline_of, schedule_at, new_task,
  due_time,
}

-- How many nudges of a list are scheduled for a lead.
abbrev pub pending_in : ℕ → List FollowUpTask → ℕ
pending_in k ts = length (filter (is_pending k) ts)

abbrev pub pending : ℕ → Db → ℕ
pending k db = pending_in k db.tasks

abbrev cancel : String → FollowUpTask → FollowUpTask
cancel r t = record t { status = FollowUpStatus.cancelled; outcome_reason = some r }

pending_in-cancel :
    (k j : ℕ) (r : String) (ts : List FollowUpTask)
    → pending_in k (update_where (is_pending j) (cancel r) ts)
      ≡ (if j == k then 0 else pending_in k ts)
unfolding update_where
pending_in-cancel k j r [] = ground arith
pending_in-cancel k j r (t ∷ ts) = ground (arith, pending_in-cancel k j r ts)

pub pending_in-append :
    (k : ℕ) (ts us : List FollowUpTask)
    → pending_in k (ts ++ us) ≡ pending_in k ts + pending_in k us
pending_in-append k [] us = omega arith
pending_in-append k (t ∷ ts) us = ground (arith, pending_in-append k ts us)

-- Cancelling leaves no nudge scheduled for that lead and touches no other lead's; it reports how many
-- it dropped.
pub pending-cancel_pending :
    (k : ℕ) (db : Db) (lead_id : ℕ) (reason : String)
    → (pending k (cancel_pending db lead_id reason).0 ≡ (if lead_id == k then 0 else pending k db))
      × ((cancel_pending db lead_id reason).1 ≡ pending lead_id db)
unfolding cancel_pending
pending-cancel_pending k db lead_id reason = (pending_in-cancel k lead_id _ db.tasks, refl)

-- The nudges that stand scheduled for a lead.
abbrev pub standing : ℕ → Db → List FollowUpTask
standing k db = filter (is_pending k) db.tasks

standing-cancel :
    (k j : ℕ) (r : String) (ts : List FollowUpTask)
    → filter (is_pending k) (update_where (is_pending j) (cancel r) ts)
      ≡ (if j == k then [] else filter (is_pending k) ts)
unfolding update_where
standing-cancel k j r [] = ground arith
standing-cancel k j r (t ∷ ts) = ground (arith, standing-cancel k j r ts)

length-update_where :
    (p : FollowUpTask → Bool) (f : FollowUpTask → FollowUpTask) (ts : List FollowUpTask)
    → length (update_where p f ts) ≡ length ts
unfolding update_where
length-update_where p f [] = refl
length-update_where p f (t ∷ ts) = ap suc (length-update_where p f ts)

standing-cancel_pending :
    (k : ℕ) (db : Db) (lead_id : ℕ) (reason : String)
    → standing k (cancel_pending db lead_id reason).0 ≡ (if lead_id == k then [] else standing k db)
unfolding cancel_pending
standing-cancel_pending k db lead_id reason = standing-cancel k lead_id _ db.tasks

pub length-cancel_pending :
    (db : Db) (lead_id : ℕ) (reason : String)
    → length (cancel_pending db lead_id reason).0.tasks ≡ length db.tasks
unfolding cancel_pending
length-cancel_pending db lead_id reason = length-update_where (is_pending lead_id) _ db.tasks

standing-append :
    (k : ℕ) (ts us : List FollowUpTask)
    → filter (is_pending k) (ts ++ us) ≡ filter (is_pending k) ts ++ filter (is_pending k) us
standing-append k [] us = refl
standing-append k (t ∷ ts) us = ground (arith, standing-append k ts us)

abbrev pub list_of {ℓ} : {A : Type ℓ} → Option A → List A
list_of none = []
list_of (some a) = a ∷ []

abbrev pub count_of {ℓ} : {A : Type ℓ} → Option A → ℕ
count_of none = 0
count_of (some a) = 1

pending-schedule_at :
    (k : ℕ) (zones : ZoneDb) (settings : Settings) (db : Db) (lead : Lead) (baseline : ℕ)
    (channel : Channel) (due : Option ℕ)
    → let (db', task) = schedule_at zones settings db lead baseline channel due in
      pending k db' ≡ pending k db + (if lead.id == k then count_of task else 0)
unfolding schedule_at
pending-schedule_at k zones settings db lead baseline channel none = ground arith
pending-schedule_at k zones settings db lead baseline channel (some due) = ground (
  arith,
  pending_in-append k db.tasks (
      new_task db lead (lead.follow_up_count + 1) (due_time zones settings lead due) baseline
        channel
      ∷ []),
)

-- The number of nudges of each lead after `schedule_next`.
pub pending-schedule_next :
    (k : ℕ) (zones : ZoneDb) (settings : Settings) (db : Db) (lead : Lead) (now : ℕ)
    (channel : Channel)
    → let (db', task) = schedule_next zones settings db lead now channel in
      pending k db' ≡ (if lead.id == k then count_of task else pending k db)
unfolding schedule_next
pending-schedule_next k zones settings db lead now channel = ground (
  arith,
  pending-cancel_pending k db lead.id "superseded",
  pending-schedule_at k zones settings (cancel_pending db lead.id "superseded").0 lead
      (baseline_of lead now) channel
      (next_attempt_time (baseline_of lead now) (lead.follow_up_count + 1)),
)

standing-schedule_at :
    (k : ℕ) (zones : ZoneDb) (settings : Settings) (db : Db) (lead : Lead) (baseline : ℕ)
    (channel : Channel) (due : Option ℕ)
    → let (db', task) = schedule_at zones settings db lead baseline channel due in
      standing k db' ≡ (if lead.id == k then standing k db ++ list_of task else standing k db)
unfolding schedule_at
standing-schedule_at k zones settings db lead baseline channel none =
    ground (arith, append-nil (standing k db))
standing-schedule_at k zones settings db lead baseline channel (some due) = ground (
  arith,
  append-nil (standing k db),
  standing-append k db.tasks (
      new_task db lead (lead.follow_up_count + 1) (due_time zones settings lead due) baseline
        channel
      ∷ []),
)

-- After `schedule_next` the nudges that stand for the lead are exactly the one that it returned, and
-- none if it returned none; those of every other lead are the same rows as before.
pub standing-schedule_next :
    (k : ℕ) (zones : ZoneDb) (settings : Settings) (db : Db) (lead : Lead) (now : ℕ)
    (channel : Channel)
    → let (db', task) = schedule_next zones settings db lead now channel in
      standing k db' ≡ (if lead.id == k then list_of task else standing k db)
unfolding schedule_next
standing-schedule_next k zones settings db lead now channel = ground (
  arith,
  standing-cancel_pending k db lead.id "superseded",
  standing-schedule_at k zones settings (cancel_pending db lead.id "superseded").0 lead
      (baseline_of lead now) channel
      (next_attempt_time (baseline_of lead now) (lead.follow_up_count + 1)),
)
