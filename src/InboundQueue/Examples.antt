-- ===== src/InboundQueue/Examples.antt =====
-- Tests of a recovery pass over one entry.
use realty_lead_ai_agent.Common.{
  ℕ, ◌∙◌, sym, ap, Bool, true, false, ◌≤◌, ◌≡◌, inl, refl, some, none, [], ◌∷◌, arith, Option,
  length, String, if◌then◌else◌,
}
use text.Mathlib.Text.{◌==◌ as str_eq}
use realty_lead_ai_agent.Models.Enums.{Channel}
use realty_lead_ai_agent.RateLimit.Store.{ok}
use realty_lead_ai_agent.InboundQueue.Redis.{Claim, Fields, StreamName}
use realty_lead_ai_agent.InboundQueue.Held.{IsHeld}
use realty_lead_ai_agent.InboundQueue.Fake.{
  fake, fake-IsStreams, fake_live, live_fake, fake_room, FakeState, codec, loads-dumps,
}
use realty_lead_ai_agent.InboundQueue.Attempts.{IsBounded, reclaim_stale-IsBounded}
use realty_lead_ai_agent.InboundQueue.Reclaim.{reclaim_stale-IsHeld}
use realty_lead_ai_agent.InboundQueue.Budget.{reclaim_stale-total}
use realty_lead_ai_agent.InboundQueue.{
  load_attempts, reclaim_stale, reclaim_all, reclaim_one, decode, total, dead_letter, retry,
}

abbrev question : Claim
question = record {
  lead_id = 2;
  agent_id = 1;
  message_id = 4;
  text = "2BHK?";
  channel = Channel.whatsapp;
}

-- It has been tried once.
abbrev entry : Fields
entry = record {
  claim = some (codec.dumps question);
  attempts = some (codec.show 1);
  enqueued_at = some "Z";
  reason = none;
  dead_lettered_at = none;
}

abbrev waiting : FakeState
waiting = record {
  live = λ i. if str_eq i "I." then some entry else none;
  dead = [];
  next = 2;
  oldest = "I.";
}

held : IsHeld fake-IsStreams codec 0 question waiting
held = inl ("I.", entry, fake_live waiting "I." entry refl, loads-dumps question)

has_room : (k : StreamName) → 10 ≤ fake-IsStreams.room waiting k
has_room k = omega (arith, fake_room waiting k)

reclaim_stale-IsHeld_example :
    IsHeld fake-IsStreams codec 0 question (reclaim_stale fake codec 0 "a" 120_000 10 waiting).1
reclaim_stale-IsHeld_example =
    reclaim_stale-IsHeld fake-IsStreams codec 0 waiting "a" 120_000 10 question has_room held

completes :
    (reclaim_stale fake codec 0 "a" 120_000 10 waiting).0
    ≡ ok (record { retried = 1; dead_lettered = 0; discarded = 0 })
unfolding reclaim_stale reclaim_all reclaim_one decode dead_letter retry
completes = refl

reclaim_stale-total_example :
    total (record { retried = 1; dead_lettered = 0; discarded = 0 })
    ≡ length {A = String × Fields} (("I.", entry) ∷ [])
reclaim_stale-total_example =
    reclaim_stale-total fake codec 0 waiting (reclaim_stale fake codec 0 "a" 120_000 10 waiting).1
      "a" 120_000 10 (("I.", entry) ∷ []) (record { retried = 1; dead_lettered = 0; discarded = 0 })
      refl (λ i. (completes i, (reclaim_stale fake codec 0 "a" 120_000 10 waiting).1))

attempts_of : Option Fields → Option ℕ
attempts_of none = none
attempts_of (some f) = load_attempts codec f.attempts

none-some : {A : Type 0} {a : A} → none ≡ some a → ⊥
none-some h = cc

once_of :
    (f : Fields) (n : ℕ)
    → some f ≡ some entry
    → load_attempts codec f.attempts ≡ some n
    → codec.parse (codec.show 1) ≡ some n
unfolding attempts_of
once_of f n same e = sym (ap attempts_of same) ∙ e

chosen :
    (b : Bool) (f : Fields)
    → (if b then some entry else none) ≡ some f
    → (b ≡ true) × (some f ≡ some entry)
chosen true f h = (refl, sym h)
chosen false f h = absurd (none-some h)

some_injective : {o : Option ℕ} {m n : ℕ} → o ≡ some m → o ≡ some n → m ≡ n
some_injective h k = cc

entry_bound :
    (i : String) (f : Fields) (n : ℕ)
    → fake-IsStreams.IsLive waiting i f
    → load_attempts codec f.attempts ≡ some n
    → n ≤ 4
entry_bound i f n l e =
    let (b, same) = chosen (str_eq i "I.") f (live_fake waiting i f l) in
    let once : codec.parse (codec.show 1) ≡ some n = once_of f n same e in
    omega (arith, some_injective once (codec.parse-show 1))

bounded : IsBounded fake-IsStreams codec 0 waiting
bounded = record { each = λ i f l n e. entry_bound i f n l e }

reclaim_stale-IsBounded_example :
    IsBounded fake-IsStreams codec 0 (reclaim_stale fake codec 0 "a" 120_000 10 waiting).1
reclaim_stale-IsBounded_example =
    reclaim_stale-IsBounded fake-IsStreams codec 0 waiting "a" 120_000 10 bounded
