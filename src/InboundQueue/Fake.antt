-- ===== src/InboundQueue/Fake.antt =====
-- A small Redis and a small codec for the tests of the inbound queue: they show that what
-- InboundQueue/Redis.antt asks for can hold. Numbers are written in strokes, and a claim as its
-- numbers, its channel's number and its text.
use Prim.Native.Char.{code}
use text.Mathlib.Text.{◌==◌ as str_eq}
use realty_lead_ai_agent.Common.{
  ℕ, zero, suc, ◌≤◌, String, ◌≡◌, refl, ◌⊎◌, Option, none, some, List, [], ◌∷◌, arith, eq_iff,
  subst, All, length, ◌==◌, if◌then◌else◌, is_none,
}
use realty_lead_ai_agent.Models.Enums.{Channel}
use realty_lead_ai_agent.RateLimit.Store.{Reply, ok, raised}
use realty_lead_ai_agent.InboundQueue.Redis.{
  StreamName, inbound, dead, Fields, Claim, Codec, created, Streams, IsStreams, Apart,
}

-- `n` strokes, a full stop and the text `s`
abbrev stroke : ℕ → String → String
stroke zero s = String.◌∷◌ "." s
stroke (suc n) s = String.◌∷◌ "I" (stroke n s)

abbrev one_more : Option (ℕ × String) → Option (ℕ × String)
one_more none = none
one_more (some (n, s)) = some (suc n, s)

abbrev strokes : String → Option (ℕ × String)
strokes String.[] = none
strokes (String.◌∷◌ c s) =
    let rest = strokes s in if code c == code "I" then one_more rest else some (zero, s)

strokes-stroke : (n : ℕ) (s : String) → strokes (stroke n s) ≡ some (n, s)
strokes-stroke zero s = refl
strokes-stroke (suc n) s = rw (strokes-stroke n s) refl

abbrev channel_number : Channel → ℕ
channel_number Channel.whatsapp = 0
channel_number Channel.sms = 1
channel_number Channel.email = 2
channel_number Channel.web = 3
channel_number Channel.cli = 4

abbrev number_channel : ℕ → Channel
number_channel zero = Channel.whatsapp
number_channel (suc zero) = Channel.sms
number_channel (suc (suc zero)) = Channel.email
number_channel (suc (suc (suc zero))) = Channel.web
number_channel (suc (suc (suc (suc n)))) = Channel.cli

abbrev then_with : {A : Type 0} → Option (ℕ × String) → (ℕ → String → Option A) → Option A
then_with none k = none
then_with (some (n, s)) k = k n s

abbrev pub dumps : Claim → String
dumps c =
    stroke c.lead_id
      (stroke c.agent_id (stroke c.message_id (stroke (channel_number c.channel) c.text)))

abbrev pub loads : String → Option Claim
loads s = then_with (strokes s) λ lead s. then_with (strokes s) λ agent s.
    then_with (strokes s) λ message s. then_with (strokes s) λ channel s. some (record {
      lead_id = lead;
      agent_id = agent;
      message_id = message;
      text = s;
      channel = number_channel channel;
    })

number_channel_number : (c : Channel) → number_channel (channel_number c) ≡ c
number_channel_number Channel.whatsapp = refl
number_channel_number Channel.sms = refl
number_channel_number Channel.email = refl
number_channel_number Channel.web = refl
number_channel_number Channel.cli = refl

pub loads-dumps : (c : Claim) → loads (dumps c) ≡ some c
loads-dumps c =
    rw
      (
        strokes-stroke c.lead_id
            (stroke c.agent_id (stroke c.message_id (stroke (channel_number c.channel) c.text))),
        strokes-stroke c.agent_id (stroke c.message_id (stroke (channel_number c.channel) c.text)),
        strokes-stroke c.message_id (stroke (channel_number c.channel) c.text),
        strokes-stroke (channel_number c.channel) c.text,
        number_channel_number c.channel,
      )
      refl

abbrev pub parse : String → Option ℕ
parse s = then_with (strokes s) λ n _. some n

pub parse-show : (n : ℕ) → parse (stroke n "") ≡ some n
parse-show n = rw (strokes-stroke n "") refl

abbrev pub codec : Codec
codec = record {
  dumps = dumps;
  loads = loads;
  loads-dumps = loads-dumps;
  show = λ n. stroke n "";
  parse = parse;
  parse-show = parse-show;
  isoformat = λ n. stroke n "Z";
}

-- The live entries by id, the dead-letter stream, the number of the next entry, and the id of the
-- entry that XAUTOCLAIM hands over.
pub record FakeState : Type 0 where
  pub live : String → Option Fields
  pub dead : List Fields
  pub next : ℕ
  pub oldest : String

abbrev put : String → Option Fields → (String → Option Fields) → String → Option Fields
put i f live j = if str_eq i j then f else live j

abbrev IsIn : Fields → List Fields → Type 0
IsIn f [] = ⊥
IsIn f (g ∷ gs) = (g ≡ f) ⊎ IsIn f gs

abbrev new_id : FakeState → String
new_id s = stroke s.next ""

abbrev add_to : StreamName → Fields → String → FakeState → FakeState
add_to inbound f i s = record s { live = put i (some f) s.live; next = suc s.next }
add_to dead f i s = record s { dead = f ∷ s.dead; next = suc s.next }

abbrev xadd : StreamName → Fields → ℕ → FakeState → Reply String × FakeState
xadd n f m s =
    if is_none (s.live (new_id s)) then (ok (new_id s), add_to n f (new_id s) s) else (raised, s)

abbrev handed : Option Fields → String → ℕ → List (String × Fields)
handed none i count = []
handed (some f) i zero = []
handed (some f) i (suc count) = (i, f) ∷ []

abbrev pub fake : Streams
fake = record {
  State = FakeState;
  xadd = xadd;
  xack = λ i s. (ok tt, record s { live = put i none s.live });
  xreadgroup = λ who count block s. (ok (handed (s.live s.oldest) s.oldest count), s);
  xautoclaim = λ who idle count s. (ok (handed (s.live s.oldest) s.oldest count), s);
  xgroup_create = λ s. (created, s);
  xlen = λ n s. (ok s.next, s);
  xpending = λ s. (ok s.next, s);
}

fake_keeps_live :
    (s : FakeState) (n : StreamName) (f g : Fields) (m : ℕ) (i : String)
    → s.live i ≡ some g
    → (xadd n f m s).1.live i ≡ some g
fake_keeps_live s inbound f g m i k = ground (arith, k, eq_iff (new_id s) i)
fake_keeps_live s dead f g m i k = ground (arith, k)

fake_keeps_dead :
    (s : FakeState) (n : StreamName) (f g : Fields) (m : ℕ)
    → IsIn g s.dead
    → IsIn g (xadd n f m s).1.dead
fake_keeps_dead s inbound f g m k = ground (arith, k)
fake_keeps_dead s dead f g m k = ground (arith, k)

fake_only :
    (s : FakeState) (n : StreamName) (f g : Fields) (m : ℕ) (i : String)
    → (xadd n f m s).1.live i ≡ some g
    → (s.live i ≡ some g) ⊎ (g ≡ f)
fake_only s inbound f g m i k = ground (arith, k)
fake_only s dead f g m i k = ground (arith, k)

handed_is :
    (s : FakeState) (who : String) (idle count : ℕ) (es : List (String × Fields))
    → (fake.xautoclaim who idle count s).0 ≡ ok es
    → handed (s.live s.oldest) s.oldest count ≡ es
handed_is s who idle count es h = cc

read_is :
    (s : FakeState) (who : String) (count block : ℕ) (es : List (String × Fields))
    → (fake.xreadgroup who count block s).0 ≡ ok es
    → handed (s.live s.oldest) s.oldest count ≡ es
read_is s who count block es h = cc

handed_lem :
    (s : FakeState) (o : Option Fields) (i : String) (count : ℕ)
    → s.live i ≡ o
    → let es = handed o i count in
      (length es ≤ count) × Apart es × All (λ (e : String × Fields). s.live e.0 ≡ some e.1) es
handed_lem s none i count e = (omega arith, tt, tt)
handed_lem s (some f) i zero e = (omega arith, tt, tt)
handed_lem s (some f) i (suc count) e = (omega arith, (tt, tt), (e, tt))

pub fake-IsStreams : IsStreams fake
fake-IsStreams = record {
  IsLive = λ s i f. s.live i ≡ some f;
  IsDead = λ s f. IsIn f s.dead;
  room = λ s n. 10_000;
  live_unique = λ s i f g h k. ground (arith, h, k);
  xadd_live = λ s f m i h. ground (arith, h, eq_iff i i);
  xadd_dead = λ s f m i h. ground (arith, h);
  xadd_fresh = λ s n f g m i h k. ground (arith, h, k);
  xadd_keeps_live = λ s n f g m i h k. fake_keeps_live s n f g m i k;
  xadd_keeps_dead = λ s n f g m h k. fake_keeps_dead s n f g m k;
  xadd_only = λ s n f g m i k. fake_only s n f g m i k;
  xadd_room = λ s n k f m. omega arith;
  xack_keeps_live = λ s i j g ne k. ground (arith, ne, k, eq_iff j i);
  xack_keeps_dead = λ s j g k. k;
  xack_only = λ s i j g k. ground (arith, k);
  xack_removes = λ s j g h k. ground (arith, k, eq_iff j j);
  xack_room = λ s j k. omega arith;
  xautoclaim_keeps_live = λ s who idle count i g k. k;
  xautoclaim_keeps_dead = λ s who idle count g k. k;
  xautoclaim_only = λ s who idle count i g k. k;
  xautoclaim_room = λ s who idle count k. omega arith;
  xautoclaim_lem = λ s who idle count es h.
      subst
        (λ es.
          (length es ≤ count) × Apart es × All (λ (e : String × Fields). s.live e.0 ≡ some e.1) es)
        (handed_is s who idle count es h) (handed_lem s (s.live s.oldest) s.oldest count refl);
  xgroup_create_keeps_live = λ s i g k. k;
  xgroup_create_keeps_dead = λ s g k. k;
  xgroup_create_room = λ s k. omega arith;
  xreadgroup_keeps_live = λ s who count block i g k. k;
  xreadgroup_keeps_dead = λ s who count block g k. k;
  xreadgroup_room = λ s who count block k. omega arith;
  xreadgroup_lem = λ s who idle count es h.
      subst
        (λ es.
          (length es ≤ idle) × Apart es × All (λ (e : String × Fields). s.live e.0 ≡ some e.1) es)
        (read_is s who idle count es h) (handed_lem s (s.live s.oldest) s.oldest idle refl);
}

pub fake_live :
    (s : FakeState) (i : String) (f : Fields) → s.live i ≡ some f → fake-IsStreams.IsLive s i f
unfolding fake-IsStreams
fake_live s i f h = h

pub fake_room : (s : FakeState) (k : StreamName) → fake-IsStreams.room s k ≡ 10_000
unfolding fake-IsStreams
fake_room s k = refl

pub live_fake :
    (s : FakeState) (i : String) (f : Fields) → fake-IsStreams.IsLive s i f → s.live i ≡ some f
unfolding fake-IsStreams
live_fake s i f h = h
