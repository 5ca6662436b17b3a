-- ===== src/Ingestion/Receipts.antt =====
-- Receipts in any order to `apply_status_updates` of backend/app/services/ingestion.py.
use realty_lead_ai_agent.Common.{
  ℕ, max, ◌≡◌, refl, sym, ap, ◌∙◌, inl, inr, false, none, List, [], ◌∷◌, arith, map, if◌then◌else◌,
  Option-cases,
}
use realty_lead_ai_agent.Models.Rows.{Message}
use realty_lead_ai_agent.Models.Db.{find, update_where}
use realty_lead_ai_agent.Ingestion.{
  StatusUpdate, rank, receipt, is_for, apply_update, apply_status_updates,
}

-- A message after the receipts that are for it.
unfoldable pub received : List StatusUpdate → Message → Message
received [] m = m
received (u ∷ us) m = received us (if is_for u m then receipt u m else m)

-- The highest rank among a message's status and the receipts for it.
unfoldable pub highest : List StatusUpdate → Message → ℕ
highest [] m = rank m.status
highest (u ∷ us) m =
    let rest = highest us m in if is_for u m then max (rank u.status) rest else rest

-- A receipt leaves a message's id of the provider alone, and raises its rank to its own.
rank-receipt :
    (u : StatusUpdate) (m : Message)
    → rank (receipt u m).status ≡ max (rank u.status) (rank m.status)
unfolding receipt
rank-receipt u m = ground arith

is_for-receipt : (u v : StatusUpdate) (m : Message) → is_for v (receipt u m) ≡ is_for v m
unfolding receipt
is_for-receipt u v m = ground arith

highest-receipt :
    (u : StatusUpdate) (us : List StatusUpdate) (m : Message)
    → highest us (receipt u m) ≡ max (rank u.status) (highest us m)
unfolding highest
highest-receipt u [] m = rank-receipt u m
highest-receipt u (v ∷ us) m = ground (arith, highest-receipt u us m, is_for-receipt u v m)

-- One receipt, on the message that it is for.
abbrev one : StatusUpdate → Message → Message
one u m = if is_for u m then receipt u m else m

highest-one :
    (u : StatusUpdate) (us : List StatusUpdate) (m : Message)
    → highest us (one u m) ≡ highest (u ∷ us) m
unfolding highest
highest-one u us m = ground (arith, highest-receipt u us m)

rank-received : (us : List StatusUpdate) (m : Message) → rank (received us m).status ≡ highest us m
unfolding received highest
rank-received [] m = refl
rank-received (u ∷ us) m = rank-received us (one u m) ∙ highest-one u us m

find-step :
    (u : StatusUpdate) (m : Message) (ms : List Message)
    → find (is_for u) (m ∷ ms) ≡ none
    → (is_for u m ≡ false) × (find (is_for u) ms ≡ none)
unfolding find
find-step u m ms h = ground (arith, h)

one-other : (u : StatusUpdate) (m : Message) → is_for u m ≡ false → one u m ≡ m
one-other u m e = rw e

find-none : (u : StatusUpdate) (ms : List Message) → find (is_for u) ms ≡ none → map (one u) ms ≡ ms
unfolding find
find-none u [] h = refl
find-none u (m ∷ ms) h =
    let (other, rest) = find-step u m ms h in
    ap (◌∷◌ (one u m)) (find-none u ms rest) ∙ ap (λ x. x ∷ ms) (one-other u m other)

update_where-map :
    (u : StatusUpdate) (ms : List Message) → update_where (is_for u) (receipt u) ms ≡ map (one u) ms
unfolding update_where
update_where-map u [] = refl
update_where-map u (m ∷ ms) = ap (◌∷◌ (one u m)) (update_where-map u ms)

apply_update-map : (u : StatusUpdate) (ms : List Message) → (apply_update u ms).0 ≡ map (one u) ms
unfolding apply_update
apply_update-map u ms = elim (Option-cases (find (is_for u) ms)) [
  | inl e ↦ rw (e, apply_update) (sym (find-none u ms e))
  | inr (m, e) ↦ rw (e, apply_update) (update_where-map u ms)
]

map-received :
    (u : StatusUpdate) (us : List StatusUpdate) (ms : List Message)
    → map (received us) (map (one u) ms) ≡ map (received (u ∷ us)) ms
unfolding received
map-received u us [] = refl
map-received u us (m ∷ ms) = ap (◌∷◌ (received us (one u m))) (map-received u us ms)

map-nothing : (ms : List Message) → map (received []) ms ≡ ms
unfolding received
map-nothing [] = refl
map-nothing (m ∷ ms) = ap (◌∷◌ m) (map-nothing ms)

map-rank :
    (us : List StatusUpdate) (ms : List Message)
    → map (λ m. rank m.status) (map (received us) ms) ≡ map (highest us) ms
map-rank us [] = refl
map-rank us (m ∷ ms) = cc (rank-received us m, map-rank us ms)

apply_status_updates-map :
    (us : List StatusUpdate) (ms : List Message)
    → (apply_status_updates us ms).0 ≡ map (received us) ms
unfolding apply_status_updates received
apply_status_updates-map [] ms = sym (map-nothing ms)
apply_status_updates-map (u ∷ us) ms =
    apply_status_updates-map us (apply_update u ms).0
    ∙ ap (map (received us)) (apply_update-map u ms)
    ∙ map-received u us ms

-- Every message is changed by the receipts for it alone, one after the other, and its status is never
-- lowered, in whatever order they come: its rank is then the highest among its own and those of the
-- receipts for it.
pub apply_status_updates-highest :
    (us : List StatusUpdate) (ms : List Message)
    → let ms' = (apply_status_updates us ms).0 in
      (ms' ≡ map (received us) ms) × (map (λ m. rank m.status) ms' ≡ map (highest us) ms)
apply_status_updates-highest us ms = (
  apply_status_updates-map us ms,
  ap (map (λ m. rank m.status)) (apply_status_updates-map us ms) ∙ map-rank us ms,
)
