-- ===== src/Behaviour/Joins.antt =====
-- summarize_join_children of common/spawn_join.py.
use warden_core.Prelude.{
  String, Option, some, ◌<◌, ◌≤◌, get_or, Option-cases, inl, inr, ℕ, ◌+◌, ◌≡◌, Bool, true, ◌&&◌,
  List, [], ◌∷◌, length, arith,
}
use warden_core.Model.{SagaStatus, is_terminal}
use warden_core.Json.{Json}
use warden_core.Engine.Join.{
  with_ids, valid, validate_spawn_items, max_children_hard_cap, summarize_join_children,
}

abbrev pub all_terminal : List SagaStatus → Bool
all_terminal [] = true
all_terminal (s ∷ rest) = is_terminal s && all_terminal rest

-- Once every child saga has ended, the two counts of a join's summary add up to its total, which is
-- the number of the children: none is left out, and none is counted twice.
pub summarize_join_children-adds_up :
    (statuses : List SagaStatus)
    → all_terminal statuses ≡ true
    → let s = summarize_join_children statuses in
      (s.succeeded + s.failed ≡ s.total) × (s.total ≡ length statuses)
unfolding summarize_join_children
summarize_join_children-adds_up [] h = (omega arith, omega arith)
summarize_join_children-adds_up (SagaStatus.completed ∷ rest) h =
    let (a, b) = summarize_join_children-adds_up rest h in (omega arith, omega arith)
summarize_join_children-adds_up (SagaStatus.failed ∷ rest) h =
    let (a, b) = summarize_join_children-adds_up rest h in (omega arith, omega arith)
summarize_join_children-adds_up (SagaStatus.compensated ∷ rest) h =
    let (a, b) = summarize_join_children-adds_up rest h in (omega arith, omega arith)
summarize_join_children-adds_up (SagaStatus.pending ∷ rest) h = ground arith
summarize_join_children-adds_up (SagaStatus.running ∷ rest) h = ground arith
summarize_join_children-adds_up (SagaStatus.awaiting_human ∷ rest) h = ground arith
summarize_join_children-adds_up (SagaStatus.awaiting_recovery ∷ rest) h = ground arith
summarize_join_children-adds_up (SagaStatus.compensating ∷ rest) h = ground arith

with_ids-length :
    (items : List Json) (l : List (String × Json))
    → with_ids items ≡ some l
    → length l ≡ length items
with_ids-length [] l h = ground arith
with_ids-length (x ∷ xs) l h = elim (Option-cases (with_ids xs)) [
  | inl n ↦ ground arith
  | inr (l', e) ↦ let same = with_ids-length xs l' e in ground arith
]

-- What validate_spawn_items lets through is not empty, is within the cap (the step's own, or else
-- the hard cap of 16), and has one entry for each item.
pub validate_spawn_items-bounded :
    (items : List Json) (max_children : Option ℕ) (l : List (String × Json))
    → validate_spawn_items items max_children ≡ valid l
    → (0 < length l)
      × (length l ≤ get_or max_children max_children_hard_cap)
      × (length l ≡ length items)
unfolding validate_spawn_items
validate_spawn_items-bounded [] max l h = ground arith
validate_spawn_items-bounded (x ∷ xs) max l h = ground (arith, with_ids-length (x ∷ xs) l)
