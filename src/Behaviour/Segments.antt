-- ===== src/Behaviour/Segments.antt =====
-- The segments of common/loops.py and the blueprint that they come from.
use warden_core.Prelude.{ℕ, zero, suc, ◌+◌, ◌≡◌, refl, ap, ◌∙◌, List, [], ◌∷◌, ◌++◌, map, arith}
use native.Mathlib.Nat.{zero-add}
use warden_core.Model.{StepSpec, TopStep, single, loop, LoopSpec}
use warden_core.Engine.Blueprint.{
  Minted, annotated, mint_loop_iteration_body, segment_from, drop,
  take_next_materialization_segment,
}

-- The step specs of a blueprint in order, each loop's body once.
abbrev pub flat : List TopStep → List StepSpec
flat [] = []
flat (single s ∷ rest) = s ∷ flat rest
flat (loop l ∷ rest) = l.body ++ flat rest

abbrev pub specs : List Minted → List StepSpec
specs [] = []
specs (m ∷ ms) = m.spec ∷ specs ms

body-specs : (l : LoopSpec) (n : ℕ) (b : List StepSpec) → specs (map (annotated l.loop_id n) b) ≡ b
body-specs l n [] = refl
body-specs l n (s ∷ b) = ap (λ r. s ∷ r) (body-specs l n b)

append_assoc : {A : Type 0} (xs ys zs : List A) → (xs ++ ys) ++ zs ≡ xs ++ (ys ++ zs)
append_assoc [] ys zs = refl
append_assoc (x ∷ xs) ys zs = ap (λ r. x ∷ r) (append_assoc xs ys zs)

-- The segment at `n` takes `k` entries of the blueprint, and moves the cursor past them.
segment_from-prefix :
    (n : ℕ) (xs : List TopStep)
    → (k : ℕ) × ((segment_from n xs).1.next_blueprint_index ≡ n + k)
      × (specs (segment_from n xs).0 ++ flat (drop k xs) ≡ flat xs)
unfolding segment_from mint_loop_iteration_body
segment_from-prefix n [] = (0, omega arith, refl)
segment_from-prefix n (single s ∷ rest) =
    let (k, at, same) = segment_from-prefix (suc n) rest in
    (suc k, omega arith, ap (λ r. s ∷ r) same)
segment_from-prefix n (loop l ∷ rest) =
    (1, omega arith, ap (λ r. r ++ flat rest) (body-specs l 1 l.body))

drop_nil : {A : Type 0} (k : ℕ) → drop {A = A} k [] ≡ []
drop_nil zero = refl
drop_nil (suc k) = refl

move : (n k : ℕ) → suc n + k ≡ suc (n + k)
move n k = omega arith

drop_add : {A : Type 0} (n k : ℕ) (xs : List A) → drop (n + k) xs ≡ drop k (drop n xs)
drop_add zero k xs = ap (λ m. drop m xs) (zero-add k)
drop_add (suc n) k [] = rw (drop_nil k) (drop_nil _)
drop_add (suc n) k (x ∷ xs) = ap (λ m. drop m (x ∷ xs)) (move n k) ∙ drop_add n k xs

-- The next segment of a blueprint, followed by what the new cursor leaves, is what the old cursor
-- left: no step of the blueprint is skipped, repeated or reordered from one segment to the next (each
-- loop's body counts once, for the first iteration that the segment mints).
pub take_next_materialization_segment-splits :
    (steps : List TopStep) (n : ℕ)
    → let (segment, state) = take_next_materialization_segment steps n in
      specs segment ++ flat (drop state.next_blueprint_index steps) ≡ flat (drop n steps)
unfolding take_next_materialization_segment
take_next_materialization_segment-splits steps n =
    let (k, at, same) = segment_from-prefix n (drop n steps) in rw (at, drop_add n k steps) same
