-- ===== src/Behaviour/Lifo.antt =====
-- The LIFO walk of _advance_lifo_compensation: what it does at each forward row of a saga, by the rows
-- that it passes over.
use warden_core.Prelude.{
  ℕ, zero, suc, String, ◌≡◌, refl, ap, ◌∙◌, ◌+◌, ◌≤◌, ◌<◌, inl, inr, Bool, true, false, not, ◌&&◌,
  Option, none, some, arith, Bool-cases, if◌then◌else◌,
}
use warden_core.Model.{Step, World, Env, is_spawn}
use warden_core.Tx.{Action, reads, ◌>>=◌, with_some, skip}
use warden_core.Store.{forward_at}
use warden_core.Engine.Terminal.{finalize_saga_compensated}
use warden_core.Engine.Compensation.{
  forward_step_has_compensation, forward_eligible_for_compensation,
}
use warden_core.Engine.Compensation.Walk.{
  undo_done, undo_in_flight, compensate_spawn_sagas_forward, schedule_compensation_for_forward,
  undo_forward, advance_lifo_compensation,
}

-- A row that has effects to undo, and that no completed undo row covers.
abbrev pub needs_undo : String → World → Step → Bool
needs_undo t w r =
    (forward_step_has_compensation r && forward_eligible_for_compensation r)
    && not (undo_done t r.span_id w)

-- A `forward_seq` of a saga at which nothing is left to undo.
abbrev pub is_settled : String → World → Option Step → Bool
is_settled t w none = true
is_settled t w (some r) = not (needs_undo t w r)

move : (n k : ℕ) → suc n + k ≡ suc (n + k)
move n k = omega arith

plus_zero : (n : ℕ) → n ≡ n + 0
plus_zero n = omega arith

module _ (env : Env) (wake : String → Action) where
  undo_forward-passes :
      (t : String) (r : Step) (advance : Action) (w : World)
      → needs_undo t w r ≡ false
      → undo_forward env wake t r advance w ≡ advance w
  unfolding undo_forward ◌>>=◌ reads
  undo_forward-passes t r advance w h =
      elim (Bool-cases (forward_step_has_compensation r && forward_eligible_for_compensation r)) [
        | inr f ↦ rw f refl
        | inl c ↦ let undone : undo_done t r.span_id w ≡ true = ground arith in rw (c, undone) refl
      ]

  walk-passes :
      (t : String) (seq : ℕ) (w : World) (o : Option Step)
      → forward_at t seq w ≡ o
      → is_settled t w o ≡ true
      → advance_lifo_compensation env wake t (suc seq) w
        ≡ advance_lifo_compensation env wake t seq w
  unfolding advance_lifo_compensation ◌>>=◌ reads with_some
  walk-passes t seq w none at h = rw at refl
  walk-passes t seq w (some r) at h =
      rw at (undo_forward-passes t r (advance_lifo_compensation env wake t seq) w (ground arith))

  -- The rows between two cursors are passed over together.
  walk-skips :
      (t : String) (lo gap : ℕ) (w : World)
      → ((m : ℕ) → lo ≤ m → m < gap + lo → is_settled t w (forward_at t m w) ≡ true)
      → advance_lifo_compensation env wake t (gap + lo) w
        ≡ advance_lifo_compensation env wake t lo w
  walk-skips t lo zero w h = ap (λ n. advance_lifo_compensation env wake t n w) (omega arith)
  walk-skips t lo (suc gap) w h =
      ap (λ n. advance_lifo_compensation env wake t n w) (move gap lo)
      ∙ walk-passes t (gap + lo) w _ refl (h (gap + lo) (omega arith) (omega arith))
      ∙ walk-skips t lo gap w (λ m a b. h m a (omega arith))

  -- One round of the walk at a row that needs its undo.
  pub undo_forward-acts :
      (t : String) (r : Step) (advance : Action) (w : World)
      → needs_undo t w r ≡ true
      → undo_forward env wake t r advance w
        ≡ (if undo_in_flight t r.span_id w
              then skip
              else if is_spawn r.spec.step_kind
              then compensate_spawn_sagas_forward env wake t r advance
              else schedule_compensation_for_forward env wake t r)
            w
  unfolding ◌>>=◌ reads undo_forward
  undo_forward-acts t r advance w h =
      let covered : (forward_step_has_compensation r && forward_eligible_for_compensation r)
          ≡ true =
        ground arith in
      let undone : undo_done t r.span_id w ≡ false = ground arith in rw (covered, undone) refl

  walk-acts :
      (t : String) (seq : ℕ) (r : Step) (w : World)
      → forward_at t seq w ≡ some r
      → needs_undo t w r ≡ true
      → advance_lifo_compensation env wake t (suc seq) w
        ≡ (if undo_in_flight t r.span_id w
              then skip
              else if is_spawn r.spec.step_kind
              then compensate_spawn_sagas_forward env wake t r
                  (advance_lifo_compensation env wake t seq)
              else schedule_compensation_for_forward env wake t r)
            w
  unfolding advance_lifo_compensation ◌>>=◌ reads with_some
  walk-acts t seq r w at h =
      rw at (undo_forward-acts t r (advance_lifo_compensation env wake t seq) w h)

  -- The walk from below `n`, when no forward row below `n` has anything left to undo, is the end of
  -- the compensation: the saga is finalized.
  pub advance_lifo_compensation-finishes :
      (t : String) (n : ℕ) (w : World)
      → ((m : ℕ) → m < n → is_settled t w (forward_at t m w) ≡ true)
      → advance_lifo_compensation env wake t n w ≡ finalize_saga_compensated env wake t w
  unfolding advance_lifo_compensation
  advance_lifo_compensation-finishes t n w h =
      ap (λ k. advance_lifo_compensation env wake t k w) (plus_zero n)
      ∙ walk-skips t 0 n w (λ m a b. h m (omega arith))

  -- The walk from below `n` acts on the highest forward row below `n` that has something left to undo,
  -- whatever lies below it: it waits where an undo of that row is in flight, hands a spawn step to its
  -- children, and otherwise schedules the undo of that row.
  pub advance_lifo_compensation-highest :
      (t : String) (seq gap : ℕ) (r : Step) (w : World)
      → forward_at t seq w ≡ some r
      → needs_undo t w r ≡ true
      → ((m : ℕ) → seq < m → m < gap + suc seq → is_settled t w (forward_at t m w) ≡ true)
      → advance_lifo_compensation env wake t (gap + suc seq) w
        ≡ (if undo_in_flight t r.span_id w
              then skip
              else if is_spawn r.spec.step_kind
              then compensate_spawn_sagas_forward env wake t r
                  (advance_lifo_compensation env wake t seq)
              else schedule_compensation_for_forward env wake t r)
            w
  advance_lifo_compensation-highest t seq gap r w at needs above =
      walk-skips t (suc seq) gap w (λ m a b. above m (omega arith) b) ∙ walk-acts t seq r w at needs
