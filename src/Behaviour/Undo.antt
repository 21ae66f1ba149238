-- ===== src/Behaviour/Undo.antt =====
-- _schedule_compensation_for_forward, and the next round of the walk of engine/logic.py.
use Prim.Native.String.{◌++◌ as join}
use warden_core.Prelude.Search.{find_first-passes}
use warden_core.Prelude.{
  subst, eq_iff, suc, String, ◌≡◌, refl, ◌∙◌, Bool, true, ◌&&◌, eq_refl, none, some, List, [], ◌∷◌,
  ◌++◌, exists, arith, inl, inr, Bool-cases,
}
use warden_core.Model.{
  Step, Saga, Undo, Message, Hook, World, Env, execute_compensation, is_compensating,
}
use warden_core.Tx.{
  Action, Outcome, done, raised, pure, raise, reads, writes, ◌>>=◌, with_some, skip, proceed,
}
use warden_core.Tx.Keeps.{Keeps, IsPreorder, keeps_rules}
use warden_core.Store.{
  has_trace, saga_of, hook, emit, post, insert_message, create_step, clashes, draw, get_saga,
}
use warden_core.Engine.Compensation.Walk.{
  compensation_command, is_undo_of, undo_in_flight, undo_row, announce_undo, queue_undo,
  undo_forward, schedule_compensation_for_forward,
}
use warden_core.Behaviour.Redelivery.{is_done}
use warden_core.Behaviour.Lifo.{needs_undo, undo_forward-acts}

-- An undo that is in flight stays so.
record Waits (t span : String) (w w' : World) : Type 0 where
  stays : undo_in_flight t span w ≡ true → undo_in_flight t span w' ≡ true

Waits-order : (t span : String) → IsPreorder (Waits t span)
Waits-order t span = record {
  reflexive = λ w. record { stays = λ h. h };
  transitive = λ h k. record { stays = λ u. k.stays (h.stays u) };
}

Waits-hook : (t span : String) (h : Hook) → Keeps (Waits t span) (hook h)
unfolding hook writes undo_in_flight
Waits-hook t span h = record { at = λ w. record { stays = λ u. u } }

Waits-add_message : (t span : String) (m : Message) → Keeps (Waits t span) (writes (post m))
unfolding writes undo_in_flight
Waits-add_message t span m = record { at = λ w. record { stays = λ u. u } }

Waits-insert : (t span : String) (m : Message) → Keeps (Waits t span) (insert_message m)
unfolding insert_message
Waits-insert t span m = search (keeps_rules, Waits-order, Waits-add_message)

Waits-emit : (t span : String) (env : Env) (m : Message) → Keeps (Waits t span) (emit env m)
unfolding emit
Waits-emit t span env m = search (keeps_rules, Waits-order, Waits-insert)

exists-last :
    (p : Step → Bool) (r : Step) (rs : List Step) → p r ≡ true → exists p (rs ++ r ∷ []) ≡ true
unfolding exists
exists-last p r [] h = rw h refl
exists-last p r (q ∷ qs) h = ground (arith, exists-last p r qs)

module _ (env : Env) (wake : String → Action) where
  Waits-announce :
      (t span : String) (saga : Saga) (r : Step) (u : Undo) (i : String)
      → Keeps (Waits t span) (announce_undo env wake saga r u i)
  unfolding announce_undo
  Waits-announce t span saga r u i =
      search (keeps_rules, Waits-order, Waits-hook, Waits-emit) depth 12

  after_create :
      (t span : String) (tail : Action) (r : Outcome (Unit {0})) (w : World)
      → Keeps (Waits t span) tail
      → (is_done r ≡ true → undo_in_flight t span w ≡ true)
      → is_done (proceed (λ _. tail) r w).0 ≡ true
      → undo_in_flight t span (proceed (λ _. tail) r w).1 ≡ true
  after_create t span tail (done a) w k h d = (k.at w).stays (h refl)
  after_create t span tail (raised e) w k h d = ground arith

  created :
      (t : String) (r : Step) (u : Undo) (i : String) (w : World)
      → is_done (create_step (undo_row t r u i) w).0 ≡ true
      → undo_in_flight t r.span_id (create_step (undo_row t r u i) w).1 ≡ true
  unfolding create_step ◌>>=◌ reads writes raise undo_in_flight
  created t r u i w = elim (Bool-cases (exists (clashes (undo_row t r u i)) w.steps)) [
    | inl t ↦ rw t (λ d. ground arith)
    | inr f ↦ rw f (λ d.
        exists-last (λ q. is_undo_of t r.span_id q && is_compensating q.status) (undo_row t r u i)
          w.steps (rw (eq_refl t, eq_refl r.span_id) refl))
  ]

  queued :
      (saga : Saga) (r : Step) (u : Undo) (i : String) (w : World)
      → is_done (queue_undo env wake saga r u i w).0 ≡ true
      → undo_in_flight saga.trace_id r.span_id (queue_undo env wake saga r u i w).1 ≡ true
  unfolding queue_undo ◌>>=◌
  queued saga r u i w =
      after_create saga.trace_id r.span_id (announce_undo env wake saga r u i)
        (create_step (undo_row saga.trace_id r u i) w).0
        (create_step (undo_row saga.trace_id r u i) w).1
        (Waits-announce saga.trace_id r.span_id saga r u i) (created saga.trace_id r u i w)

  queued_under :
      (t : String) (saga : Saga) (r : Step) (u : Undo) (i : String) (w : World)
      → saga.trace_id ≡ t
      → is_done (queue_undo env wake saga r u i w).0 ≡ true
      → undo_in_flight t r.span_id (queue_undo env wake saga r u i w).1 ≡ true
  queued_under t saga r u i w named d =
      subst (λ x. undo_in_flight x r.span_id (queue_undo env wake saga r u i w).1 ≡ true) named
        (queued saga r u i w d)

  -- The command that the next undo of a row is sent as.
  abbrev pub next_undo : Saga → Step → World → Undo
  next_undo saga r w =
      let span : String = env.uuid_hex w.drawn in
      compensation_command env (record w { drawn = suc w.drawn }) saga r span
        (join "comp-" (join saga.trace_id (join "-" span)))

  scheduled :
      (t : String) (r : Step) (saga : Saga) (w : World)
      → saga_of t w ≡ some saga
      → env.command_error (execute_compensation (next_undo saga r w)) ≡ none
      → is_done (schedule_compensation_for_forward env wake t r w).0 ≡ true
      → undo_in_flight t r.span_id (schedule_compensation_for_forward env wake t r w).1 ≡ true
  unfolding schedule_compensation_for_forward draw get_saga saga_of ◌>>=◌ reads writes pure
      with_some
  scheduled t r saga w here accepts =
      let named : saga.trace_id ≡ t =
        (eq_iff saga.trace_id t).0 (find_first-passes (has_trace t) w.sagas here) in
      rw (here, accepts) (queued_under t saga r _ _ _ named)

  -- Where the scheduling of a row's undo returns, the undo is in flight: the next round of the walk at
  -- that row waits, and schedules nothing, for as long as the row needs its undo. The saga must be in
  -- the table, and the command model must accept the one command that is built.
  pub undo_forward-scheduled :
      (t : String) (r : Step) (saga : Saga) (advance : Action) (w : World)
      → saga_of t w ≡ some saga
      → env.command_error (execute_compensation (next_undo saga r w)) ≡ none
      → is_done (schedule_compensation_for_forward env wake t r w).0 ≡ true
      → let after = (schedule_compensation_for_forward env wake t r w).1 in
        needs_undo t after r ≡ true → undo_forward env wake t r advance after ≡ (done tt, after)
  unfolding skip pure
  undo_forward-scheduled t r saga advance w here accepts d needs =
      undo_forward-acts env wake t r advance _ needs ∙ rw (scheduled t r saga w here accepts d) refl
