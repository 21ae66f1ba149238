-- ===== src/Behaviour/Window.antt =====
-- What a step's failure does to its saga, by the step's failure strategy.
use warden_core.Prelude.{
  String, ◌≡◌, refl, ◌∙◌, if◌then◌else◌, true, some, List, find_first, update_where, ap, ◌==◌,
}
use warden_core.Prelude.Search.{find_first-update_where, find_first-passes}
use warden_core.Json.{Json}
use warden_core.Model.{SagaStatus, Step, Saga, World, Env, is_await_operator}
use warden_core.Tx.{Action, done, pure, reads, writes, ◌>>=◌, with_some}
use warden_core.Store.{
  has_trace, has_span, saga_of, step_of, get_saga, get_step, save_saga, save_step, hook, now,
}
use warden_core.Engine.Terminal.{move_saga}
use warden_core.Engine.Failure.{failed_status, apply_step_failure_lifecycle}

saved_saga :
    (t : String) (f : Saga → Saga) (same : (s : Saga) → (f s).trace_id ≡ s.trace_id)
    (ss : List Saga) {s : Saga}
    → find_first (has_trace t) ss ≡ some s
    → find_first (has_trace t) (update_where (has_trace t) f ss) ≡ some (f s)
saved_saga t f same ss {s} h =
    let found =
      find_first-update_where (has_trace t) (has_trace t) f (λ x. ap (λ y. y == t) (same x)) ss h in
    found ∙ ap (λ b. some (if b then f s else s)) (find_first-passes (has_trace t) ss h)

saved_step :
    (i : String) (f : Step → Step) (same : (r : Step) → (f r).span_id ≡ r.span_id) (rs : List Step)
    {r : Step}
    → find_first (has_span i) rs ≡ some r
    → find_first (has_span i) (update_where (has_span i) f rs) ≡ some (f r)
saved_step i f same rs {r} h =
    let found =
      find_first-update_where (has_span i) (has_span i) f (λ x. ap (λ y. y == i) (same x)) rs h in
    found ∙ ap (λ b. some (if b then f r else r)) (find_first-passes (has_span i) rs h)

module _ (env : Env) (wake : String → Action) where
  -- The failure of a step whose strategy is await_operator parks the saga: the call returns, the
  -- saga awaits recovery and is otherwise unchanged, the step has the failure's status, and nothing
  -- is sent.
  pub apply_step_failure_lifecycle-parks :
      (t span : String) (raw : Json) (step : Step) (saga : Saga) (w : World)
      → step_of span w ≡ some step
      → saga_of t w ≡ some saga
      → is_await_operator step.spec.on_failure_strategy ≡ true
      → let (result, after) = apply_step_failure_lifecycle env wake t span raw w in
        (result ≡ done tt)
        × (saga_of t after ≡ some (record saga { status = SagaStatus.awaiting_recovery }))
        × ((r : Step) × (step_of span after ≡ some r) × (r.status ≡ failed_status step.status raw))
        × (after.outbox ≡ w.outbox)
  unfolding apply_step_failure_lifecycle get_step get_saga now save_step save_saga hook move_saga
      writes reads ◌>>=◌ with_some saga_of step_of pure
  apply_step_failure_lifecycle-parks t span raw step saga w at here waits =
      rw (at, waits, here)
        (
          refl,
          saved_saga t _ (λ s. refl) w.sagas here,
          (_, saved_step span _ (λ r. refl) w.steps at, refl),
          refl,
        )
