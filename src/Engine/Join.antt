-- ===== src/Engine/Join.antt =====
-- engine/child_sagas.py and common/child_sagas.py: spawn_sagas and join_sagas, the two steps that the
-- engine runs itself. `finish t span output` is `_finalize_step_output_and_advance`.
mod Spawn
unfoldable pub use Spawn.*
use warden_core.Prelude.{
  String, Bool, true, false, not, ◌&&◌, Option, none, some, List, eqb, if◌then◌else◌, length,
}
use warden_core.Json.{Json, num, str, arr, obj, end, field}
use warden_core.Model.{Step, SpawnSpec, JoinSpec, Env, is_in_progress}
use warden_core.Tx.{
  Tx, Action, Error, Outcome, done, raised, value_error, definition_not_found, definition_inactive,
  pure, raise, reads, ◌>>=◌, ◌>>◌, with_some, in_transaction,
}
use warden_core.Store.{get_saga}
use warden_core.Engine.Children.{load_spawn_children, all_children_terminal}
use warden_core.Engine.Failure.{fail_step, apply_step_failure_lifecycle}

module _ (env : Env) (wake : String → Action) (finish : String → String → Json → Action) where
  abbrev catalog_code : Error → Option String
  catalog_code definition_inactive = some "SPAWN_CHILD_DEFINITION_INACTIVE"
  catalog_code definition_not_found = some "SPAWN_CHILD_DEFINITION_NOT_FOUND"
  catalog_code (value_error e) = some "SPAWN_CHILD_HYDRATE_FAILED"
  catalog_code e = none

  -- the `except` clauses around the nested transaction of execute_spawn_sagas
  abbrev pub after_spawn : String → Step → Outcome (List (String × String)) → Action
  after_spawn t step (done children) = finish t step.span_id (
      wrap_step_output_data (
        obj (
          field "spawned" (num (length children))
            (field "children" (arr (spawned_items children)) end))))
  after_spawn t step (raised e) =
      with_some (catalog_code e) (raise e) (λ code. fail_step env wake t step.span_id code "")

  unfoldable pub run_spawn : String → Step → SpawnSpec → List (String × Json) → Action
  run_spawn t step spec validated w =
      let (r, w') = in_transaction (spawn_children env t step spec validated) w in
      after_spawn t step r w'

  abbrev pub spawn_validated : String → Step → SpawnSpec → Spawnable → Action
  spawn_validated t step spec (invalid code) = fail_step env wake t step.span_id code code
  spawn_validated t step spec (valid l) = run_spawn t step spec l

  -- execute_spawn_sagas
  unfoldable pub execute_spawn_sagas : String → Step → Action
  execute_spawn_sagas t step = do
    saga ← get_saga t
    with_some (parse_spawn_step saga step.spec.step_id)
        (fail_step env wake t step.span_id "SPAWN_VALIDATION_ERROR" "spawn step not found")
        λ spec.
          with_some (resolve_items_from_context env spec.items_from saga.context)
            (fail_step env wake t step.span_id "SPAWN_VALIDATION_ERROR"
              "items_from must resolve to a list")
            (λ found. spawn_validated t step spec (validate_spawn_items found spec.max_children))

  abbrev pub close_join : String → Step → JoinSpec → Summary × Json → Action
  close_join t step spec (summary, payload) =
      if not spec.allow_zero_success && eqb summary.succeeded 0
      then apply_step_failure_lifecycle env wake t step.span_id (
          obj (
            field "code" (str "ALL_CHILDREN_FAILED") (
              field "message" (str "join_sagas: no children completed successfully")
                (field "summary" (summary_json summary) end))))
      else finish t step.span_id (wrap_step_output_data payload)

  -- try_complete_join behind its test of the row's status; a frozen step of another kind raises.
  unfoldable pub complete_join : String → Step → Tx Bool
  complete_join t step = do
    parent ← get_saga t
    with_some (parse_join_step parent step.spec.step_id)
        (raise (value_error "join step not found in frozen_steps"))
        λ spec. do
          children ← reads (load_spawn_children parent.namespace t spec.spawn_step_id)
          if not (all_children_terminal children)
              then pure false
              else with_some (parse_spawn_step parent spec.spawn_step_id)
                  (raise (value_error "spawn step not found in frozen_steps"))
                  (λ spawn. do
                    payload ←
                        reads (build_join_payload env parent spec.spawn_step_id spawn.result_from)
                    close_join t step spec payload
                    pure true)

  -- try_complete_join
  unfoldable pub try_complete_join : String → Step → Tx Bool
  try_complete_join t step = if is_in_progress step.status then complete_join t step else pure false

  -- park_or_complete_join
  unfoldable pub park_or_complete_join : String → Step → Action
  park_or_complete_join t step = do _ ← try_complete_join t step; pure tt
