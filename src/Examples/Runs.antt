-- ===== src/Examples/Runs.antt =====
-- Events that the engine processes, and sagas that it starts.
use warden_core.Prelude.{
  some, [], ◌≡◌, refl, true, false, ◌∷◌, count_where, exists, find_first, update_where,
}
use warden_core.Json.{empty_dict, str}
use warden_core.Model.{SagaDefinition, frozen, World, EventType, ingest_deduplicated}
use warden_core.Tx.{done, skip, ◌>>=◌, reads, writes, pure, with_some, when, raise, in_transaction}
use warden_core.Store.{
  claimed, claim_ingest, same_key, get_saga, save_saga, hook, now, update_steps, emit,
  insert_message, saga_of,
}
use warden_core.Engine.Terminal.{
  handle_saga_completion, move_saga, notify_unreachable_steps_skipped,
  mark_unreachable_forward_steps_skipped,
}
use warden_core.Behaviour.Restart.{start_saga-again}
use warden_core.Engine.Start.{start_saga}
use warden_core.Engine.Chain.{chain, on_child_saga_terminal}
use warden_core.Engine.Handlers.{
  ingest_key, ingest, handle_event, handle_claimed, dispatch, process_saga_event,
}
use warden_core.Ledger.Relation.{Extends}
use warden_core.Ledger.Ingest.{process_saga_event-Extends}
use warden_core.Behaviour.Redelivery.{is_done, process_saga_event-redelivered}
use warden_core.Engine.Start.{
  require_saga_definition, resolve_idempotent_start, create_saga_and_steps, create_saga,
  step_shells,
}
use warden_core.Store.{draw, create_step}
use warden_core.Engine.Blueprint.{
  materialize_executable_steps, take_initial_materialization_segment, build_loop_definitions,
  forward_idempotency_key, initial_loops_context, mint_loop_iteration_body, segment_from,
}
use warden_core.Engine.Compensation.{
  business_data_from_step_output, facts_from_step_output, step_context_entry_for_saga,
  step_output_for_saga_context,
}
use warden_core.Examples.Data.{blueprint, services, shop, event}

process_saga_event-Extends_example :
    Extends shop (process_saga_event services 3 (event EventType.step_completed "b") shop).1
process_saga_event-Extends_example =
    process_saga_event-Extends services 3 (event EventType.step_completed "b") shop

first_delivery :
    is_done (process_saga_event services 3 (event EventType.saga_completed "") shop).0 ≡ true
unfolding process_saga_event ingest handle_event handle_claimed dispatch in_transaction ◌>>=◌ reads
    writes pure with_some when skip claimed claim_ingest same_key exists find_first chain
    handle_saga_completion get_saga saga_of move_saga save_saga update_where hook
    notify_unreachable_steps_skipped mark_unreachable_forward_steps_skipped now count_where
    update_steps emit insert_message on_child_saga_terminal raise
first_delivery = refl

process_saga_event-redelivered_example :
    let after = (process_saga_event services 3 (event EventType.saga_completed "") shop).1 in
    process_saga_event services 5 (event EventType.saga_completed "") after ≡ (
      done tt,
      record after {
        audit =
            ingest_deduplicated
              (ingest_key (event EventType.saga_completed ""))
              "processed_ingest_claim"
            ∷ after.audit;
      },
    )
process_saga_event-redelivered_example =
    process_saga_event-redelivered services 3 5 (event EventType.saga_completed "")
      (event EventType.saga_completed "") shop refl first_delivery refl

abbrev order_definition : SagaDefinition
order_definition = record {
  id = "d";
  namespace = "shop";
  name = "order";
  version = "1";
  is_active = true;
  hydrated = frozen blueprint;
}

abbrev stocked : World
stocked = record shop { definitions = order_definition ∷ [] }

order_starts :
    (start_saga services "shop" "order" "1" empty_dict (some "key") stocked).0
    ≡ done (record { trace_id = "u"; created = true })
unfolding start_saga ◌>>=◌ require_saga_definition reads with_some find_first pure
    resolve_idempotent_start in_transaction create_saga_and_steps draw writes create_saga saga_of
    hook materialize_executable_steps take_initial_materialization_segment create_step
    build_loop_definitions forward_idempotency_key initial_loops_context mint_loop_iteration_body
    segment_from business_data_from_step_output facts_from_step_output step_context_entry_for_saga
    step_output_for_saga_context step_shells exists emit insert_message same_key raise when
order_starts = refl

start_saga-again_example :
    let after = (start_saga services "shop" "order" "1" empty_dict (some "key") stocked).1 in
    start_saga services "shop" "order" "1" (str "other") (some "key") after
    ≡ (done (record { trace_id = "u"; created = false }), after)
start_saga-again_example =
    start_saga-again services "shop" "order" "1" "key" empty_dict (str "other") stocked
      (record { trace_id = "u"; created = true }) order_starts
