-- ===== src/Examples/Steps.antt =====
-- Single operations on the tables of Data.antt.
use warden_core.Prelude.{
  length, ◌≤◌, ℕ, zero, suc, ◌+◌, ◌<◌, String, ◌≡◌, refl, true, not, ◌&&◌, some, List, [], ◌∷◌,
  ◌++◌, exists, find_first, arith, is_some,
}
use warden_core.Text.{stripped, is_blank, strip, lstrip, rstrip}
use warden_core.Json.{Json, str, obj, end, field, empty_dict}
use warden_core.Model.{StepStatus, SagaStatus, EventType, Step, do_commit}
use warden_core.Tx.{done, skip, ◌>>=◌, reads, writes, pure, with_some, when, raise}
use warden_core.Store.{
  draw, create_step, same_key, get_saga, hook, emit, insert_message, saga_of, step_of, find_step,
  forward_at,
}
use warden_core.Engine.Terminal.{finalize_saga_compensated}
use warden_core.Engine.Compensation.{
  forward_step_has_compensation, forward_eligible_for_compensation,
}
use warden_core.Engine.Compensation.Walk.{
  compensation_command, queue_undo, announce_undo, undo_forward, advance_lifo_compensation,
  schedule_compensation_for_forward, undo_done, undo_in_flight,
}
use warden_core.Engine.Failure.{apply_step_failure_lifecycle, failed_status}
use warden_core.Engine.Command.{command_of, build_commit_worker_command}
use warden_core.Engine.Blueprint.{take_next_materialization_segment, drop}
use warden_core.Engine.Join.{validate_spawn_items, summarize_join_children}
use warden_core.Engine.Chain.{chain}
use warden_core.Behaviour.Redelivery.{is_done}
use warden_core.Behaviour.Undo.{undo_forward-scheduled}
use warden_core.Behaviour.Lifo.{
  needs_undo, is_settled, advance_lifo_compensation-finishes, advance_lifo_compensation-highest,
}
use warden_core.Behaviour.Late.{IsDropped, dispatch-compensated}
use warden_core.Behaviour.Commit.{
  is_command_built, is_commit_admitted, build_commit_worker_command_iff,
}
use warden_core.Behaviour.Window.{apply_step_failure_lifecycle-parks}
use warden_core.Behaviour.Segments.{flat, specs, take_next_materialization_segment-splits}
use warden_core.Behaviour.Joins.{validate_spawn_items-bounded, summarize_join_children-adds_up}
use warden_core.Examples.Data.{
  services, charge, ship, blueprint, order, charged, shipping, undone, tables, shop, event, no_wake,
}

summarize_join_children-adds_up_example :
    let s = summarize_join_children (SagaStatus.completed ∷ SagaStatus.failed ∷ []) in
    (s.succeeded + s.failed ≡ s.total) × (s.total ≡ 2)
summarize_join_children-adds_up_example =
    summarize_join_children-adds_up (SagaStatus.completed ∷ SagaStatus.failed ∷ []) refl

take_next_materialization_segment-splits_example :
    let (segment, state) = take_next_materialization_segment blueprint 0 in
    specs segment ++ flat (drop state.next_blueprint_index blueprint) ≡ charge ∷ ship ∷ ship ∷ []
take_next_materialization_segment-splits_example =
    take_next_materialization_segment-splits blueprint 0

above_charge : (m : ℕ) → 0 < m → m < 1 + suc 0 → is_settled "t" shop (forward_at "t" m shop) ≡ true
unfolding forward_at find_first forward_step_has_compensation forward_eligible_for_compensation
    undo_done exists
above_charge m a b = let one : m ≡ 1 = omega arith in rw one refl

advance_lifo_compensation-highest_example :
    advance_lifo_compensation services no_wake "t" 2 shop
    ≡ schedule_compensation_for_forward services no_wake "t" charged shop
unfolding undo_in_flight forward_at find_first forward_step_has_compensation
    forward_eligible_for_compensation undo_done exists
advance_lifo_compensation-highest_example =
    advance_lifo_compensation-highest services no_wake "t" 0 1 charged shop refl refl above_charge

nothing_left :
    (m : ℕ)
    → m < 2
    → is_settled "t"
        (tables (undone ∷ shipping ∷ []))
        (forward_at "t" m (tables (undone ∷ shipping ∷ [])))
      ≡ true
unfolding forward_at find_first forward_step_has_compensation forward_eligible_for_compensation
    undo_done exists
nothing_left zero a = refl
nothing_left (suc zero) a = refl
nothing_left (suc (suc m)) a = ground arith

advance_lifo_compensation-finishes_example :
    advance_lifo_compensation services no_wake "t" 2 (tables (undone ∷ shipping ∷ []))
    ≡ finalize_saga_compensated services no_wake "t" (tables (undone ∷ shipping ∷ []))
advance_lifo_compensation-finishes_example =
    advance_lifo_compensation-finishes services no_wake "t" 2 (tables (undone ∷ shipping ∷ []))
      nothing_left

dispatch-compensated_example :
    IsDropped services
      (chain services 2)
      EventType.step_completed
      order
      (event EventType.step_completed "c")
      (tables (undone ∷ []))
    × IsDropped services
        (chain services 2)
        EventType.step_failed
        order
        (event EventType.step_completed "c")
        (tables (undone ∷ []))
    × IsDropped services
        (chain services 2)
        EventType.step_compensated
        order
        (event EventType.step_completed "c")
        (tables (undone ∷ []))
unfolding find_step reads find_first
dispatch-compensated_example =
    dispatch-compensated services (chain services 2) order (event EventType.step_completed "c")
      (tables (undone ∷ [])) undone refl refl

build_commit_worker_command_iff_example :
    is_command_built (build_commit_worker_command services no_wake "t" shipping empty_dict shop).0
    ≡ is_commit_admitted services order shipping empty_dict
      && not (is_some (services.command_error (do_commit (command_of shipping))))
unfolding saga_of find_first
build_commit_worker_command_iff_example =
    build_commit_worker_command_iff services no_wake "t" shipping empty_dict order shop refl

apply_step_failure_lifecycle-parks_example :
    let (result, after) = apply_step_failure_lifecycle services no_wake "t" "b" empty_dict shop in
    (result ≡ done tt)
    × (saga_of "t" after ≡ some (record order { status = SagaStatus.awaiting_recovery }))
    × ((r : Step) × (step_of "b" after ≡ some r)
        × (r.status ≡ failed_status StepStatus.in_progress empty_dict))
    × (after.outbox ≡ [])
unfolding saga_of step_of find_first
apply_step_failure_lifecycle-parks_example =
    apply_step_failure_lifecycle-parks services no_wake "t" "b" empty_dict shipping order shop refl
      refl refl

undo_scheduled :
    let (result, after) = schedule_compensation_for_forward services no_wake "t" charged shop in
    (is_done result ≡ true) × (needs_undo "t" after charged ≡ true)
unfolding schedule_compensation_for_forward draw get_saga saga_of ◌>>=◌ reads writes pure with_some
    when raise find_first queue_undo create_step announce_undo compensation_command hook emit
    insert_message exists same_key undo_done forward_step_has_compensation
    forward_eligible_for_compensation
undo_scheduled = (refl, refl)

undo_forward-scheduled_example :
    let after = (schedule_compensation_for_forward services no_wake "t" charged shop).1 in
    undo_forward services no_wake "t" charged skip after ≡ (done tt, after)
unfolding saga_of find_first
undo_forward-scheduled_example =
    undo_forward-scheduled services no_wake "t" charged order skip shop refl refl undo_scheduled.0
      undo_scheduled.1

abbrev one_item : List (String × Json)
one_item = ("x", obj (field "id" (str "x") end)) ∷ []

validate_spawn_items-bounded_example :
    (0 < length one_item) × (length one_item ≤ 2) × (length one_item ≡ 1)
unfolding validate_spawn_items stripped is_blank strip lstrip rstrip
validate_spawn_items-bounded_example =
    validate_spawn_items-bounded (obj (field "id" (str "x") end) ∷ []) (some 2) one_item refl
