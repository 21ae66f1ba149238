-- ===== src/Engine/Join/Spawn.antt =====
-- common/child_sagas.py, and what engine/child_sagas.py does before and after the children run:
-- reading the spawn and join blocks, starting the children, and building the payload of a join.
use Prim.Native.String.{◌++◌ as join_text}
use warden_core.Prelude.{
  ℕ, suc, String, Bool, not, ◌&&◌, Option, none, some, List, [], ◌∷◌, ◌++◌, ◌==◌, ltb,
  if◌then◌else◌, get_or, exists, length,
}
use warden_core.Json.{
  Json, Items, null, num, str, arr, obj, nil, cons, end, field, get_key, set_key, is_dict, items,
}
use warden_core.Text.{stripped}
use warden_core.Model.{
  SagaStatus, Step, StepSpec, SpawnSpec, JoinSpec, TopStep, single, loop, Saga, SagaChild, World,
  Env, is_failure, saga_is_completed, saga_status_text,
}
use warden_core.Tx.{Tx, pure, reads, writes, ◌>>=◌, ◌>>◌, when, with_some}
use warden_core.Store.{get_saga, saga_of, is_forward}
use warden_core.Engine.Compensation.{resolve_parameters_spec}
use warden_core.Engine.Children.{links_of}
use warden_core.Engine.Start.{
  require_saga_definition, resolve_idempotent_start, create_saga_and_steps,
}

-- frozen_step_spec: a top-level step of the frozen blueprint
unfoldable pub frozen_step_spec : String → List TopStep → Option StepSpec
frozen_step_spec id [] = none
frozen_step_spec id (single s ∷ rest) = if s.step_id == id then some s else frozen_step_spec id rest
frozen_step_spec id (loop l ∷ rest) = frozen_step_spec id rest

-- parse_spawn_step, parse_join_step
unfoldable pub parse_spawn_step : Saga → String → Option SpawnSpec
parse_spawn_step saga id = elim (frozen_step_spec id saga.frozen_steps) [
  | none ↦ none
  | some s ↦ s.spawn
]

unfoldable pub parse_join_step : Saga → String → Option JoinSpec
parse_join_step saga id = elim (frozen_step_spec id saga.frozen_steps) [
  | none ↦ none
  | some s ↦ s.join
]

-- MAX_CHILDREN_HARD_CAP
abbrev pub max_children_hard_cap : ℕ
max_children_hard_cap = 16

abbrev pub item_id : Json → Option String
item_id raw = elim (get_key "id" raw) [ some (str s) ↦ stripped (some s) | _ ↦ none ]

abbrev pub with_ids : List Json → Option (List (String × Json))
with_ids [] = some []
with_ids (raw ∷ rest) = elim (item_id raw) [
  | none ↦ none
  | some id ↦ elim (with_ids rest) [ none ↦ none | some l ↦ some ((id, raw) ∷ l) ]
]

pub data Spawnable : Type 0 where
  valid : List (String × Json) → Spawnable
  invalid : String → Spawnable

abbrev pub spawnable : Option (List (String × Json)) → Spawnable
spawnable none = invalid "SPAWN_ITEM_MISSING_ID"
spawnable (some l) = valid l

-- validate_spawn_items; the errors by the code that _spawn_validation_error_code reads from them
unfoldable pub validate_spawn_items : List Json → Option ℕ → Spawnable
validate_spawn_items [] max_children = invalid "SPAWN_EMPTY_ITEMS"
validate_spawn_items (x ∷ xs) max_children =
    if ltb (get_or max_children max_children_hard_cap) (length (x ∷ xs))
    then invalid "TOO_MANY_CHILDREN"
    else spawnable (with_ids (x ∷ xs))

-- resolve_items_from_context
unfoldable pub resolve_items_from_context : Env → String → Json → Option (List Json)
resolve_items_from_context env items_from context = elim (env.jsonpath items_from context) [
  | none ↦ some []
  | some null ↦ some []
  | some (arr xs) ↦ some (items (arr xs))
  | some _ ↦ none
]

-- build_child_resolve_context
unfoldable pub build_child_resolve_context : Json → Json → String → Json
build_child_resolve_context parent item item_var =
    set_key (get_or (stripped (some item_var)) "item") item (set_key "item" item parent)

-- child_start_idempotency_key
unfoldable pub child_start_idempotency_key : Env → String → String → String → String
child_start_idempotency_key env parent spawn_step_id id =
    env.sha256_hex (join_text parent (join_text ":" (join_text spawn_step_id (join_text ":" id))))

abbrev pub has_link_key : String → SagaChild → Bool
has_link_key key link = link.idempotency_key == key

-- _spawn_one_child; returns the child's trace id.
unfoldable pub spawn_one_child :
    Env → String → Step → SpawnSpec → String × Json → Tx (String × String)
spawn_one_child env t step spec (id, item) = do
  saga ← get_saga t
  let key = child_start_idempotency_key env t step.spec.step_id id
  definition ← require_saga_definition saga.namespace spec.saga_name spec.saga_version
  existing ← resolve_idempotent_start saga.namespace definition.id key
  child ←
      with_some existing
        (create_saga_and_steps env definition
          (resolve_parameters_spec env spec.input
            (build_child_resolve_context saga.context item spec.item_var))
          (some key) (some t))
        pure
  linked ← reads (λ w. exists (has_link_key key) w.children)
  when (not linked) (
      writes (λ w. record w {
        children =
            w.children
            ++ record {
              namespace = saga.namespace;
              parent_trace_id = t;
              spawn_step_id = step.spec.step_id;
              spawn_span_id = step.span_id;
              item_id = id;
              child_trace_id = child;
              idempotency_key = key;
            }
              ∷ [];
      }))
  pure (id, child)

unfoldable pub spawn_children :
    Env → String → Step → SpawnSpec → List (String × Json) → Tx (List (String × String))
spawn_children env t step spec [] = pure []
spawn_children env t step spec (x ∷ xs) = do
  child ← spawn_one_child env t step spec x
  rest ← spawn_children env t step spec xs
  pure (child ∷ rest)

abbrev pub spawned_items : List (String × String) → Items
spawned_items [] = nil
spawned_items ((id, child) ∷ rest) =
    cons (obj (field "item_id" (str id) (field "child_trace_id" (str child) end)))
      (spawned_items rest)

abbrev pub wrap_step_output_data : Json → Json
wrap_step_output_data d = obj (field "data" d end)

-- The last failed forward row of a child, by `forward_seq`.
abbrev pub later_failure : Option Step → Step → Option Step
later_failure none r = some r
later_failure (some q) r = if ltb q.forward_seq r.forward_seq then some r else some q

unfoldable pub last_failed_step : String → List Step → Option Step
last_failed_step t [] = none
last_failed_step t (r ∷ rs) =
    let rest = last_failed_step t rs in
    if is_forward r && r.saga_trace_id == t && is_failure r.status
    then later_failure rest r
    else rest

-- _child_error_details
unfoldable pub child_error_details : Saga → World → Json
child_error_details child w =
    let ended : Json = obj (
      field "code" (str (saga_status_text child.status))
        (field "message" (str "Child saga ended without success") end)) in
    elim (last_failed_step child.trace_id w.steps) [
      | none ↦ ended
      | some r ↦ elim r.error_details [ none ↦ ended | some d ↦ if is_dict d then d else ended ]
    ]

abbrev pub join_entry : String → String → SagaStatus → Json → Json → Json
join_entry id child status output error = obj (
    field "item_id" (str id) (
      field "child_trace_id" (str child) (
        field "status" (str (saga_status_text status))
          (field "output" output (field "error" error end)))))

-- One entry of build_join_payload, with the child's status; a missing child counts as failed.
unfoldable pub join_child : Env → String → World → SagaChild → SagaStatus × Json
join_child env result_from w link = elim (saga_of link.child_trace_id w) [
  | none ↦ (
    SagaStatus.failed,
    join_entry link.item_id link.child_trace_id SagaStatus.failed null (
        obj
          (field "code" (str "CHILD_MISSING") (field "message" (str "Child saga not found") end))),
  )
  | some child ↦ (
    child.status,
    if saga_is_completed child.status
        then join_entry link.item_id child.trace_id child.status
            (get_or (env.jsonpath result_from child.context) null) null
        else join_entry link.item_id child.trace_id child.status null (child_error_details child w),
  )
]

pub record Summary : Type 0 where
  pub total : ℕ
  pub succeeded : ℕ
  pub failed : ℕ

abbrev pub tally : SagaStatus → Summary → Summary
tally SagaStatus.completed s = record s { total = suc s.total; succeeded = suc s.succeeded }
tally SagaStatus.failed s = record s { total = suc s.total; failed = suc s.failed }
tally SagaStatus.compensated s = record s { total = suc s.total; failed = suc s.failed }
tally _ s = record s { total = suc s.total }

-- summarize_join_children
unfoldable pub summarize_join_children : List SagaStatus → Summary
summarize_join_children [] = record { total = 0; succeeded = 0; failed = 0 }
summarize_join_children (s ∷ rest) = tally s (summarize_join_children rest)

abbrev pub statuses : List (SagaStatus × Json) → List SagaStatus
statuses [] = []
statuses ((s, j) ∷ rest) = s ∷ statuses rest

abbrev pub entries : List (SagaStatus × Json) → Items
entries [] = nil
entries ((s, j) ∷ rest) = cons j (entries rest)

abbrev pub join_rows : Env → String → World → List SagaChild → List (SagaStatus × Json)
join_rows env result_from w [] = []
join_rows env result_from w (l ∷ ls) =
    join_child env result_from w l ∷ join_rows env result_from w ls

abbrev pub summary_json : Summary → Json
summary_json s = obj (
    field "total" (num s.total)
      (field "succeeded" (num s.succeeded) (field "failed" (num s.failed) end)))

-- build_join_payload: the summary, and the whole payload
unfoldable pub build_join_payload : Env → Saga → String → String → World → Summary × Json
build_join_payload env parent spawn_step_id result_from w =
    let rows : List (SagaStatus × Json) =
      join_rows env result_from w (links_of parent.namespace parent.trace_id spawn_step_id w) in
    let summary : Summary = summarize_join_children (statuses rows) in
    (
      summary,
      obj (field "summary" (summary_json summary) (field "children" (arr (entries rows)) end)),
    )
