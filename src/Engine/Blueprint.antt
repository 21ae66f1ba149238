-- ===== src/Engine/Blueprint.antt =====
-- common/loops.py: the segments of the frozen blueprint that become forward rows, the metadata of its
-- loops, and engine/step_materialize.py, which writes the rows.
use Prim.Native.String.{◌++◌ as join}
use warden_core.Prelude.{
  ℕ, zero, suc, String, Bool, false, Option, none, some, List, [], ◌∷◌, map, ◌==◌, last?,
  find_first,
}
use warden_core.Json.{Json, num, str, obj, end, field, set_key, get_key, dict_or_empty, empty_dict}
use warden_core.Model.{
  StepStatus, StepSpec, Step, Saga, TopStep, single, loop, LoopSpec, LoopState, step_created, Env,
}
use warden_core.Tx.{Action, pure, ◌>>=◌, ◌>>◌}
use warden_core.Store.{create_step, hook, draw}

-- A step spec with its `_loop_id` and `_loop_iteration` annotations.
pub record Minted : Type 0 where
  pub spec : StepSpec
  pub loop_id : Option String
  pub iteration : Option ℕ

abbrev pub plain : StepSpec → Minted
plain s = record { spec = s; loop_id = none; iteration = none }

abbrev pub annotated : String → ℕ → StepSpec → Minted
annotated id n s = record { spec = s; loop_id = some id; iteration = some n }

-- mint_loop_iteration_body
unfoldable pub mint_loop_iteration_body : LoopSpec → ℕ → List Minted
mint_loop_iteration_body l n = map (annotated l.loop_id n) l.body

abbrev cursor : ℕ → Option String → LoopState
cursor n active = record { next_blueprint_index = n; active_loop_id = active }

-- The loop of take_initial_materialization_segment and take_next_materialization_segment, at
-- blueprint index `n`: the single steps up to and with the first loop's first iteration. The
-- ValueError on a loop without steps is left out: no blueprint with one passes body_non_empty of
-- LoopSagaStep.
unfoldable pub segment_from : ℕ → List TopStep → List Minted × LoopState
unfolding mint_loop_iteration_body
segment_from n [] = ([], cursor n none)
segment_from n (single s ∷ rest) =
    let (minted, state) = segment_from (suc n) rest in (plain s ∷ minted, state)
segment_from n (loop l ∷ rest) = (mint_loop_iteration_body l 1, cursor (suc n) (some l.loop_id))

abbrev pub drop {ℓ} : {A : Type ℓ} → ℕ → List A → List A
drop zero xs = xs
drop (suc n) [] = []
drop (suc n) (x ∷ xs) = drop n xs

unfoldable pub take_initial_materialization_segment : List TopStep → List Minted × LoopState
unfolding segment_from
take_initial_materialization_segment steps = segment_from 0 steps

unfoldable pub take_next_materialization_segment : List TopStep → ℕ → List Minted × LoopState
unfolding segment_from
take_next_materialization_segment steps n = segment_from n (drop n steps)

-- build_loop_definitions
unfoldable pub build_loop_definitions : List TopStep → List LoopSpec
build_loop_definitions [] = []
build_loop_definitions (single s ∷ rest) = build_loop_definitions rest
build_loop_definitions (loop l ∷ rest) = l ∷ build_loop_definitions rest

-- `loop_definitions.get(loop_id)`
unfoldable pub loop_definition : String → List LoopSpec → Option LoopSpec
loop_definition id defs = find_first (λ l. l.loop_id == id) defs

-- is_last_body_step
unfoldable pub is_last_body_step : Step → LoopSpec → Bool
is_last_body_step step l = elim (last? l.body) [
  | none ↦ false
  | some s ↦ step.spec.step_id == s.step_id
]

-- set_loop_context_status
unfoldable pub set_loop_context_status : Json → String → ℕ → String → Option ℕ → Json
set_loop_context_status context loop_id iteration status max_iterations =
    let loops : Json = dict_or_empty (get_key "loops" context) in
    let entry : Json = dict_or_empty (get_key loop_id loops) in
    let marked : Json = set_key "status" (str status) (set_key "iteration" (num iteration) entry) in
    let bounded : Json = elim max_iterations [
      | none ↦ marked
      | some n ↦ set_key "max_iterations" (num n) marked
    ] in
    set_key "loops" (set_key loop_id bounded loops) context

-- initial_loops_context
unfoldable pub initial_loops_context : List TopStep → Json
initial_loops_context [] = empty_dict
initial_loops_context (single s ∷ rest) = initial_loops_context rest
initial_loops_context (loop l ∷ rest) =
    set_key l.loop_id
      (obj (
        field "iteration" (num 1)
          (field "max_iterations" (num l.max_iterations) (field "status" (str "running") end))))
      (initial_loops_context rest)

-- forward_idempotency_key; `show` prints the iteration.
unfoldable pub forward_idempotency_key :
    (ℕ → String) → String → String → Option String → Option ℕ → String
forward_idempotency_key show trace step_id (some loop_id) (some n) =
    join trace (join "-" (join step_id (join "-" (join loop_id (join "-" (show n))))))
forward_idempotency_key show trace step_id _ _ = join trace (join "-" step_id)

-- _step_create_fields
abbrev pub new_step : (ℕ → String) → Saga → Minted → ℕ → String → Step
new_step show saga m seq span = record {
  span_id = span;
  compensates_span_id = none;
  saga_trace_id = saga.trace_id;
  namespace = saga.namespace;
  spec = m.spec;
  order_index = seq;
  forward_seq = seq;
  loop_id = m.loop_id;
  iteration = m.iteration;
  idempotency_key = forward_idempotency_key show saga.trace_id m.spec.step_id m.loop_id m.iteration;
  status = StepStatus.pending;
  end_time = none;
  resolved_arguments = empty_dict;
  output_payload = none;
  error_details = none;
  pending_review_payload = none;
  hitl_review_started_at = none;
  hitl_retry_count = 0;
}

-- materialize_executable_steps; both of its counters start at the same number at each call.
unfoldable pub materialize_executable_steps : Env → Saga → List Minted → ℕ → Action
materialize_executable_steps env saga [] seq = pure tt
materialize_executable_steps env saga (m ∷ ms) seq = do
  span ← draw env
  create_step (new_step env.show_number saga m seq span)
  hook (step_created span)
  materialize_executable_steps env saga ms (suc seq)
