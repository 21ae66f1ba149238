-- ===== src/Store.antt =====
-- The queries and updates of the engine on its tables (the ORM calls of engine/logic.py), and
-- `emit_saga_event` of common/outbox.py with the insert of common/messaging/postgres.py.
use warden_core.Prelude.{
  ℕ, suc, String, Bool, true, false, not, ◌&&◌, Option, [], ◌∷◌, ◌++◌, ◌==◌, ltb, eqb,
  if◌then◌else◌, is_some, find_first, exists, keep, update_where,
}
use warden_core.Model.{
  EventType, OutboxStatus, event_number, Saga, Step, Key, Message, messages, Claim, Payload,
  saga_event, Hook, World, Env, event_key, text_key,
}
use warden_core.Tx.{
  Tx, Action, value_error, does_not_exist, integrity, pure, raise, reads, writes, ◌>>=◌, ◌>>◌, when,
  with_some,
}

-- `compensates_span_id IS NULL`
abbrev pub is_forward : Step → Bool
is_forward r = not (is_some r.compensates_span_id)

abbrev pub has_trace : String → Saga → Bool
has_trace t s = s.trace_id == t

abbrev pub has_span : String → Step → Bool
has_span i r = r.span_id == i

unfoldable pub saga_of : String → World → Option Saga
saga_of t w = find_first (has_trace t) w.sagas

unfoldable pub step_of : String → World → Option Step
step_of i w = find_first (has_span i) w.steps

-- The row of an object that the code holds.
unfoldable pub get_saga : String → Tx Saga
get_saga t = do found ← reads (saga_of t); with_some found (raise does_not_exist) pure

unfoldable pub get_step : String → Tx Step
get_step i = do found ← reads (step_of i); with_some found (raise does_not_exist) pure

-- SagaStepInstance.filter(span_id=…, saga_trace_id=…).first()
unfoldable pub find_step : String → String → Tx (Option Step)
find_step t i = reads (λ w. find_first (λ r. has_span i r && r.saga_trace_id == t) w.steps)

-- Assignments to an object followed by its `save`.
unfoldable pub save_saga : String → (Saga → Saga) → Action
save_saga t f = writes (λ w. record w { sagas = update_where (has_trace t) f w.sagas })

unfoldable pub save_step : String → (Step → Step) → Action
save_step i f = writes (λ w. record w { steps = update_where (has_span i) f w.steps })

-- `filter(…).update(…)`
unfoldable pub update_steps : (Step → Bool) → (Step → Step) → Action
update_steps p f = writes (λ w. record w { steps = update_where p f w.steps })

-- A call of a plugin hook.
unfoldable pub hook : Hook → Action
hook h = writes (λ w. record w { audit = h ∷ w.audit })

unfoldable pub now : Tx ℕ
now = reads (λ w. w.now)

-- `uuid.uuid4().hex`
unfoldable pub draw : Env → Tx String
draw env = do
  n ← reads (λ w. w.drawn)
  writes (λ w. record w { drawn = suc n })
  pure (env.uuid_hex n)

abbrev pub clashes : Step → Step → Bool
clashes r q = if q.span_id == r.span_id then true else q.idempotency_key == r.idempotency_key

-- SagaStepInstance.create: `span_id` and `idempotency_key` are unique.
unfoldable pub create_step : Step → Action
create_step r = do
  taken ← reads (λ w. exists (clashes r) w.steps)
  if taken then raise integrity else writes (λ w. record w { steps = w.steps ++ r ∷ [] })

abbrev pub same_event : EventType → EventType → Bool
same_event a b = eqb (event_number a) (event_number b)

unfoldable pub same_key : Key → Key → Bool
same_key (event_key t e i) (event_key t' e' i') = t == t' && same_event e e' && i == i'
same_key (text_key k) (text_key k') = k == k'
same_key _ _ = false

-- The topic worker-commands, or else orchestrator-events.
abbrev pub is_command : Payload → Bool
is_command (saga_event e j) = false
is_command _ = true

abbrev pub same_slot : Message → Message → Bool
same_slot m n =
    m.namespace == n.namespace
    && (if is_command m.payload then is_command n.payload else not (is_command n.payload))
    && same_key m.key n.key

-- A new row, waiting for delivery.
abbrev pub post : Message → World → World
post m w = record w {
  outbox =
      w.outbox
      ++ record { id = w.posted; message = m; status = OutboxStatus.pending; updated_at = w.now }
        ∷ [];
  posted = suc w.posted;
}

-- The insertion of an outbox row: a second row under the same namespace, topic and key is dropped.
unfoldable pub insert_message : Message → Action
insert_message m = do
  taken ← reads (λ w. exists (same_slot m) (messages w.outbox))
  if taken then pure tt else writes (post m)

-- emit_saga_event: a command over the size limit raises.
unfoldable pub emit : Env → Message → Action
emit env m = do
  when (is_command m.payload && ltb env.outbox_max_payload_bytes (env.payload_bytes m.payload))
      (raise (value_error "worker-commands payload size exceeds OUTBOX_MAX_PAYLOAD_BYTES"))
  insert_message m

-- The forward row of a saga at one `forward_seq`.
abbrev pub is_forward_at : String → ℕ → Step → Bool
is_forward_at t n r = is_forward r && r.saga_trace_id == t && eqb r.forward_seq n

unfoldable pub forward_at : String → ℕ → World → Option Step
forward_at t n w = find_first (is_forward_at t n) w.steps

-- ProcessedIngestEvent.create: raises IntegrityError when the key is there.
unfoldable pub claimed : Key → World → Bool
claimed k w = exists (same_key k) w.ingested

unfoldable pub claim_ingest : Key → Action
claim_ingest k = writes (λ w. record w { ingested = k ∷ w.ingested })

-- release_worker_claim_for_retry of common/processed_command_reap.py
unfoldable pub release_worker_claim_for_retry : String → Action
release_worker_claim_for_retry k =
    writes (λ w. record w { claims = keep (λ (c : Claim). not (c.idempotency_key == k)) w.claims })
