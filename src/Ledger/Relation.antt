-- ===== src/Ledger/Relation.antt =====
-- The relation between the tables before and after a transaction of the engine.
use mathlib.Core.List.{Memᴰ}
use native.Mathlib.Nat.{le_refl, le_trans}
use warden_core.Prelude.{
  ℕ, ◌≤◌, String, ◌≡◌, refl, ◌∙◌, Bool, true, false, ◌||◌, ◌&&◌, not, List, [], ◌∷◌, exists, eqb,
  some,
}
use warden_core.Model.{event_number, Step, Saga, Key, event_key, text_key, Message, messages, World}
use warden_core.Store.{step_of, saga_of, claimed, is_command, same_slot}
use warden_core.Tx.Keeps.{IsPreorder}

-- The columns of a step row that nothing changes, and its retry count, which only grows.
pub record SameStep (r r' : Step) : Type 0 where
  pub span_id : r'.span_id ≡ r.span_id
  pub compensates : r'.compensates_span_id ≡ r.compensates_span_id
  pub trace : r'.saga_trace_id ≡ r.saga_trace_id
  pub namespace : r'.namespace ≡ r.namespace
  pub spec : r'.spec ≡ r.spec
  pub order_index : r'.order_index ≡ r.order_index
  pub forward_seq : r'.forward_seq ≡ r.forward_seq
  pub loop_id : r'.loop_id ≡ r.loop_id
  pub iteration : r'.iteration ≡ r.iteration
  pub retries : r.hitl_retry_count ≤ r'.hitl_retry_count

-- The columns of a saga row that nothing changes.
pub record SameSaga (s s' : Saga) : Type 0 where
  pub trace_id : s'.trace_id ≡ s.trace_id
  pub namespace : s'.namespace ≡ s.namespace
  pub frozen_steps : s'.frozen_steps ≡ s.frozen_steps
  pub loop_definitions : s'.loop_definitions ≡ s.loop_definitions
  pub parent : s'.parent_trace_id ≡ s.parent_trace_id
  pub definition_id : s'.definition_id ≡ s.definition_id
  pub start_key : s'.start_idempotency_key ≡ s.start_idempotency_key

-- The dedup keys that a retry drops are those of the two result events of a worker.
abbrev pub is_result_number : ℕ → Bool
is_result_number n = eqb n 1 || eqb n 2

abbrev pub is_result : Key → Bool
is_result (event_key t e i) = is_result_number (event_number e)
is_result (text_key k) = false

-- No two outbox rows share their namespace, topic and key: a later row differs from each earlier one.
abbrev pub is_unique_outbox : List Message → Bool
is_unique_outbox [] = true
is_unique_outbox (m ∷ ms) = not (exists (λ n. same_slot n m) ms) && is_unique_outbox ms

pub record Extends (w w' : World) : Type 0 where
  pub steps :
      (i : String) (r : Step)
      → step_of i w ≡ some r
      → (r' : Step) × (step_of i w' ≡ some r') × SameStep r r'
  pub sagas :
      (t : String) (s : Saga)
      → saga_of t w ≡ some s
      → (s' : Saga) × (saga_of t w' ≡ some s') × SameSaga s s'
  pub commands :
      (m : Message)
      → is_command m.payload ≡ true
      → Memᴰ m (messages w.outbox)
      → Memᴰ m (messages w'.outbox)
  pub keys : (k : Key) → is_result k ≡ false → claimed k w ≡ true → claimed k w' ≡ true
  pub outbox :
      is_unique_outbox (messages w.outbox) ≡ true → is_unique_outbox (messages w'.outbox) ≡ true

pub SameStep-refl : (r : Step) → SameStep r r
SameStep-refl r = record {
  span_id = refl;
  compensates = refl;
  trace = refl;
  namespace = refl;
  spec = refl;
  order_index = refl;
  forward_seq = refl;
  loop_id = refl;
  iteration = refl;
  retries = le_refl _;
}

pub SameStep-trans : {p q r : Step} → SameStep p q → SameStep q r → SameStep p r
SameStep-trans h k = record {
  span_id = k.span_id ∙ h.span_id;
  compensates = k.compensates ∙ h.compensates;
  trace = k.trace ∙ h.trace;
  namespace = k.namespace ∙ h.namespace;
  spec = k.spec ∙ h.spec;
  order_index = k.order_index ∙ h.order_index;
  forward_seq = k.forward_seq ∙ h.forward_seq;
  loop_id = k.loop_id ∙ h.loop_id;
  iteration = k.iteration ∙ h.iteration;
  retries = le_trans h.retries k.retries;
}

pub SameSaga-refl : (s : Saga) → SameSaga s s
SameSaga-refl s = record {
  trace_id = refl;
  namespace = refl;
  frozen_steps = refl;
  loop_definitions = refl;
  parent = refl;
  definition_id = refl;
  start_key = refl;
}

pub SameSaga-trans : {p q r : Saga} → SameSaga p q → SameSaga q r → SameSaga p r
SameSaga-trans h k = record {
  trace_id = k.trace_id ∙ h.trace_id;
  namespace = k.namespace ∙ h.namespace;
  frozen_steps = k.frozen_steps ∙ h.frozen_steps;
  loop_definitions = k.loop_definitions ∙ h.loop_definitions;
  parent = k.parent ∙ h.parent;
  definition_id = k.definition_id ∙ h.definition_id;
  start_key = k.start_key ∙ h.start_key;
}

pub Extends-order : IsPreorder Extends
Extends-order = record {
  reflexive = λ w. record {
    steps = λ i r h. (r, h, SameStep-refl r);
    sagas = λ t s h. (s, h, SameSaga-refl s);
    commands = λ m c h. h;
    keys = λ k c h. h;
    outbox = λ h. h;
  };
  transitive = λ h k. record {
    steps = λ i r at.
        let (r', at', same) = h.steps i r at in
        let (r'', at'', same') = k.steps i r' at' in (r'', at'', SameStep-trans same same');
    sagas = λ t s at.
        let (s', at', same) = h.sagas t s at in
        let (s'', at'', same') = k.sagas t s' at' in (s'', at'', SameSaga-trans same same');
    commands = λ m c at. k.commands m c (h.commands m c at);
    keys = λ key c at. k.keys key c (h.keys key c at);
    outbox = λ u. k.outbox (h.outbox u);
  };
}
