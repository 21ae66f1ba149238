-- ===== src/Ledger/Steps.antt =====
-- The relation Extends for the ends of sagas, failures, human review and compensation
-- (Engine/Terminal, Engine/Failure, Engine/Hold, Engine/Compensation/Walk); the callback that wakes
-- a parent is a parameter.

use warden_core.Prelude.{
  ℕ, zero, suc, String, ◌≡◌, refl, Bool, true, false, not, ◌&&◌, ◌||◌, Option, List, eqb, keep,
  exists, arith,
}
use warden_core.Prelude.Search.{mem-keep, exists-keep}
use warden_core.Json.{Json}
use warden_core.Model.{
  SagaStatus, event_number, Step, Saga, Key, event_key, text_key, Message, messages, Undo, Env,
}
use warden_core.Tx.{Action, writes, ◌>>=◌}
use warden_core.Tx.Keeps.{Keeps}
use warden_core.Store.{same_key, claimed, step_of, saga_of, is_command}
use warden_core.Prelude.{◌==◌}
use warden_core.Engine.Terminal.{
  move_saga, mark_unreachable_forward_steps_skipped, notify_unreachable_steps_skipped,
  handle_saga_completion, finalize_saga_compensated, emit_saga_failed_from_compensation,
  fail_saga_no_compensation_window,
}
use warden_core.Engine.Compensation.Walk.{
  compensation_build_failed, announce_undo, queue_undo, schedule_compensation_for_forward,
  record_spawn_undo, compensate_spawn_sagas_forward, undo_forward, advance_lifo_compensation,
}
use warden_core.Engine.Failure.{compensate_from, apply_step_failure_lifecycle, fail_step}
use warden_core.Engine.Hold.{
  enter_hitl_hold, resume_saga_running_from_hitl, is_result_key, clear_worker_result_ingest_dedup,
  reset_step_for_hitl_retry,
}
use warden_core.Ledger.Slots.{unique-keep, messages-keep}
use warden_core.Ledger.Relation.{is_result, is_result_number, Extends, SameStep-refl, SameSaga-refl}
use warden_core.Ledger.Primitives.{primitive_rules}

pub Extends-move_saga :
    (t : String) (to : SagaStatus) (reason : String) → Keeps Extends (move_saga t to reason)
unfolding move_saga
Extends-move_saga t to reason = search primitive_rules depth 12

Extends-mark_unreachable : (t : String) → Keeps Extends (mark_unreachable_forward_steps_skipped t)
unfolding mark_unreachable_forward_steps_skipped
Extends-mark_unreachable t = search primitive_rules depth 12

Extends-notify_unreachable :
    (t reason : String) → Keeps Extends (notify_unreachable_steps_skipped t reason)
unfolding notify_unreachable_steps_skipped
Extends-notify_unreachable t reason = search (primitive_rules, Extends-mark_unreachable) depth 12

pub Extends-enter_hitl_hold :
    (t i : String) (payload : Json) → Keeps Extends (enter_hitl_hold t i payload)
unfolding enter_hitl_hold
Extends-enter_hitl_hold t i payload = search primitive_rules depth 12

pub Extends-resume : (t reason : String) → Keeps Extends (resume_saga_running_from_hitl t reason)
unfolding resume_saga_running_from_hitl
Extends-resume t reason = search (primitive_rules, Extends-move_saga) depth 12

pub Extends-reset_step :
    (env : Env) (t i : String) → Keeps Extends (reset_step_for_hitl_retry env t i)
unfolding reset_step_for_hitl_retry
Extends-reset_step env t i = search primitive_rules depth 12

-- A key other than a worker's results is not dropped.
number-is_result :
    (a b : ℕ) → is_result_number a ≡ false → eqb a b ≡ true → (eqb b 1 ≡ false) × (eqb b 2 ≡ false)
number-is_result a b h e = ground arith

not_dropped :
    (p q r s e f g : Bool) → e ≡ false → f ≡ false → not ((p && e && r) || (q && f && s)) ≡ true
not_dropped p q r s e f g he hf = ground arith

result_key-is_result :
    (t i : String) (j k : Key)
    → is_result k ≡ false
    → same_key k j ≡ true
    → not (is_result_key t i j) ≡ true
unfolding same_key
result_key-is_result t i (event_key u e v) (event_key u' e' v') h same =
    let (one, two) = number-is_result (event_number e') (event_number e) h (ground arith) in
    not_dropped (u == t) (u == t) (v == i) (v == i) _ _ false one two
result_key-is_result t i (text_key k) (text_key k') h same = refl
result_key-is_result t i (event_key u e v) (text_key k') h same = ground arith
result_key-is_result t i (text_key k) (event_key u' e' v') h same = ground arith

clear_keys :
    (t i : String) (k : Key) (ks : List Key)
    → is_result k ≡ false
    → exists (same_key k) ks ≡ true
    → exists (same_key k) (keep (λ j. not (is_result_key t i j)) ks) ≡ true
clear_keys t i k ks h e =
    exists-keep (same_key k) (λ j. not (is_result_key t i j)) (λ j. result_key-is_result t i j k h)
      ks e

abbrev is_other_result : String → String → String → Message → Bool
is_other_result t i n m =
    not (m.namespace == n && not (is_command m.payload) && is_result_key t i m.key)

clear_commands :
    (t i n : String) (m : Message) → is_command m.payload ≡ true → is_other_result t i n m ≡ true
clear_commands t i n m h = ground arith

pub Extends-clear : (t i n : String) → Keeps Extends (clear_worker_result_ingest_dedup t i n)
unfolding clear_worker_result_ingest_dedup writes ◌>>=◌ claimed step_of saga_of
Extends-clear t i n = record {
  at = λ w. record {
    steps = λ j q h. (q, h, SameStep-refl q);
    sagas = λ u q h. (q, h, SameSaga-refl q);
    commands = λ m c h.
        rw (messages-keep (is_other_result t i n) w.outbox)
          (mem-keep _ (messages w.outbox) (clear_commands t i n m c) h);
    keys = λ k c h. clear_keys t i k w.ingested c h;
    outbox = λ h.
        rw (messages-keep (is_other_result t i n) w.outbox) (unique-keep _ (messages w.outbox) h);
  };
}

pub Extends-record_spawn_undo :
    (env : Env) (wake : String → Action) (t : String) (r : Step)
    → Keeps Extends (record_spawn_undo env wake t r)
unfolding record_spawn_undo
Extends-record_spawn_undo env wake t r = search primitive_rules depth 12

ruleset ending_rules = (primitive_rules, Extends-move_saga, Extends-notify_unreachable)

module _ (env : Env) {wake : String → Action} (wakes : (t : String) → Keeps Extends (wake t)) where
  pub Extends-completion : (t : String) → Keeps Extends (handle_saga_completion env wake t)
  unfolding handle_saga_completion
  Extends-completion t = search (ending_rules, wakes) depth 12

  Extends-finalize : (t : String) → Keeps Extends (finalize_saga_compensated env wake t)
  unfolding finalize_saga_compensated
  Extends-finalize t = search (ending_rules, wakes) depth 12

  pub Extends-emit_failed :
      (t reason : String) (span : Option String) (given : Option Json)
      → Keeps Extends (emit_saga_failed_from_compensation env wake t reason span given)
  unfolding emit_saga_failed_from_compensation
  Extends-emit_failed t reason span given = search (ending_rules, wakes) depth 12

  pub Extends-no_window :
      (t : String) (r : Step) (raw : Json)
      → Keeps Extends (fail_saga_no_compensation_window env wake t r raw)
  unfolding fail_saga_no_compensation_window
  Extends-no_window t r raw = search (ending_rules, wakes) depth 12

  Extends-build_failed :
      (t : String) (r : Step) (message : String)
      → Keeps Extends (compensation_build_failed env wake t r message)
  unfolding compensation_build_failed
  Extends-build_failed t r message = search (primitive_rules, Extends-emit_failed) depth 12

  Extends-announce_undo :
      (saga : Saga) (r : Step) (u : Undo) (i : String)
      → Keeps Extends (announce_undo env wake saga r u i)
  unfolding announce_undo
  Extends-announce_undo saga r u i = search primitive_rules depth 12

  Extends-queue_undo :
      (saga : Saga) (r : Step) (u : Undo) (i : String)
      → Keeps Extends (queue_undo env wake saga r u i)
  unfolding queue_undo
  Extends-queue_undo saga r u i = search (primitive_rules, Extends-announce_undo) depth 12

  Extends-schedule_undo :
      (t : String) (r : Step) → Keeps Extends (schedule_compensation_for_forward env wake t r)
  unfolding schedule_compensation_for_forward
  Extends-schedule_undo t r =
      search (primitive_rules, Extends-queue_undo, Extends-build_failed) depth 12

  module _ {advance : Action} (advances : Keeps Extends advance) where
    pub Extends-spawn_undo :
        (t : String) (r : Step)
        → Keeps Extends (compensate_spawn_sagas_forward env wake t r advance)
    unfolding compensate_spawn_sagas_forward
    Extends-spawn_undo t r = search (primitive_rules, Extends-record_spawn_undo) depth 12

    Extends-undo_forward :
        (t : String) (r : Step) → Keeps Extends (undo_forward env wake t r advance)
    unfolding undo_forward
    Extends-undo_forward t r =
        search (primitive_rules, Extends-spawn_undo, Extends-schedule_undo) depth 12

  pub Extends-walk : (t : String) (n : ℕ) → Keeps Extends (advance_lifo_compensation env wake t n)
  unfolding advance_lifo_compensation
  Extends-walk t zero = Extends-finalize t
  Extends-walk t (suc seq) =
      let below : Keeps Extends (advance_lifo_compensation env wake t seq) = Extends-walk t seq in
      search (primitive_rules, Extends-undo_forward) depth 12

  Extends-compensate_from :
      (t : String) (r : Step) (raw : Json) (n : ℕ)
      → Keeps Extends (compensate_from env wake t r raw n)
  unfolding compensate_from
  Extends-compensate_from t r raw zero = Extends-no_window t r raw
  Extends-compensate_from t r raw (suc seq) =
      search (primitive_rules, Extends-move_saga, Extends-walk) depth 12

  pub Extends-lifecycle :
      (t i : String) (raw : Json) → Keeps Extends (apply_step_failure_lifecycle env wake t i raw)
  unfolding apply_step_failure_lifecycle
  Extends-lifecycle t i raw =
      search (primitive_rules, Extends-move_saga, Extends-compensate_from) depth 12

  pub Extends-fail_step :
      (t i code message : String) → Keeps Extends (fail_step env wake t i code message)
  unfolding fail_step
  Extends-fail_step t i code message = Extends-lifecycle t i _
