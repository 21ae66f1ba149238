-- ===== src/Behaviour/Redelivery.antt =====
-- The dedup and the transaction of process_saga_event (engine/logic.py).
use warden_core.Prelude.{
  ℕ, ◌≡◌, refl, Bool, true, false, eq_refl, inl, inr, Bool-cases, ◌∷◌, exists, arith,
}
use warden_core.Model.{Event, Key, event_key, text_key, ingest_deduplicated, World, Env}
use warden_core.Tx.{Outcome, done, raised, reads, writes, ◌>>=◌, in_transaction, settle}
use warden_core.Store.{same_key, claimed, claim_ingest, hook}
use warden_core.Engine.Chain.{chain}
use warden_core.Engine.Handlers.{
  ingest_key, notify_skipped_ingest, handle_claimed, handle_event, ingest, process_saga_event,
}
use warden_core.Ledger.Relation.{is_result}
use warden_core.Ledger.Ingest.{Extends-after_claim, Extends-skipped}
use warden_core.Ledger.Dispatch.{chain-Extends}

same_key_refl : (k : Key) → same_key k k ≡ true
unfolding same_key
same_key_refl (event_key t e i) = rw (eq_refl t, eq_refl i) (ground arith)
same_key_refl (text_key k) = eq_refl k

-- An event whose key is claimed changes nothing but the audit.
claimed-skips :
    (env : Env) (fuel : ℕ) (e : Event) (w : World)
    → claimed (ingest_key e) w ≡ true
    → process_saga_event env fuel e w ≡ (
      done tt,
      record w { audit = ingest_deduplicated (ingest_key e) "processed_ingest_claim" ∷ w.audit },
    )
unfolding process_saga_event ingest notify_skipped_ingest in_transaction ◌>>=◌ reads hook writes
claimed-skips env fuel e w h = rw h refl

-- A claimed event key stays claimed while its event is handled.
key_stays :
    (env : Env) (fuel : ℕ) (e : Event) (w : World)
    → is_result (ingest_key e) ≡ false
    → claimed (ingest_key e) w ≡ true
    → claimed (ingest_key e) (handle_claimed env (chain env fuel) e w).1 ≡ true
key_stays env fuel e w h c =
    ((Extends-after_claim env (chain-Extends env fuel) e).at w).keys (ingest_key e) h c

fresh-claims :
    (env : Env) (fuel : ℕ) (e : Event) (w : World)
    → is_result (ingest_key e) ≡ false
    → claimed (ingest_key e) (handle_event env (chain env fuel) e w).1 ≡ true
unfolding handle_event claim_ingest claimed ◌>>=◌ writes exists
fresh-claims env fuel e w h = key_stays env fuel e _ h (rw (same_key_refl (ingest_key e)) refl)

ingest-claims :
    (env : Env) (fuel : ℕ) (e : Event) (w : World)
    → is_result (ingest_key e) ≡ false
    → claimed (ingest_key e) (ingest env (chain env fuel) e w).1 ≡ true
unfolding ingest ◌>>=◌ reads
ingest-claims env fuel e w h = elim (Bool-cases (claimed (ingest_key e) w)) [
  | inl t ↦ rw t (((Extends-skipped e _).at w).keys (ingest_key e) h t)
  | inr f ↦ rw f (fresh-claims env fuel e w h)
]

abbrev pub is_done : {A : Type 0} → Outcome A → Bool
is_done (done a) = true
is_done (raised e) = false

settled-claims :
    (k : Key) (w w' : World) (r : Outcome (Unit {0}))
    → is_done (settle w r w').0 ≡ true
    → claimed k w' ≡ true
    → claimed k (settle w r w').1 ≡ true
settled-claims k w w' (done a) h c = c
settled-claims k w w' (raised x) h c = ground arith

process-claims :
    (env : Env) (fuel : ℕ) (e : Event) (w : World)
    → is_result (ingest_key e) ≡ false
    → is_done (process_saga_event env fuel e w).0 ≡ true
    → claimed (ingest_key e) (process_saga_event env fuel e w).1 ≡ true
unfolding process_saga_event in_transaction
process-claims env fuel e w h d = settled-claims _ w _ _ d (ingest-claims env fuel e w h)

-- Once an event that is not a worker's result has been processed without an exception, processing an
-- event of the same key (the same saga, type and step, whatever else it carries) again returns,
-- changes no table, and only records the dedup in the audit.
pub process_saga_event-redelivered :
    (env : Env) (fuel fuel' : ℕ) (e e' : Event) (w : World)
    → is_result (ingest_key e) ≡ false
    → is_done (process_saga_event env fuel e w).0 ≡ true
    → ingest_key e' ≡ ingest_key e
    → let after = (process_saga_event env fuel e w).1 in
      process_saga_event env fuel' e' after ≡ (
        done tt,
        record after {
          audit = ingest_deduplicated (ingest_key e') "processed_ingest_claim" ∷ after.audit;
        },
      )
process_saga_event-redelivered env fuel fuel' e e' w h d same =
    claimed-skips env fuel' e' _ (rw same (process-claims env fuel e w h d))
