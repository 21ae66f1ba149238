-- ===== src/Ledger/Primitives.antt =====
-- The relation Extends for the queries and updates of Store.antt.
use native.Mathlib.Nat.{le_refl}
use warden_core.Prelude.{
  String, ◌≡◌, refl, inl, inr, Bool-cases, ap, Bool, true, false, List, [], ◌∷◌, ◌++◌, ◌==◌,
  if◌then◌else◌, exists, arith,
}
use warden_core.Prelude.Search.{find_first-update_where, find_first-append, mem-append_left}
use warden_core.Model.{Saga, Step, SagaChild, Key, Message, messages, Hook, World, Env}
use warden_core.Tx.{pure, reads, writes, ◌>>=◌}
use warden_core.Tx.Keeps.{Keeps, IsPreorder, keeps_rules}
use warden_core.Store.{
  has_trace, has_span, step_of, saga_of, get_saga, get_step, find_step, save_saga, save_step,
  update_steps, hook, now, draw, create_step, same_slot, post, insert_message, emit, claimed,
  claim_ingest, release_worker_claim_for_retry,
}
use warden_core.Ledger.Slots.{unique-append, messages-append}
use warden_core.Ledger.Relation.{
  SameStep, SameSaga, is_result, Extends, SameStep-refl, SameSaga-refl, Extends-order,
}

pub ruleset extends_rules = (keeps_rules, Extends-order)

-- An update that leaves these four tables alone.
abbrev pub Untouched : World → World → Type 0
Untouched w w' =
    (w'.steps ≡ w.steps)
    × (w'.sagas ≡ w.sagas)
    × (w'.outbox ≡ w.outbox)
    × (w'.ingested ≡ w.ingested)

pub Extends-Untouched : {w w' : World} → Untouched w w' → Extends w w'
unfolding step_of saga_of claimed
Extends-Untouched (ps, pg, po, pi) = record {
  steps = λ i r h. (r, rw ps h, SameStep-refl r);
  sagas = λ t s h. (s, rw pg h, SameSaga-refl s);
  commands = λ m c h. rw po h;
  keys = λ k c h. rw pi h;
  outbox = λ h. rw po h;
}

pub Extends-reads : {A : Type 0} (f : World → A) → Keeps Extends (reads f)
Extends-reads f = search extends_rules

pub Extends-hook : (h : Hook) → Keeps Extends (hook h)
unfolding hook writes
Extends-hook h = record { at = λ w. Extends-Untouched (refl, refl, refl, refl) }

pub Extends-draw : (env : Env) → Keeps Extends (draw env)
unfolding draw writes ◌>>=◌ reads pure
Extends-draw env = record { at = λ w. Extends-Untouched (refl, refl, refl, refl) }

pub Extends-children :
    (f : World → List SagaChild) → Keeps Extends (writes (λ w. record w { children = f w }))
unfolding writes
Extends-children f = record { at = λ w. Extends-Untouched (refl, refl, refl, refl) }

pub Extends-release : (k : String) → Keeps Extends (release_worker_claim_for_retry k)
unfolding release_worker_claim_for_retry writes
Extends-release k = record { at = λ w. Extends-Untouched (refl, refl, refl, refl) }

pub Extends-get_saga : (t : String) → Keeps Extends (get_saga t)
unfolding get_saga
Extends-get_saga t = search extends_rules

pub Extends-get_step : (i : String) → Keeps Extends (get_step i)
unfolding get_step
Extends-get_step i = search extends_rules

pub Extends-find_step : (t i : String) → Keeps Extends (find_step t i)
unfolding find_step
Extends-find_step t i = search extends_rules

pub Extends-now : Keeps Extends now
unfolding now
Extends-now = search extends_rules

-- An update of step rows that keeps their identity, whichever rows it picks.
abbrev if_then : {A : Type 0} → Bool → A → A → A
if_then true a b = a
if_then false a b = b

SameStep-if : (b : Bool) (r r' : Step) → SameStep r r' → SameStep r (if b then r' else r)
SameStep-if true r r' h = h
SameStep-if false r r' h = SameStep-refl r

pub Extends-update_steps :
    (p : Step → Bool) (f : Step → Step)
    → ((r : Step) → SameStep r (f r))
    → Keeps Extends (update_steps p f)
unfolding update_steps writes step_of saga_of claimed
Extends-update_steps p f same = record {
  at = λ w. record {
    steps = λ i r h. (
      if p r then f r else r,
      find_first-update_where (has_span i) p f (λ x. ap (λ s. s == i) (same x).span_id) w.steps h,
      SameStep-if (p r) r (f r) (same r),
    );
    sagas = λ t s h. (s, h, SameSaga-refl s);
    commands = λ m c h. h;
    keys = λ k c h. h;
    outbox = λ h. h;
  };
}

pub Extends-save_step :
    (i : String) (f : Step → Step) → ((r : Step) → SameStep r (f r)) → Keeps Extends (save_step i f)
unfolding save_step update_steps
Extends-save_step i f same = Extends-update_steps (has_span i) f same

SameSaga-if : (b : Bool) (s s' : Saga) → SameSaga s s' → SameSaga s (if b then s' else s)
SameSaga-if true s s' h = h
SameSaga-if false s s' h = SameSaga-refl s

pub Extends-save_saga :
    (t : String) (f : Saga → Saga) → ((s : Saga) → SameSaga s (f s)) → Keeps Extends (save_saga t f)
unfolding save_saga writes step_of saga_of claimed
Extends-save_saga t f same = record {
  at = λ w. record {
    steps = λ i r h. (r, h, SameStep-refl r);
    sagas = λ u s h. (
      if has_trace t s then f s else s,
      find_first-update_where (has_trace u) (has_trace t) f
          (λ x. ap (λ y. y == u) (same x).trace_id) w.sagas h,
      SameSaga-if (has_trace t s) s (f s) (same s),
    );
    commands = λ m c h. h;
    keys = λ k c h. h;
    outbox = λ h. h;
  };
}

pub Extends-add_step :
    (r : Step) → Keeps Extends (writes (λ w. record w { steps = w.steps ++ r ∷ [] }))
unfolding writes step_of saga_of claimed
Extends-add_step r = record {
  at = λ w. record {
    steps = λ i q h. (q, find_first-append (has_span i) w.steps (r ∷ []) h, SameStep-refl q);
    sagas = λ t s h. (s, h, SameSaga-refl s);
    commands = λ m c h. h;
    keys = λ k c h. h;
    outbox = λ h. h;
  };
}

pub Extends-create_step : (r : Step) → Keeps Extends (create_step r)
unfolding create_step
Extends-create_step r = search (extends_rules, Extends-add_step)

pub Extends-add_saga :
    (s : Saga) → Keeps Extends (writes (λ w. record w { sagas = w.sagas ++ s ∷ [] }))
unfolding writes step_of saga_of claimed
Extends-add_saga s = record {
  at = λ w. record {
    steps = λ i q h. (q, h, SameStep-refl q);
    sagas = λ t q h. (q, find_first-append (has_trace t) w.sagas (s ∷ []) h, SameSaga-refl q);
    commands = λ m c h. h;
    keys = λ k c h. h;
    outbox = λ h. h;
  };
}

added :
    (m : Message) (w : World)
    → exists (same_slot m) (messages w.outbox) ≡ false
    → Extends w (post m w)
unfolding step_of saga_of claimed
added m w free = record {
  steps = λ i q h. (q, h, SameStep-refl q);
  sagas = λ t q h. (q, h, SameSaga-refl q);
  commands =
      λ n c h. rw (messages-append w.outbox _) (mem-append_left (messages w.outbox) (m ∷ []) h);
  keys = λ k c h. h;
  outbox = λ u. rw (messages-append w.outbox _) (unique-append m (messages w.outbox) free u);
}

Extends-insert_message : (m : Message) → Keeps Extends (insert_message m)
unfolding insert_message ◌>>=◌ reads writes pure
Extends-insert_message m = record {
  at = λ w. elim (Bool-cases (exists (same_slot m) (messages w.outbox))) [
    | inl t ↦ rw t (Extends-order.reflexive w)
    | inr f ↦ rw f (added m w f)
  ];
}

pub Extends-emit : (env : Env) (m : Message) → Keeps Extends (emit env m)
unfolding emit
Extends-emit env m = search (extends_rules, Extends-insert_message)

pub Extends-claim_ingest : (k : Key) → Keeps Extends (claim_ingest k)
unfolding claim_ingest writes step_of saga_of claimed exists
Extends-claim_ingest k = record {
  at = λ w. record {
    steps = λ i q h. (q, h, SameStep-refl q);
    sagas = λ t q h. (q, h, SameSaga-refl q);
    commands = λ n c h. h;
    keys = λ j c h. ground arith;
    outbox = λ h. h;
  };
}

pub ruleset primitive_rules = (
  extends_rules, Extends-hook, Extends-draw, Extends-release, Extends-get_saga, Extends-get_step,
  Extends-find_step, Extends-now, Extends-update_steps, Extends-save_step, Extends-save_saga,
  Extends-create_step, Extends-emit, Extends-claim_ingest, le_refl,
)
