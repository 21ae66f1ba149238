-- ===== src/Linking/Once.antt =====
-- A second registration of a version of a worker or step (Catalog/Registry).
use warden_core.Prelude.{
  String, ◌≡◌, refl, ap, Bool, true, Option, some, none, List, [], ◌∷◌, ◌++◌, exists, find_first,
  inl, inr, Bool-cases, eq_refl, arith,
}
use warden_core.Prelude.Search.{find_first-last}
use warden_core.Model.{Env}
use warden_core.Catalog.Checked.{Pin, ok, refused, immutable_version, ◌>>=◌}
use warden_core.Catalog.Tables.{Row, Catalog, has_identity, find_row}
use warden_core.Catalog.Freeze.{Disk}
use warden_core.Catalog.Registry.{
  Write, worker_row, step_row, saga_row, apply_write, create_definition, new_row,
}
use warden_core.Linking.Binds.{on_success, ok-inj}
use warden_core.Linking.Immutable.{Changes, Changes-Immutable, Immutable}

pub data Table : Type 0 where
  worker_table step_table : Table

-- The place that a write takes for good; a saga definition may be written again.
pub record Slot : Type 0 where
  pub table : Table
  pub namespace : String
  pub pin : Pin

unfoldable pub slot_of : Write → Option Slot
slot_of (worker_row w) = some (record {
  table = Table.worker_table;
  namespace = w.namespace;
  pin = record { name = w.name; version = w.version };
})
slot_of (step_row b) = some (record {
  table = Table.step_table;
  namespace = b.namespace;
  pin = record { name = b.name; version = b.version };
})
slot_of (saga_row b) = none

pub kind_of_table : Table → String
kind_of_table Table.worker_table = "worker"
kind_of_table Table.step_table = "step"

module _ {A : Type 0} where
  -- A row of the identity is in the table.
  Taken : List (Row A) → String → Pin → Type 0
  Taken rows namespace p = (r : Row A) × (find_row namespace p.name p.version rows ≡ some r)

  found-exists :
      (p : Row A → Bool) (rows : List (Row A)) {x : Row A}
      → find_first p rows ≡ some x
      → exists p rows ≡ true
  unfolding find_first exists
  found-exists p [] h = absurd (ground arith)
  found-exists p (y ∷ ys) h = elim (Bool-cases (p y)) [
    | inl here ↦ rw here refl
    | inr on ↦ rw on (found-exists p ys (rw on at h))
  ]

  created-Taken :
      (kind : String) (r : Row A) (rows : List (Row A)) {rows' : List (Row A)}
      → create_definition kind r rows ≡ ok rows'
      → Taken rows' r.namespace (record { name = r.name; version = r.version })
  unfolding create_definition Taken
  created-Taken kind r rows {rows'} h =
      elim (Bool-cases (exists (has_identity r.namespace r.name r.version) rows)) [
        | inl taken ↦ absurd (ground arith)
        | inr free ↦
            let added : rows ++ r ∷ [] ≡ rows' = ground arith in
            rw (← added) (
              r,
              find_first-last (has_identity r.namespace r.name r.version) r rows (simp eq_refl)
                  free,
            )
      ]

  create_definition-Taken :
      (kind : String) (r : Row A) (rows : List (Row A))
      → Taken rows r.namespace (record { name = r.name; version = r.version })
      → create_definition kind r rows
        ≡ refused (immutable_version kind (record { name = r.name; version = r.version }))
  unfolding create_definition Taken
  create_definition-Taken kind r rows (x, found) =
      rw (found-exists (has_identity r.namespace r.name r.version) rows found) refl

Holds : Table → String → Pin → Catalog → Type 0
Holds Table.worker_table namespace p c = Taken c.workers namespace p
Holds Table.step_table namespace p c = Taken c.steps namespace p

slot-inj : {s t : Slot} → some s ≡ some t → s ≡ t
slot-inj h = cc

write-Holds :
    (w : Write) (c : Catalog) {d : Catalog} {s : Slot}
    → slot_of w ≡ some s
    → apply_write w c ≡ ok d
    → Holds s.table s.namespace s.pin d
unfolding slot_of apply_write Holds
write-Holds (worker_row w) c slot h =
    on_success (create_definition "worker" (new_row w.namespace w.name w.version w) c.workers) _ h
      λ rows created done. rw (← slot-inj slot, ← ok-inj done) (created-Taken _ _ c.workers created)
write-Holds (step_row b) c slot h =
    on_success (create_definition "step" (new_row b.namespace b.name b.version b) c.steps) _ h
      λ rows created done. rw (← slot-inj slot, ← ok-inj done) (created-Taken _ _ c.steps created)
write-Holds (saga_row b) c slot h = absurd (ground arith)

Immutable-Holds :
    (t : Table) (namespace : String) (p : Pin) {c d : Catalog}
    → Immutable c d
    → Holds t namespace p c
    → Holds t namespace p d
unfolding Holds Taken
Immutable-Holds Table.worker_table namespace p same (r, found) =
    let (r', found', _) = same.workers.kept namespace p.name p.version r found in (r', found')
Immutable-Holds Table.step_table namespace p same (r, found) =
    let (r', found', _) = same.steps.kept namespace p.name p.version r found in (r', found')

refused-Holds :
    (v : Write) (c : Catalog) {s : Slot}
    → slot_of v ≡ some s
    → Holds s.table s.namespace s.pin c
    → apply_write v c ≡ refused (immutable_version (kind_of_table s.table) s.pin)
unfolding slot_of apply_write Holds kind_of_table
refused-Holds (worker_row w) c slot h = rw (← slot-inj slot) (
    ap (λ m. m >>= λ rows. ok (record c { workers = rows }))
      (create_definition-Taken "worker" (new_row w.namespace w.name w.version w) c.workers
        (rw (← slot-inj slot) at h)))
refused-Holds (step_row b) c slot h = rw (← slot-inj slot) (
    ap (λ m. m >>= λ rows. ok (record c { steps = rows }))
      (create_definition-Taken "step" (new_row b.namespace b.name b.version b) c.steps
        (rw (← slot-inj slot) at h)))
refused-Holds (saga_row b) c slot h = absurd (ground arith)

module _ {env : Env} {disk : Disk} where
  -- After a worker or step was registered, whatever registrations and switches follow, a write
  -- under the same namespace, name and version is refused as immutable, whatever its body is, be
  -- the first one active or not.
  pub apply_write-once :
      (w v : Write) (s : Slot) (c d e : Catalog)
      → slot_of w ≡ some s
      → slot_of v ≡ some s
      → apply_write w c ≡ ok d
      → Changes env disk d e
      → apply_write v e ≡ refused (immutable_version (kind_of_table s.table) s.pin)
  apply_write-once w v s c d e first second written changes = refused-Holds v e second (
      Immutable-Holds s.table s.namespace s.pin (Changes-Immutable changes)
        (write-Holds w c first written))
