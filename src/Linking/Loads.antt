-- ===== src/Linking/Loads.antt =====
-- The load of the catalog steps that a blueprint refers to (Catalog/Tables: load_catalog_for_authoring
-- of engine/saga_hydrate.py).
use warden_core.Prelude.{
  String, ◌≡◌, refl, ◌∙◌, Bool, true, false, ◌&&◌, List, [], ◌∷◌, arith, ap, none, some, inl, inr,
  Option-cases, Bool-cases,
}
use std.Path.{fun_ext}
use warden_core.Catalog.Checked.{
  Pin, Checked, ok, refused, invalid, not_found, inactive, immutable_version, key_error, ◌>>=◌, all,
}
use warden_core.Catalog.Parts.{is_empty}
use warden_core.Catalog.Steps.{StepBlueprint, parse_step_blueprint}
use warden_core.Catalog.Sagas.{Blueprint, SagaStepRef}
use warden_core.Catalog.Tables.{
  Row, find_row, Loaded, Gathered, gather, gather_all, nothing, settle, collect_authoring_step_refs,
  load_step_blueprint, load_catalog_for_authoring,
}
use warden_core.Linking.Stable.{is_clean}

unfoldable pub is_ok {ℓ} : {A : Type ℓ} → Checked A → Bool
is_ok (ok a) = true
is_ok (refused e) = false

module _ (loaded : List Loaded) where
  settle-is_ok :
      (missing disabled : List Pin)
      → is_ok (settle (record { loaded = loaded; missing = missing; disabled = disabled }))
        ≡ (is_empty missing && is_empty disabled)
  unfolding is_ok
  settle-is_ok (p ∷ ps) disabled = refl
  settle-is_ok [] (p ∷ ps) = refl
  settle-is_ok [] [] = refl

and-false : (b : Bool) → false ≡ (b && false)
and-false true = refl
and-false false = refl

module _ (load : Pin → Checked StepBlueprint) (ps : List Pin) (rest : Bool)
    (later : (g : Gathered) → is_ok (gather_all load ps g >>= settle) ≡ (is_clean g && rest)) where
  -- One reference, whatever its load gave.
  gather-is_ok :
      (p : Pin) (m : Checked StepBlueprint) (g : Gathered)
      → is_ok ((gather p m g >>= gather_all load ps) >>= settle) ≡ (is_clean g && (is_ok m && rest))
  unfolding is_ok
  gather-is_ok p (ok b) g =
      later (record g { loaded = record { pin = p; blueprint = b } ∷ g.loaded })
  gather-is_ok p (refused (not_found kind qs)) g =
      later (record g { missing = p ∷ g.missing }) ∙ and-false (is_clean g)
  gather-is_ok p (refused (inactive kind qs)) g =
      later (record g { disabled = p ∷ g.disabled })
      ∙ rw (← and-false (is_empty g.missing)) (and-false (is_clean g))
  gather-is_ok p (refused (invalid t)) g = and-false (is_clean g)
  gather-is_ok p (refused (immutable_version kind q)) g = and-false (is_clean g)
  gather-is_ok p (refused key_error) g = and-false (is_clean g)

gather_all-is_ok :
    (load : Pin → Checked StepBlueprint) (ps : List Pin) (g : Gathered)
    → is_ok (gather_all load ps g >>= settle) ≡ (is_clean g && all (λ p. is_ok (load p)) ps)
unfolding gather_all all
gather_all-is_ok load [] g = settle-is_ok g.loaded g.missing g.disabled ∙ ground arith
gather_all-is_ok load (p ∷ ps) g = gather-is_ok load ps _ (gather_all-is_ok load ps) p (load p) g

-- The version that a reference pins is registered, active and valid.
pub is_loadable : List (Row StepBlueprint) → String → Pin → Bool
is_loadable rows namespace p = elim (find_row namespace p.name p.version rows) [
  | none ↦ false
  | some r ↦ r.is_active && is_ok (parse_step_blueprint r.body)
]

load_step_blueprint-is_ok :
    (rows : List (Row StepBlueprint)) (namespace : String) (p : Pin)
    → is_ok (load_step_blueprint rows namespace p) ≡ is_loadable rows namespace p
unfolding is_ok load_step_blueprint is_loadable
load_step_blueprint-is_ok rows namespace p =
    elim (Option-cases (find_row namespace p.name p.version rows)) [
      | inl gone ↦ rw (load_step_blueprint, is_loadable, gone) refl
      | inr (r, found) ↦ elim (Bool-cases r.is_active) [
        | inl live ↦ rw (load_step_blueprint, is_loadable, found, live) refl
        | inr off ↦ rw (load_step_blueprint, is_loadable, found, off) refl
      ]
    ]

-- The catalog steps of a blueprint are loaded exactly when every version that it refers to is
-- registered, active and valid.
pub load_catalog_for_authoring-is_ok :
    (rows : List (Row StepBlueprint)) (namespace : String) (b : Blueprint SagaStepRef)
    → is_ok (load_catalog_for_authoring rows namespace b)
      ≡ all (is_loadable rows namespace) (collect_authoring_step_refs b)
unfolding load_catalog_for_authoring
load_catalog_for_authoring-is_ok rows namespace b =
    gather_all-is_ok (load_step_blueprint rows namespace) (collect_authoring_step_refs b) nothing
    ∙ ap (λ test. all test (collect_authoring_step_refs b))
        (fun_ext (λ p. load_step_blueprint-is_ok rows namespace p))
