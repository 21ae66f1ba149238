-- ===== src/Linking/Stable.antt =====
-- The link of a blueprint on two catalogs (Catalog/Tables).
use warden_core.Prelude.{
  String, ◌≡◌, refl, sym, ap, ◌∙◌, Bool, true, false, ◌&&◌, none, some, List, [], ◌∷◌, inl, inr,
  Option-cases, arith,
}
use mathlib.Core.Bool.{true≢false}
use warden_core.Model.{Env}
use warden_core.Catalog.Checked.{Pin, Failure, Checked, ok, refused, all}
use warden_core.Catalog.Parts.{is_empty}
use warden_core.Catalog.Steps.{StepBlueprint, parse_step_blueprint}
use warden_core.Catalog.Sagas.{Blueprint, SagaStepRef, SagaStep}
use warden_core.Catalog.Tables.{
  Row, find_row, load_step_blueprint, Loaded, Gathered, gather, gather_all, nothing, settle,
  collect_authoring_step_refs, load_catalog_for_authoring, link,
}
use warden_core.Linking.Binds.{succeeded, ok-inj}
use warden_core.Linking.Rows.{Fixed}

-- A version that is there and active.
abbrev pub is_active_at : String → List (Row StepBlueprint) → Pin → Bool
is_active_at namespace rows p = elim (find_row namespace p.name p.version rows) [
  | none ↦ false
  | some r ↦ r.is_active
]

module _ (namespace : String) {rows rows' : List (Row StepBlueprint)}
    (fixed : Fixed rows rows') where
  -- A step that could be loaded is loaded again, if it is active.
  loads_again :
      (p : Pin) {b : StepBlueprint}
      → load_step_blueprint rows namespace p ≡ ok b
      → is_active_at namespace rows' p ≡ true
      → load_step_blueprint rows' namespace p ≡ ok b
  unfolding load_step_blueprint
  loads_again p {b} h a = elim (Option-cases (find_row namespace p.name p.version rows)) [
    | inl gone ↦ absurd (ground arith)
    | inr (r, found) ↦
        let (r', found', same) = fixed.kept namespace p.name p.version r found in
        let parsed : parse_step_blueprint r.body ≡ ok b = ground arith in
        let live : r'.is_active ≡ true = rw (found', is_active_at) at a in
        rw (found', load_step_blueprint, live, same) parsed
  ]

-- What has gathered no failure has loaded every reference.
abbrev pub is_clean : Gathered → Bool
is_clean g = is_empty g.missing && is_empty g.disabled

-- A reference that leaves the gathered steps clean was loaded.
clean_step :
    (p : Pin) (m : Checked StepBlueprint) (g : Gathered) {next : Gathered}
    → gather p m g ≡ ok next
    → is_clean next ≡ true
    → (is_clean g ≡ true) × (b : StepBlueprint) × (m ≡ ok b)
clean_step p (ok b) g h c = (rw (← ok-inj h) at c, b, refl)
clean_step p (refused (Failure.not_found kind ps)) g h c =
    absurd (true≢false (sym c ∙ ap is_clean (sym (ok-inj h))))
clean_step p (refused (Failure.inactive kind ps)) g h c =
    let no : (is_empty g.missing && false) ≡ true = rw (← ok-inj h) at c in absurd (ground arith)
clean_step p (refused (Failure.invalid t)) g h c = absurd (ground arith)
clean_step p (refused (Failure.immutable_version kind q)) g h c = absurd (ground arith)
clean_step p (refused Failure.key_error) g h c = absurd (ground arith)

module _ (load load' : Pin → Checked StepBlueprint) (is_live : Pin → Bool)
    (again : (p : Pin) (b : StepBlueprint)
      → load p ≡ ok b
      → is_live p ≡ true
      → load' p ≡ ok b) where
  gathers_again :
      (ps : List Pin) (g : Gathered) {out : Gathered}
      → gather_all load ps g ≡ ok out
      → is_clean out ≡ true
      → all is_live ps ≡ true
      → (is_clean g ≡ true) × (gather_all load' ps g ≡ ok out)
  unfolding gather_all all
  gathers_again [] g h c live = (rw (← ok-inj h) at c, h)
  gathers_again (p ∷ ps) g h c live =
      let (next, e, rest) = succeeded (gather p (load p) g) _ h in
      let (clean, done) = gathers_again ps next rest c (ground arith) in
      let (start, b, loaded) = clean_step p (load p) g e clean in
      let step : gather p (load' p) g ≡ ok next =
        ap (λ m. gather p m g) (again p b loaded (ground arith) ∙ sym loaded) ∙ e in
      (start, rw step done)

settled_clean : (g : Gathered) {loaded : List Loaded} → settle g ≡ ok loaded → is_clean g ≡ true
settled_clean g h = ground arith

module _ (env : Env) (compiles : String → Bool) where
  -- Where a blueprint is linked to the steps of a table, and each version that the table has is kept
  -- with its body, it links to the same result later, if the versions it refers to are active then.
  pub link-again :
      (namespace : String) (rows rows' : List (Row StepBlueprint)) (b : Blueprint SagaStepRef)
      {h : Blueprint SagaStep}
      → Fixed rows rows'
      → link env compiles rows namespace b ≡ ok h
      → all (is_active_at namespace rows') (collect_authoring_step_refs b) ≡ true
      → link env compiles rows' namespace b ≡ ok h
  unfolding link load_catalog_for_authoring
  link-again namespace rows rows' b fixed linked live =
      let (loaded, found, hydrated) =
        succeeded (load_catalog_for_authoring rows namespace b) _ linked in
      let (g, gathered, settled) =
        succeeded
          (gather_all (load_step_blueprint rows namespace) (collect_authoring_step_refs b) nothing)
          _ found in
      let (_, same) =
        gathers_again (load_step_blueprint rows namespace) (load_step_blueprint rows' namespace)
          (is_active_at namespace rows') (λ p x. loads_again namespace fixed p)
          (collect_authoring_step_refs b) nothing gathered (settled_clean g settled) live in
      rw (same, settled) hydrated
