-- ===== src/Linking/Rows.antt =====
-- The rows of a table under an INSERT behind the unique index, and under the switch of a definition
-- (Catalog/Registry).
use warden_core.Prelude.{
  String, ◌≡◌, refl, ◌∙◌, Bool, true, false, not, ◌&&◌, some, List, [], ◌∷◌, ◌++◌, eq_iff, exists,
  update_where, arith, inl, inr, Bool-cases, if◌then◌else◌,
}
use warden_core.Prelude.Search.{find_first-append, find_first-update_where, exists-update_where}
use warden_core.Catalog.Checked.{Pin, ok}
use warden_core.Catalog.Tables.{Row, has_identity, find_row}
use warden_core.Catalog.Registry.{create_definition, set_definition_active}

module _ {A : Type 0} where
  abbrev pub same_identity : Row A → Row A → Bool
  same_identity r = has_identity r.namespace r.name r.version

  -- No two rows share namespace, name and version.
  unfoldable pub is_apart : List (Row A) → Bool
  is_apart [] = true
  is_apart (r ∷ rs) = not (exists (same_identity r) rs) && is_apart rs

  pub record Fixed (rows rows' : List (Row A)) : Type 0 where
    pub apart : is_apart rows ≡ true → is_apart rows' ≡ true
    pub kept :
        (namespace name version : String) (r : Row A)
        → find_row namespace name version rows ≡ some r
        → (r' : Row A) × (find_row namespace name version rows' ≡ some r') × (r'.body ≡ r.body)

  pub Fixed-refl : (rows : List (Row A)) → Fixed rows rows
  Fixed-refl rows = record { apart = λ a. a; kept = λ s n v r h. (r, h, refl) }

  pub Fixed-trans : {xs ys zs : List (Row A)} → Fixed xs ys → Fixed ys zs → Fixed xs zs
  Fixed-trans f g = record {
    apart = λ a. g.apart (f.apart a);
    kept = λ s n v r h.
        let (r', found, same) = f.kept s n v r h in
        let (r'', found', same') = g.kept s n v r' found in (r'', found', same' ∙ same);
  }

  identity_flip : (r x : Row A) → same_identity r x ≡ false → same_identity x r ≡ false
  identity_flip r x h = ground (
    arith,
    eq_iff x.namespace r.namespace,
    eq_iff r.namespace x.namespace,
    eq_iff x.name r.name,
    eq_iff r.name x.name,
    eq_iff x.version r.version,
    eq_iff r.version x.version,
  )

  exists-last :
      (p : Row A → Bool) (r : Row A) (rows : List (Row A))
      → exists p rows ≡ false
      → p r ≡ false
      → exists p (rows ++ r ∷ []) ≡ false
  unfolding exists
  exists-last p r [] h k = rw k refl
  exists-last p r (x ∷ xs) h k = ground (arith, exists-last p r xs)

  apart-last :
      (r : Row A) (rows : List (Row A))
      → exists (same_identity r) rows ≡ false
      → is_apart rows ≡ true
      → is_apart (rows ++ r ∷ []) ≡ true
  unfolding exists is_apart
  apart-last r [] h a = refl
  apart-last r (x ∷ xs) h a =
      ground (arith, identity_flip r x, exists-last (same_identity x) r xs, apart-last r xs)

  pub create_definition-Fixed :
      (kind : String) (r : Row A) (rows : List (Row A)) {rows' : List (Row A)}
      → create_definition kind r rows ≡ ok rows'
      → Fixed rows rows'
  unfolding create_definition
  create_definition-Fixed kind r rows {rows'} h =
      elim (Bool-cases (exists (same_identity r) rows)) [
        | inl taken ↦ absurd (ground arith)
        | inr free ↦
            let added : rows ++ r ∷ [] ≡ rows' = ground arith in
            rw (← added) (record {
              apart = apart-last r rows free;
              kept = λ s n v x found.
                  (x, find_first-append (has_identity s n v) rows (r ∷ []) found, refl);
            })
      ]

  module _ (namespace : String) (p : Pin) (active : Bool) where
    switched : Row A → Row A
    switched r = record r { is_active = active }

    apart-switch :
        (rows : List (Row A))
        → is_apart (set_definition_active namespace p active rows) ≡ is_apart rows
    unfolding set_definition_active update_where is_apart
    apart-switch [] = refl
    apart-switch (r ∷ rs) =
        let away =
          exists-update_where (same_identity r) (has_identity namespace p.name p.version)
            (λ x. record x { is_active = active }) (λ x. refl) rs in
        elim (Bool-cases (has_identity namespace p.name p.version r)) [
          | inl t ↦ rw (t, away, apart-switch rs) refl
          | inr f ↦ rw (f, away, apart-switch rs) refl
        ]

    body_kept :
        (r : Row A)
        → (if has_identity namespace p.name p.version r
            then record r { is_active = active }
            else r).body
          ≡ r.body
    body_kept r = ground arith

    pub set_definition_active-Fixed :
        (rows : List (Row A)) → Fixed rows (set_definition_active namespace p active rows)
    unfolding set_definition_active
    set_definition_active-Fixed rows = record {
      apart = λ a. apart-switch rows ∙ a;
      kept = λ s n v r found. (
        _,
        find_first-update_where (has_identity s n v) (has_identity namespace p.name p.version)
            (λ x. record x { is_active = active }) (λ x. refl) rows found,
        body_kept r,
      );
    }
