-- ===== src/Linking/Binds.antt =====
-- Chains of checks that succeed.
use warden_core.Prelude.{String, Bool, true, false, ◌≡◌, refl, subst, List, [], ◌∷◌, map, arith}
use warden_core.Catalog.Checked.{Failure, Checked, ok, refused, ◌>>=◌, ◌>>◌, demand, each}

-- A bind that succeeds goes on from the value that its first part can have.
pub bind_from {ℓ κ μ} :
    {A : Type ℓ} {B : Type κ} {P : Type μ} (m : Checked A) (f : A → Checked B) (v : A) {b : B}
    → ((a : A) → m ≡ ok a → (a ≡ v) × P)
    → (m >>= f) ≡ ok b
    → (f v ≡ ok b) × P
bind_from (ok a) f v {b} known h = (subst (λ x. f x ≡ ok b) (known a refl).0 h, (known a refl).1)
bind_from (refused e) f v known h = absurd (ground arith)

-- A bind that succeeds has a first part that succeeds, with a value that is a variable of what
-- follows.
pub on_success {ℓ κ μ} :
    {A : Type ℓ} {B : Type κ} {P : Type μ} (m : Checked A) (f : A → Checked B) {b : B}
    → (m >>= f) ≡ ok b
    → ((a : A) → m ≡ ok a → f a ≡ ok b → P)
    → P
on_success (ok a) f h k = k a refl h
on_success (refused e) f h k = absurd (ground arith)

-- The same as a pair.
pub succeeded {ℓ κ} :
    {C : Type κ} {A : Type ℓ} (check : Checked A) (next : A → Checked C) {result : C}
    → (check >>= next) ≡ ok result
    → (value : A) × (check ≡ ok value) × (next value ≡ ok result)
succeeded check next h = on_success check next h λ value first rest. (value, first, rest)

-- A test that a chain of checks got past.
pub demanded {ℓ} :
    {B : Type ℓ} (b : Bool) (message : String) (k : Checked B) {y : B}
    → (demand b message >> k) ≡ ok y
    → (b ≡ true) × (k ≡ ok y)
demanded true message k h = (refl, h)
demanded false message k h = absurd (ground arith)

pub demanded-last : (b : Bool) (message : String) → demand b message ≡ ok tt → b ≡ true
demanded-last true message h = refl
demanded-last false message h = absurd (ground arith)

-- What holds of each value that a check yields.
pub record Ensures {A : Type 0} (P : A → Type 0) (m : Checked A) : Type 0 where
  pub holds : (a : A) → m ≡ ok a → P a

module _ {A : Type 0} {P : A → Type 0} where
  pub Ensures-ok : (a : A) → P a → Ensures P (ok a)
  Ensures-ok a p = record { holds = λ b h. subst P (ground arith) p }

  pub Ensures-refused : (e : Failure) → Ensures P (refused e)
  Ensures-refused e = record { holds = λ b h. absurd (ground arith) }

  pub Ensures-bind :
      {B : Type 0} (m : Checked B) (f : B → Checked A)
      → ((b : B) → Ensures P (f b))
      → Ensures P (m >>= f)
  Ensures-bind (ok b) f k = k b
  Ensures-bind (refused e) f k = Ensures-refused e

pub ok-inj : {A : Type 0} {a b : A} → ok a ≡ ok b → a ≡ b
ok-inj h = cc

module _ {A B : Type 0} (f : A → Checked B) where
  pub each-cons :
      (x : A) (xs : List A) {zs : List B}
      → each f (x ∷ xs) ≡ ok zs
      → (y : B) × (ys : List B) × (f x ≡ ok y) × (each f xs ≡ ok ys) × (zs ≡ y ∷ ys)
  unfolding each
  each-cons x xs h =
      let (y, e, h1) = succeeded (f x) _ h in
      let (ys, es, h2) = succeeded (each f xs) _ h1 in (y, ys, e, es, ground arith)

  -- What a check leaves alone, it leaves alone in every element of a list.
  pub each-map :
      {C : Type 0} (p : A → C) (q : B → C)
      → ((x : A) (y : B) → f x ≡ ok y → q y ≡ p x)
      → (xs : List A) {ys : List B} → each f xs ≡ ok ys
      → map q ys ≡ map p xs
  unfolding each
  each-map p q same [] {ys} h = ground arith
  each-map p q same (x ∷ xs) h =
      let (y, ys, e, es, shape) = each-cons x xs h in
      rw (shape, same x y e, each-map p q same xs es) refl
