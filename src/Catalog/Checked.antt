-- ===== src/Catalog/Checked.antt =====
-- Results of validation: the exceptions of common/catalog_errors.py and ValueError, with their
-- messages shortened, and the tests on lists of names that the validators share.
use warden_core.Prelude.{
  String, Bool, true, false, not, ◌&&◌, Option, none, some, List, [], ◌∷◌, ◌==◌, exists,
}

-- A definition's name and version.
pub record Pin : Type 0 where
  pub name : String
  pub version : String

-- `invalid` is ValueError (which ValidationError is too); the names in `not_found` and `inactive` are
-- all those that the message lists. `key_error` is
-- KeyError, which no caller expects.
pub data Failure : Type 0 where
  invalid : String → Failure
  not_found : String → List Pin → Failure
  inactive : String → List Pin → Failure
  immutable_version : String → Pin → Failure
  key_error : Failure

-- What a validator returns, or the exception that it raises.
pub data Checked {κ} (Value : Type κ) : Type κ where
  refused : Failure → Checked Value
  ok : Value → Checked Value

-- `if not condition: raise …`
abbrev pub require : (condition : Bool) (otherwise : Failure) → Checked (Unit {0})
require false otherwise = refused otherwise
require true otherwise = ok tt

infixl 5 ◌>>=◌
abbrev pub ◌>>=◌ {κ μ} :
    {A : Type κ} {B : Type μ} (m : Checked A) (next : A → Checked B) → Checked B
refused failure >>= next = refused failure
ok value >>= next = next value

infixl 5 ◌>>◌
abbrev pub ◌>>◌ {μ} : {B : Type μ} (test : Checked (Unit {0})) (next : Checked B) → Checked B
test >> next = test >>= λ passed. next

abbrev pub demand : Bool → String → Checked (Unit {0})
demand b message = require b (invalid message)

module _ {ℓ κ} {A : Type ℓ} {B : Type κ} (f : A → Checked B) where
  -- `[f(x) for x in xs]`, where `f` may raise
  unfoldable pub each : List A → Checked (List B)
  each [] = ok []
  each (x ∷ xs) = do y ← f x; ys ← each xs; ok (y ∷ ys)

  unfoldable pub each_some : Option A → Checked (Option B)
  each_some none = ok none
  each_some (some x) = do y ← f x; ok (some y)

unfoldable pub all {ℓ} : {A : Type ℓ} → (A → Bool) → List A → Bool
all p [] = true
all p (x ∷ xs) = p x && all p xs

abbrev pub is_in : List String → String → Bool
is_in xs k = exists (λ x. x == k) xs

-- `len(xs) == len(set(xs))`
unfoldable pub distinct : List String → Bool
distinct [] = true
distinct (x ∷ xs) = not (is_in xs x) && distinct xs
