-- ===== src/Tx.antt =====
-- Code that runs inside one database transaction: it reads and writes the tables and may raise.
-- What was written before a raise stays written until the transaction rolls back, so an
-- `except` clause goes on from there; the tables come back beside the exception.
pub mod Keeps
use warden_core.Prelude.{
  String, Bool, true, false, Option, none, some, List, [], ◌∷◌, if◌then◌else◌,
}
use warden_core.Model.{StepStatus, World}

-- `value_error` is ValueError or pydantic's ValidationError (which is one), `unrecoverable` is
-- UnrecoverableError, `does_not_exist` the ORM's DoesNotExist, `integrity` its IntegrityError,
-- three errors of starting a saga (common/catalog_errors.py, engine/api/saga_errors.py), the errors of
-- engine/recovery_errors.py, and those of engine/hitl_decisions.py.
-- `out_of_fuel` is raised by the model alone, when a chain of engine calls is cut off.
pub data Error : Type 0 where
  value_error : String → Error
  unrecoverable : String → Error
  does_not_exist : Error
  integrity : Error
  definition_not_found : Error
  definition_inactive : Error
  start_conflict : Error
  recovery_not_found : Error
  recovery_conflict : String → Error
  claim_active : Error
  decision_not_found : Error
  decision_conflict : StepStatus → Error
  retry_limit : Error
  invalid_decision : String → Error
  out_of_fuel : Error

pub data Outcome (A : Type 0) : Type 0 where
  done : A → Outcome A
  raised : Error → Outcome A

abbrev pub Tx : Type 0 → Type 0
Tx A = World → Outcome A × World

abbrev pub Action : Type 0
Action = Tx (Unit {0})

module _ {A : Type 0} where
  unfoldable pub pure : A → Tx A
  pure a w = (done a, w)

  unfoldable pub raise : Error → Tx A
  raise e w = (raised e, w)

  unfoldable pub reads : (World → A) → Tx A
  reads f w = (done (f w), w)

unfoldable pub writes : (World → World) → Action
writes f w = (done tt, f w)

module _ {A B : Type 0} where
  abbrev pub proceed : (A → Tx B) → Outcome A → Tx B
  proceed f (done a) w = f a w
  proceed f (raised e) w = (raised e, w)

  infixl 5 ◌>>=◌
  unfoldable pub ◌>>=◌ : Tx A → (A → Tx B) → Tx B
  ◌>>=◌ m f w = let (r, w') = m w in proceed f r w'

infixl 5 ◌>>◌
abbrev pub ◌>>◌ : {B : Type 0} → Action → Tx B → Tx B
m >> n = m >>= λ _. n

-- `if b: m`
unfoldable pub when : Bool → Action → Action
unfolding pure
when b m = if b then m else pure tt

-- `if value is not None: …` with the value at hand, and what happens otherwise
unfoldable pub with_some {ℓ} : {A : Type ℓ} {B : Type 0} → Option A → Tx B → (A → Tx B) → Tx B
with_some none n s = n
with_some (some a) n s = s a

unfoldable pub skip : Action
unfolding pure
skip = pure tt

-- `try: m except (ValidationError, ValueError) as e: handler(e)`
abbrev pub on_value_error : {A : Type 0} → (String → Tx A) → Outcome A → Tx A
on_value_error h (raised (value_error e)) w = h e w
on_value_error h r w = (r, w)

unfoldable pub catch_value_error : {A : Type 0} → Tx A → (String → Tx A) → Tx A
catch_value_error m h w = let (r, w') = m w in on_value_error h r w'

-- `try: m except IntegrityError: n`
abbrev pub on_integrity : {A : Type 0} → Tx A → Outcome A → Tx A
on_integrity n (raised integrity) w = n w
on_integrity n r w = (r, w)

unfoldable pub catch_integrity : {A : Type 0} → Tx A → Tx A → Tx A
catch_integrity m n w = let (r, w') = m w in on_integrity n r w'

-- `try: m except RecoveryClaimActiveError: n`
abbrev pub on_claim_active : {A : Type 0} → Tx A → Outcome A → Tx A
on_claim_active n (raised claim_active) w = n w
on_claim_active n r w = (r, w)

unfoldable pub catch_claim_active : {A : Type 0} → Tx A → Tx A → Tx A
catch_claim_active m n w = let (r, w') = m w in on_claim_active n r w'

-- Whether a call returned, for an `except Exception`.
abbrev pub was_done : Outcome (Unit {0}) → Bool
was_done (done a) = true
was_done (raised e) = false

unfoldable pub attempt : Action → Tx Bool
attempt m w = let (r, w') = m w in (done (was_done r), w')

-- `async with in_transaction()`: an exception undoes what the block wrote.
abbrev pub settle : {A : Type 0} → World → Outcome A → World → Outcome A × World
settle old (done a) new = (done a, new)
settle old (raised e) new = (raised e, old)

unfoldable pub in_transaction : {A : Type 0} → Tx A → Tx A
in_transaction m w = let (r, w') = m w in settle w r w'

-- A loop over a list, for its effects.
unfoldable pub for_each : {A : Type 0} → List A → (A → Action) → Action
unfolding pure
for_each [] f = pure tt
for_each (x ∷ xs) f = do f x; for_each xs f
