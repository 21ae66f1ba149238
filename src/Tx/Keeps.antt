-- ===== src/Tx/Keeps.antt =====
-- Relations that an action keeps between the tables before and after it, whether it returns or
-- raises: one rule for each way to build an action.
use warden_core.Prelude.{
  String, Bool, true, false, Option, none, some, List, [], ◌∷◌, if◌then◌else◌,
}
use warden_core.Model.{World}
use warden_core.Tx.{
  Error, value_error, unrecoverable, does_not_exist, integrity, definition_not_found,
  definition_inactive, start_conflict, recovery_not_found, recovery_conflict, claim_active,
  decision_not_found, decision_conflict, retry_limit, invalid_decision, out_of_fuel,
  catch_integrity, on_integrity, catch_claim_active, on_claim_active, attempt, Outcome, done,
  raised, Tx, Action, pure, raise, reads, ◌>>=◌, when, with_some, skip, catch_value_error,
  in_transaction, for_each, on_value_error, proceed, settle,
}

-- A reflexive and transitive relation between tables.
pub record IsPreorder (R : World → World → Type 0) : Type 0 where
  pub reflexive : (w : World) → R w w
  pub transitive : {u v w : World} → R u v → R v w → R u w

pub record Keeps (R : World → World → Type 0) {A : Type 0} (m : Tx A) : Type 0 where
  pub at : (w : World) → R w (m w).1

module _ {R : World → World → Type 0} (order : IsPreorder R) where
  module _ {A : Type 0} where
    pub Keeps-pure : (a : A) → Keeps R (pure a)
    unfolding pure
    Keeps-pure a = record { at = order.reflexive }

    pub Keeps-raise : (e : Error) → Keeps R (raise {A = A} e)
    unfolding raise
    Keeps-raise e = record { at = order.reflexive }

    pub Keeps-reads : (f : World → A) → Keeps R (reads f)
    unfolding reads
    Keeps-reads f = record { at = order.reflexive }

    pub Keeps-if : (b : Bool) (m n : Tx A) → Keeps R m → Keeps R n → Keeps R (if b then m else n)
    Keeps-if true m n km kn = km
    Keeps-if false m n km kn = kn

    pub Keeps-with_some :
        {B : Type 0} (o : Option B) (n : Tx A) (s : B → Tx A)
        → Keeps R n
        → ((b : B) → Keeps R (s b))
        → Keeps R (with_some o n s)
    unfolding with_some
    Keeps-with_some none n s kn ks = kn
    Keeps-with_some (some b) n s kn ks = ks b

    Keeps-on_value_error :
        (h : String → Tx A) (r : Outcome A)
        → ((e : String) → Keeps R (h e))
        → Keeps R (on_value_error h r)
    Keeps-on_value_error h (raised (value_error e)) kh = kh e
    Keeps-on_value_error h (raised (unrecoverable e)) kh = record { at = order.reflexive }
    Keeps-on_value_error h (raised does_not_exist) kh = record { at = order.reflexive }
    Keeps-on_value_error h (raised integrity) kh = record { at = order.reflexive }
    Keeps-on_value_error h (raised definition_not_found) kh = record { at = order.reflexive }
    Keeps-on_value_error h (raised definition_inactive) kh = record { at = order.reflexive }
    Keeps-on_value_error h (raised start_conflict) kh = record { at = order.reflexive }
    Keeps-on_value_error h (raised recovery_not_found) kh = record { at = order.reflexive }
    Keeps-on_value_error h (raised (recovery_conflict e)) kh = record { at = order.reflexive }
    Keeps-on_value_error h (raised claim_active) kh = record { at = order.reflexive }
    Keeps-on_value_error h (raised decision_not_found) kh = record { at = order.reflexive }
    Keeps-on_value_error h (raised (decision_conflict s)) kh = record { at = order.reflexive }
    Keeps-on_value_error h (raised retry_limit) kh = record { at = order.reflexive }
    Keeps-on_value_error h (raised (invalid_decision e)) kh = record { at = order.reflexive }
    Keeps-on_value_error h (raised out_of_fuel) kh = record { at = order.reflexive }
    Keeps-on_value_error h (done a) kh = record { at = order.reflexive }

    pub Keeps-catch_value_error :
        (m : Tx A) (h : String → Tx A)
        → Keeps R m
        → ((e : String) → Keeps R (h e))
        → Keeps R (catch_value_error m h)
    unfolding catch_value_error
    Keeps-catch_value_error m h km kh = record {
      at = λ w.
          let (r, w') = m w in order.transitive (km.at w) ((Keeps-on_value_error h r kh).at w');
    }

    Keeps-on_integrity : (n : Tx A) (r : Outcome A) → Keeps R n → Keeps R (on_integrity n r)
    Keeps-on_integrity n (raised (value_error e)) kn = record { at = order.reflexive }
    Keeps-on_integrity n (raised (unrecoverable e)) kn = record { at = order.reflexive }
    Keeps-on_integrity n (raised does_not_exist) kn = record { at = order.reflexive }
    Keeps-on_integrity n (raised integrity) kn = kn
    Keeps-on_integrity n (raised definition_not_found) kn = record { at = order.reflexive }
    Keeps-on_integrity n (raised definition_inactive) kn = record { at = order.reflexive }
    Keeps-on_integrity n (raised start_conflict) kn = record { at = order.reflexive }
    Keeps-on_integrity n (raised recovery_not_found) kn = record { at = order.reflexive }
    Keeps-on_integrity n (raised (recovery_conflict e)) kn = record { at = order.reflexive }
    Keeps-on_integrity n (raised claim_active) kn = record { at = order.reflexive }
    Keeps-on_integrity n (raised decision_not_found) kn = record { at = order.reflexive }
    Keeps-on_integrity n (raised (decision_conflict s)) kn = record { at = order.reflexive }
    Keeps-on_integrity n (raised retry_limit) kn = record { at = order.reflexive }
    Keeps-on_integrity n (raised (invalid_decision e)) kn = record { at = order.reflexive }
    Keeps-on_integrity n (raised out_of_fuel) kn = record { at = order.reflexive }
    Keeps-on_integrity n (done a) kn = record { at = order.reflexive }

    pub Keeps-catch_integrity : (m n : Tx A) → Keeps R m → Keeps R n → Keeps R (catch_integrity m n)
    unfolding catch_integrity
    Keeps-catch_integrity m n km kn = record {
      at = λ w. let (r, w') = m w in order.transitive (km.at w) ((Keeps-on_integrity n r kn).at w');
    }

    Keeps-on_claim_active : (n : Tx A) (r : Outcome A) → Keeps R n → Keeps R (on_claim_active n r)
    Keeps-on_claim_active n (raised (value_error e)) kn = record { at = order.reflexive }
    Keeps-on_claim_active n (raised (unrecoverable e)) kn = record { at = order.reflexive }
    Keeps-on_claim_active n (raised does_not_exist) kn = record { at = order.reflexive }
    Keeps-on_claim_active n (raised integrity) kn = record { at = order.reflexive }
    Keeps-on_claim_active n (raised definition_not_found) kn = record { at = order.reflexive }
    Keeps-on_claim_active n (raised definition_inactive) kn = record { at = order.reflexive }
    Keeps-on_claim_active n (raised start_conflict) kn = record { at = order.reflexive }
    Keeps-on_claim_active n (raised recovery_not_found) kn = record { at = order.reflexive }
    Keeps-on_claim_active n (raised (recovery_conflict e)) kn = record { at = order.reflexive }
    Keeps-on_claim_active n (raised claim_active) kn = kn
    Keeps-on_claim_active n (raised decision_not_found) kn = record { at = order.reflexive }
    Keeps-on_claim_active n (raised (decision_conflict s)) kn = record { at = order.reflexive }
    Keeps-on_claim_active n (raised retry_limit) kn = record { at = order.reflexive }
    Keeps-on_claim_active n (raised (invalid_decision e)) kn = record { at = order.reflexive }
    Keeps-on_claim_active n (raised out_of_fuel) kn = record { at = order.reflexive }
    Keeps-on_claim_active n (done a) kn = record { at = order.reflexive }

    pub Keeps-catch_claim_active :
        (m n : Tx A) → Keeps R m → Keeps R n → Keeps R (catch_claim_active m n)
    unfolding catch_claim_active
    Keeps-catch_claim_active m n km kn = record {
      at = λ w.
          let (r, w') = m w in order.transitive (km.at w) ((Keeps-on_claim_active n r kn).at w');
    }

    settled : (w w' : World) (r : Outcome A) → R w w' → R w (settle w r w').1
    settled w w' (done a) h = h
    settled w w' (raised e) h = order.reflexive w

    pub Keeps-in_transaction : (m : Tx A) → Keeps R m → Keeps R (in_transaction m)
    unfolding in_transaction
    Keeps-in_transaction m km = record { at = λ w. let (r, w') = m w in settled w w' r (km.at w) }

  module _ {A B : Type 0} where
    Keeps-proceed :
        (f : A → Tx B) (r : Outcome A) → ((a : A) → Keeps R (f a)) → Keeps R (proceed f r)
    Keeps-proceed f (done a) kf = kf a
    Keeps-proceed f (raised e) kf = record { at = order.reflexive }

    pub Keeps-bind :
        (m : Tx A) (f : A → Tx B) → Keeps R m → ((a : A) → Keeps R (f a)) → Keeps R (m >>= f)
    unfolding ◌>>=◌
    Keeps-bind m f km kf = record {
      at = λ w. let (r, w') = m w in order.transitive (km.at w) ((Keeps-proceed f r kf).at w');
    }

  pub Keeps-attempt : (m : Action) → Keeps R m → Keeps R (attempt m)
  unfolding attempt
  Keeps-attempt m km = record { at = km.at }

  pub Keeps-skip : Keeps R skip
  unfolding skip
  Keeps-skip = record { at = order.reflexive }

  pub Keeps-when : (b : Bool) (m : Action) → Keeps R m → Keeps R (when b m)
  unfolding when
  Keeps-when true m km = km
  Keeps-when false m km = record { at = order.reflexive }

  pub Keeps-for_each :
      {A : Type 0} (xs : List A) (f : A → Action)
      → ((a : A) → Keeps R (f a))
      → Keeps R (for_each xs f)
  unfolding for_each
  Keeps-for_each [] f kf = record { at = order.reflexive }
  Keeps-for_each (x ∷ xs) f kf =
      Keeps-bind (f x) (λ _. for_each xs f) (kf x) (λ _. Keeps-for_each xs f kf)

pub ruleset keeps_rules = (
  Keeps-pure, Keeps-raise, Keeps-reads, Keeps-if, Keeps-with_some, Keeps-catch_value_error,
  Keeps-in_transaction, Keeps-bind, Keeps-skip, Keeps-when, Keeps-for_each, Keeps-catch_integrity,
  Keeps-catch_claim_active, Keeps-attempt,
)
