-- ===== src/Recovery/Idempotency.antt =====
-- engine/recovery_idempotency.py: a recovery request with a token of the client is applied once, and
-- its stored response answers a repetition.
use Prim.Native.String.{◌++◌ as join}
use warden_core.Prelude.{
  String, Bool, Option, none, some, [], ◌∷◌, ◌++◌, ◌==◌, if◌then◌else◌, find_first, exists,
}
use warden_core.Json.{str, bool, obj, end, field}
use warden_core.Model.{Response, Recovery, World, Env}
use warden_core.Tx.{
  Tx, Action, integrity, recovery_conflict, pure, raise, reads, writes, ◌>>=◌, ◌>>◌, with_some,
  in_transaction,
}
use warden_core.Store.{draw}

-- The parts of a request that its token is tied to.
pub record Request : Type 0 where
  pub namespace : String
  pub recovery_kind : String
  pub trace_id : String
  pub step_span_id : String
  pub recovery_token : Option String
  pub force : Bool
  pub allow_destructive : Option Bool

-- operator_recovery_dedup_key
unfoldable pub operator_recovery_dedup_key : Request → String → String
operator_recovery_dedup_key q token = join "operator-recovery:" (
    join q.recovery_kind (
      join ":" (
        join q.namespace
          (join ":" (join q.trace_id (join ":" (join q.step_span_id (join ":" token))))))))

-- operator_recovery_request_fingerprint, with hash_canonical_dict of common/utils.py
unfoldable pub operator_recovery_request_fingerprint : Env → Request → String
operator_recovery_request_fingerprint env q = env.sha256_hex (
    env.canonical_json (
      obj (
        field "recovery_kind" (str q.recovery_kind) (
          field "force" (bool q.force) (elim q.allow_destructive [
            | none ↦ end
            | some b ↦ field "allow_destructive" (bool b) end
          ])))))

abbrev pub has_dedup_key : String → Recovery → Bool
has_dedup_key k r = r.dedup_key == k

-- load_processed_operator_recovery
unfoldable pub load_processed_operator_recovery : String → World → Option Recovery
load_processed_operator_recovery k w = find_first (has_dedup_key k) w.recoveries

-- save_processed_operator_recovery: `dedup_key` is the primary key.
unfoldable pub save_processed_operator_recovery : Recovery → Action
save_processed_operator_recovery r = do
  taken ← reads (λ w. exists (has_dedup_key r.dedup_key) w.recoveries)
  if taken then raise integrity else writes (λ w. record w { recoveries = w.recoveries ++ r ∷ [] })

-- replay_or_conflict
unfoldable pub replay_or_conflict : Recovery → String → Tx Response
replay_or_conflict existing fingerprint =
    if existing.request_fingerprint == fingerprint
    then pure existing.response
    else raise (recovery_conflict "recovery_token reused with different request parameters.")

-- with_operator_recovery_idempotency, for a request with a token
unfoldable pub once_per_token : Env → Request → String → Tx Response → Tx Response
once_per_token env q token apply = in_transaction (do
  let dedup_key = operator_recovery_dedup_key q token
  let fingerprint = operator_recovery_request_fingerprint env q
  existing ← reads (load_processed_operator_recovery dedup_key)
  with_some existing
      (do
        result ← apply
        save_processed_operator_recovery
            (record { dedup_key = dedup_key; request_fingerprint = fingerprint; response = result })
        pure result)
      (λ r. replay_or_conflict r fingerprint))

-- with_operator_recovery_idempotency
unfoldable pub with_operator_recovery_idempotency : Env → Request → Tx Response → Tx Response
with_operator_recovery_idempotency env q apply =
    with_some q.recovery_token (in_transaction apply) (λ token. once_per_token env q token apply)

-- `recovery_token or uuid.uuid4().hex`
unfoldable pub token_or_fresh : Env → Option String → Tx String
token_or_fresh env token = with_some token (draw env) (λ s. if s == "" then draw env else pure s)
