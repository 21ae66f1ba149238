-- ===== src/Safeguards/Replay.antt =====
-- Recovery requests with a token (Recovery/Idempotency).
use warden_core.Prelude.{
  String, ◌≡◌, refl, some, List, ◌++◌, ◌==◌, eq_iff, eq_refl, find_first, exists, arith, inl, inr,
  Bool-cases, Option-cases, if◌then◌else◌,
}
use warden_core.Prelude.Search.{find_first-append, find_first-last}
use warden_core.Model.{Response, Recovery, World, Env}
use warden_core.Tx.{
  Tx, Outcome, done, raised, recovery_conflict, pure, raise, reads, writes, ◌>>=◌, ◌>>◌, with_some,
  in_transaction, settle, proceed,
}
use warden_core.Recovery.Idempotency.{
  Request, operator_recovery_dedup_key, operator_recovery_request_fingerprint, has_dedup_key,
  load_processed_operator_recovery, save_processed_operator_recovery, replay_or_conflict,
  once_per_token,
}

-- The response `r` is stored for the token of a request.
record Stored (k fingerprint : String) (r : Response) (w : World) : Type 0 where
  entry : Recovery
  found : load_processed_operator_recovery k w ≡ some entry
  print : entry.request_fingerprint ≡ fingerprint
  answer : entry.response ≡ r

module _ (k fingerprint : String) where
  abbrev save : Response → Tx Response
  save result = do
    save_processed_operator_recovery
        (record { dedup_key = k; request_fingerprint = fingerprint; response = result })
    pure result

  saved :
      (result r : Response) (w : World)
      → (save result w).0 ≡ done r
      → Stored k fingerprint r (save result w).1
  unfolding save_processed_operator_recovery ◌>>=◌ reads writes pure raise
      load_processed_operator_recovery
  saved result r w = elim (Bool-cases (exists (has_dedup_key k) w.recoveries)) [
    | inl t ↦ rw t (λ d. ground arith)
    | inr f ↦ rw f (λ d. record {
      entry = record { dedup_key = k; request_fingerprint = fingerprint; response = result };
      found = find_first-last (has_dedup_key k) _ w.recoveries (eq_refl k) f;
      print = refl;
      answer = ground arith;
    })
  ]

  replayed :
      (e : Recovery) (r : Response) (w : World)
      → load_processed_operator_recovery k w ≡ some e
      → (replay_or_conflict e fingerprint w).0 ≡ done r
      → Stored k fingerprint r (replay_or_conflict e fingerprint w).1
  unfolding replay_or_conflict pure raise
  replayed e r w h = elim (Bool-cases (e.request_fingerprint == fingerprint)) [
    | inl t ↦ rw t (λ d. record {
      entry = e;
      found = h;
      print = (eq_iff e.request_fingerprint fingerprint).0 t;
      answer = ground arith;
    })
    | inr f ↦ rw f (λ d. ground arith)
  ]

  applied :
      (r : Response) (o : Outcome Response) (w : World)
      → (proceed save o w).0 ≡ done r
      → Stored k fingerprint r (proceed save o w).1
  applied r (done result) w d = saved result r w d
  applied r (raised e) w d = ground arith

settled :
    (P : World → Type 0) (w : World) (o : Outcome Response) (w' : World) (r : Response)
    → (settle w o w').0 ≡ done r
    → (o ≡ done r → P w')
    → P (settle w o w').1
settled P w (done a) w' r d h = h d
settled P w (raised e) w' r d h = ground arith

module _ (env : Env) where
  abbrev fingerprint_of : Request → String
  fingerprint_of = operator_recovery_request_fingerprint env

  -- A request that was answered has its answer stored.
  answered :
      (q : Request) (token : String) (apply : Tx Response) (r : Response) (w : World)
      → (once_per_token env q token apply w).0 ≡ done r
      → Stored
          (operator_recovery_dedup_key q token)
          (fingerprint_of q)
          r
          (once_per_token env q token apply w).1
  unfolding once_per_token in_transaction ◌>>=◌ reads with_some
  answered q token apply r w =
      elim (Option-cases
        (load_processed_operator_recovery (operator_recovery_dedup_key q token) w)) [
          | inl fresh ↦ rw fresh (λ d.
              settled (Stored (operator_recovery_dedup_key q token) (fingerprint_of q) r) w _ _ r d
                (applied (operator_recovery_dedup_key q token) (fingerprint_of q) r (apply w).0
                  (apply w).1))
          | inr (e, known) ↦ rw known (λ d.
              settled (Stored (operator_recovery_dedup_key q token) (fingerprint_of q) r) w _ _ r d
                (replayed (operator_recovery_dedup_key q token) (fingerprint_of q) e r w known))
        ]

  abbrev reused : String
  reused = "recovery_token reused with different request parameters."

  -- Once a request with a token of the client has been answered, and for as long as what is stored
  -- only grows, a request under the same dedup key is not applied and changes nothing: with the
  -- same fingerprint it gets the same answer, with another one it is refused.
  pub once_per_token-replayed :
      (q q' : Request) (token token' : String) (apply apply' : Tx Response) (r : Response)
      (w w' : World) (rest : List Recovery)
      → (once_per_token env q token apply w).0 ≡ done r
      → w'.recoveries ≡ (once_per_token env q token apply w).1.recoveries ++ rest
      → operator_recovery_dedup_key q' token' ≡ operator_recovery_dedup_key q token
      → once_per_token env q' token' apply' w' ≡ (
        if fingerprint_of q == fingerprint_of q' then done r else raised (recovery_conflict reused),
        w',
      )
  unfolding once_per_token in_transaction ◌>>=◌ reads with_some load_processed_operator_recovery
      replay_or_conflict pure raise
  once_per_token-replayed q q' token token' apply apply' r w w' rest d grows same =
      let stored = answered q token apply r w d in
      let found : find_first (has_dedup_key (operator_recovery_dedup_key q token)) w'.recoveries
          ≡ some stored.entry =
        rw grows (find_first-append _ _ rest stored.found) in
      elim (Bool-cases (fingerprint_of q == fingerprint_of q')) [
        | inl t ↦ rw (same, found, stored.print, t, stored.answer) refl
        | inr f ↦ rw (same, found, stored.print, f) refl
      ]
