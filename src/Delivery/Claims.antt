-- ===== src/Delivery/Claims.antt =====
-- common/processed_command_claim.py, common/processed_command_reap.py and _claim_idempotency_key of
-- workers/logic.py: a worker claims the key of a command before it runs it, and shows its token when
-- it reports the result.
use warden_core.Prelude.{
  ℕ, ◌-◌, String, Bool, true, false, not, ◌&&◌, Option, none, some, [], ◌∷◌, ◌++◌, ◌==◌, ltb,
  if◌then◌else◌, length, is_some, find_first, exists, keep, update_where, select, drop_where,
}
use warden_core.Model.{Claim, command_claimed, World, Env}
use warden_core.Tx.{
  Tx, Action, integrity, pure, raise, reads, writes, ◌>>=◌, ◌>>◌, in_transaction, catch_integrity,
}
use warden_core.Store.{now, draw, hook}

abbrev pub claims_key : String → Claim → Bool
claims_key k c = c.idempotency_key == k

-- ProcessedCommand.create: `idempotency_key` is the primary key.
unfoldable pub create_claim : Claim → Action
create_claim c = do
  taken ← reads (λ w. exists (claims_key c.idempotency_key) w.claims)
  if taken then raise integrity else writes (λ w. record w { claims = w.claims ++ c ∷ [] })

-- stale_claim_cutoff
unfoldable pub stale_claim_cutoff : Env → Tx ℕ
stale_claim_cutoff env = do at ← now; pure (at - env.stale_claim_seconds)

-- claim_is_stale
unfoldable pub claim_is_stale : Claim → ℕ → Bool
claim_is_stale c cutoff = not c.result_emitted && ltb c.created_at cutoff

-- reap_stale_claim_by_key
unfoldable pub reap_stale_claim_by_key : Env → String → Tx Bool
reap_stale_claim_by_key env k = do
  cutoff ← stale_claim_cutoff env
  found ← reads (λ w. exists (λ c. claims_key k c && claim_is_stale c cutoff) w.claims)
  writes (λ w. record w {
    claims = keep (λ c. not (claims_key k c && claim_is_stale c cutoff)) w.claims;
  })
  pure found

-- reap_stale_processed_commands
unfoldable pub reap_stale_processed_commands : Env → ℕ → Tx ℕ
reap_stale_processed_commands env batch_size = do
  cutoff ← stale_claim_cutoff env
  n ← reads (λ w. length (select (λ c. claim_is_stale c cutoff) batch_size w.claims))
  writes (λ w. record w { claims = drop_where (λ c. claim_is_stale c cutoff) batch_size w.claims })
  pure n

-- one attempt of _claim_idempotency_key: the token of the new claim
unfoldable pub try_claim : Env → String → String → Tx (Option String)
try_claim env k namespace = do
  token ← draw env
  at ← now
  in_transaction (do
    create_claim (record {
      idempotency_key = k;
      namespace = namespace;
      claim_token = token;
      result_emitted = false;
      created_at = at;
    })
    hook (command_claimed k)
    pure (some token))

-- _claim_idempotency_key: the token when the claim is made, `none` for a duplicate
unfoldable pub claim_idempotency_key : Env → String → String → Tx (Option String)
claim_idempotency_key env k namespace = catch_integrity (try_claim env k namespace) (do
  reaped ← reap_stale_claim_by_key env k
  if reaped then catch_integrity (try_claim env k namespace) (pure none) else pure none)

abbrev pub is_owned_by : String → String → Claim → Bool
is_owned_by k token c = claims_key k c && c.claim_token == token && not c.result_emitted

-- claim_still_owned
unfoldable pub claim_still_owned : String → String → World → Option Claim
claim_still_owned k token w = find_first (is_owned_by k token) w.claims

-- mark_claim_result_emitted
unfoldable pub mark_claim_result_emitted : String → String → Tx Bool
mark_claim_result_emitted k token = do
  updated ← reads (λ w. exists (is_owned_by k token) w.claims)
  writes (λ w. record w {
    claims = update_where (is_owned_by k token) (λ c. record c { result_emitted = true }) w.claims;
  })
  pure updated

-- verify_claim_before_emit
unfoldable pub verify_claim_before_emit : String → String → Tx Bool
unfolding claim_still_owned
verify_claim_before_emit k token = reads (λ w. is_some (claim_still_owned k token w))

-- _release_command_claim of workers/logic.py
unfoldable pub release_command_claim : String → Option String → Action
release_command_claim k token = writes (λ w. record w {
  claims =
      keep (λ c. not (claims_key k c && elim token [ none ↦ true | some t ↦ c.claim_token == t ]))
        w.claims;
})
