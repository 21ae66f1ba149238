-- ===== src/Handover/Writes.antt =====
-- The relation Guards for each write to the claims: created, marked, released and reaped.
use warden_core.Prelude.{
  ℕ, String, ◌≡◌, refl, sym, ap, ◌∙◌, Bool, true, false, not, ◌&&◌, some, List, [], ◌∷◌, ◌++◌, ◌==◌,
  eq_iff, exists, keep, update_where, arith, inl, inr, Bool-cases, is_some, find_first, drop_where,
}
use mathlib.Core.Bool.{true≢false}
use warden_core.Prelude.Search.{
  exists-keep, found-exists, exists-narrow, exists-drop_where, exists-update_where,
  exists-update_where_up,
}
use warden_core.Json.{Json}
use warden_core.Model.{Claim, EventType, World, Env}
use warden_core.Tx.{raise, pure, reads, writes, ◌>>=◌}
use warden_core.Tx.Keeps.{Keeps}
use warden_core.Delivery.Claims.{
  claims_key, is_owned_by, claim_is_stale, create_claim, mark_claim_result_emitted,
  release_command_claim,
}
use warden_core.Delivery.Worker.{Scope, report_result}
use warden_core.Handover.Claims.{
  is_unique_claims, is_finished, is_unfinished, finished-only, unique-append, unique-keep,
  unique-drop, exists-append, exists-keep-false,
}
use warden_core.Handover.Guarded.{Guards, Guards-order, GuardsOpen, SameClaims, same_claims_rules}

-- Dropping unfinished claims.
module _ (p : Claim → Bool) (unfinished : (c : Claim) → p c ≡ true → c.result_emitted ≡ false) where
  kept_finished : (k : String) (c : Claim) → is_finished k c ≡ true → not (p c) ≡ true
  kept_finished k c h = elim (Bool-cases (p c)) [
    | inl t ↦ ground (arith, unfinished c t)
    | inr f ↦ rw f refl
  ]

  pub Guards-keep :
      Keeps Guards (writes (λ w. record w { claims = keep (λ c. not (p c)) w.claims }))
  unfolding writes
  Guards-keep = record {
    at = λ w. record {
      unique = λ u. unique-keep (λ c. not (p c)) w.claims u;
      kept = λ u k h. exists-keep (is_finished k) (λ c. not (p c)) (kept_finished k) w.claims h;
    };
  }

  pub Guards-drop :
      (n : ℕ) → Keeps Guards (writes (λ w. record w { claims = drop_where p n w.claims }))
  unfolding writes
  Guards-drop n = record {
    at = λ w. record {
      unique = λ u. unique-drop p n w.claims u;
      kept = λ u k h.
          exists-drop_where p (is_finished k) (λ c f t. ground (arith, unfinished c t)) n w.claims
            h;
    };
  }

claim-added :
    (c : Claim) (w : World)
    → exists (claims_key c.idempotency_key) w.claims ≡ false
    → Guards w (record w { claims = w.claims ++ c ∷ [] })
claim-added c w free = record {
  unique = λ u. unique-append c w.claims free u;
  kept = λ u k h. exists-append (is_finished k) w.claims (c ∷ []) h;
}

pub Guards-create : (c : Claim) → Keeps Guards (create_claim c)
unfolding create_claim ◌>>=◌ reads writes raise
Guards-create c = record {
  at = λ w. elim (Bool-cases (exists (claims_key c.idempotency_key) w.claims)) [
    | inl t ↦ rw t (Guards-order.reflexive w)
    | inr f ↦ rw f (claim-added c w f)
  ];
}

unique-update :
    (p : Claim → Bool) (f : Claim → Claim)
    (same : (c : Claim) → (f c).idempotency_key ≡ c.idempotency_key) (cs : List Claim)
    → is_unique_claims (update_where p f cs) ≡ is_unique_claims cs
unfolding update_where
unique-update p f same [] = refl
unique-update p f same (c ∷ cs) =
    let away =
      λ (k : String). exists-update_where (claims_key k) p f (λ x. ap (λ i. i == k) (same x)) cs in
    elim (Bool-cases (p c)) [
      | inl t ↦ rw (t, same c, away c.idempotency_key, unique-update p f same cs) refl
      | inr n ↦ rw (n, away c.idempotency_key, unique-update p f same cs) refl
    ]

pub Guards-mark : (k t : String) → Keeps Guards (mark_claim_result_emitted k t)
unfolding mark_claim_result_emitted ◌>>=◌ reads writes pure
Guards-mark k t = record {
  at = λ w. record {
    unique = λ u.
        unique-update (is_owned_by k t) (λ c. record c { result_emitted = true }) (λ c. refl)
          w.claims
        ∙ u;
    kept = λ u j h.
        exists-update_where_up (is_finished j) (is_owned_by k t)
          (λ c. record c { result_emitted = true }) (λ c e. ground arith) w.claims h;
  };
}

pub SameClaims-report :
    (env : Env) (s : Scope) (e : EventType) (output : Json)
    → Keeps SameClaims (report_result env s e output)
unfolding report_result
SameClaims-report env s e output = search same_claims_rules

-- The release of one key leaves the finished claims on other keys.
other_key :
    (j k t : String) (c : Claim)
    → (j == k) ≡ false
    → is_finished j c ≡ true
    → not (claims_key k c && c.claim_token == t) ≡ true
other_key j k t c apart h = elim (Bool-cases (claims_key k c)) [
  | inl e ↦
      let mine : claims_key j c ≡ true = ground arith in
      let same : j ≡ k =
        sym ((eq_iff c.idempotency_key j).0 mine) ∙ (eq_iff c.idempotency_key k).0 e in
      let both : (j == k) ≡ true = (eq_iff j k).1 same in ground arith
  | inr n ↦ rw n refl
]

released :
    (j k t : String) (cs : List Claim)
    → exists (is_finished k) cs ≡ false
    → exists (is_finished j) cs ≡ true
    → exists (is_finished j) (keep (λ c. not (claims_key k c && c.claim_token == t)) cs) ≡ true
released j k t cs free h = elim (Bool-cases (j == k)) [
  | inl e ↦
      let here : exists (is_finished k) cs ≡ true = rw (← (eq_iff j k).0 e) h in
      absurd (true≢false (sym here ∙ free))
  | inr n ↦
      exists-keep (is_finished j) (λ c. not (claims_key k c && c.claim_token == t))
        (λ c f. other_key j k t c n f) cs h
]

pub GuardsOpen-release : (k t : String) → Keeps (GuardsOpen k) (release_command_claim k (some t))
unfolding release_command_claim writes
GuardsOpen-release k t = record {
  at = λ w. record {
    open_still = exists-keep-false _ (is_finished k) w.claims;
    guards = λ free. record {
      unique = unique-keep _ w.claims;
      kept = λ u j h. released j k t w.claims free h;
    };
  };
}

pub stale-unfinished :
    (c : Claim) (cutoff : ℕ) → claim_is_stale c cutoff ≡ true → c.result_emitted ≡ false
unfolding claim_is_stale
stale-unfinished c cutoff h = ground arith

-- A claim that is still owned: no result is out under its key.
pub owned_open :
    (k t : String) (cs : List Claim)
    → is_unique_claims cs ≡ true
    → is_some (find_first (is_owned_by k t) cs) ≡ true
    → exists (is_finished k) cs ≡ false
owned_open k t cs u h = elim (Bool-cases (exists (is_finished k) cs)) [
  | inl f ↦
      let none_open : exists (is_unfinished k) cs ≡ false = finished-only k cs u f in
      let none_owned : exists (is_owned_by k t) cs ≡ false =
        exists-narrow (is_unfinished k) (is_owned_by k t) (λ c e. ground arith) cs none_open in
      absurd (true≢false (sym h ∙ found-exists (is_owned_by k t) cs ∙ none_owned))
  | inr n ↦ n
]
