-- ===== src/Linking/Narrow.antt =====
-- What the overrides of a saga make of a catalog step (Catalog/Tighten).
use warden_core.Prelude.{
  ℕ, ◌≤◌, ◌&&◌, String, ◌≡◌, refl, Bool, true, false, Option, none, some, get_or, or_else, arith,
  leb,
}
use warden_core.Catalog.Checked.{ok}
use warden_core.Linking.Binds.{bind_from}
use warden_core.Catalog.Steps.{ReasonFields, Work, reason, commit, Capability}
use warden_core.Catalog.Tighten.{
  Overrides, override_hitl, override_retries, override_guidance, apply_hitl_overrides,
  tighten_int_field, tighten_optional_token_cap, override_timeout, override_limits, turns,
  step_tokens, completion_tokens, on_reason, apply_tighten_overrides,
}

-- A limit of the catalog is there still, and no larger.
abbrev pub is_within : Option ℕ → Option ℕ → Bool
is_within none d = true
is_within (some m) none = false
is_within (some m) (some n) = leb n m

-- What the overrides put in the place of the catalog's values.
abbrev pub overridden_work : Overrides → Work → Work
overridden_work o (reason r) = reason (record r {
  max_turns = get_or o.max_turns r.max_turns;
  max_step_tokens = or_else o.max_step_tokens r.max_step_tokens;
  max_completion_tokens = or_else o.max_completion_tokens r.max_completion_tokens;
})
overridden_work o (commit t) = commit t

abbrev pub overridden : Overrides → Capability → Capability
overridden o c = record c {
  timeout_seconds = get_or o.timeout_seconds c.timeout_seconds;
  hitl = get_or o.hitl c.hitl;
  hitl_max_retries = or_else o.hitl_max_retries c.hitl_max_retries;
  hitl_retry_guidance = or_else o.hitl_retry_guidance c.hitl_retry_guidance;
  work = overridden_work o c.work;
}

abbrev pub is_no_wider : Work → Work → Bool
is_no_wider (reason r) (reason q) =
    leb q.max_turns r.max_turns
    && is_within r.max_step_tokens q.max_step_tokens
    && is_within r.max_completion_tokens q.max_completion_tokens
is_no_wider (commit t) (commit u) = true
is_no_wider _ _ = false

pub record NoWider (c d : Capability) : Type 0 where
  pub review : c.hitl ≡ true → d.hitl ≡ true
  pub retries : is_within c.hitl_max_retries d.hitl_max_retries ≡ true
  pub timeout : d.timeout_seconds ≤ c.timeout_seconds
  pub work : is_no_wider c.work d.work ≡ true

-- The overrides of the review: each field is what the source's three tests leave.
hitl_overridden :
    (h : Option Bool) (c : Capability) {d : Capability}
    → override_hitl h c ≡ ok d
    → (d ≡ record c { hitl = get_or h c.hitl }) × (c.hitl ≡ true → get_or h c.hitl ≡ true)
unfolding override_hitl
hitl_overridden none c e = ground arith
hitl_overridden (some true) c e = ground arith
hitl_overridden (some false) c e = ground arith

within_refl : (o : Option ℕ) → is_within o o ≡ true
within_refl none = refl
within_refl (some n) = ground arith

retries_overridden :
    (n : Option ℕ) (c : Capability) {d : Capability}
    → override_retries n c ≡ ok d
    → (d ≡ record c { hitl_max_retries = or_else n c.hitl_max_retries })
      × (is_within c.hitl_max_retries (or_else n c.hitl_max_retries) ≡ true)
unfolding override_retries
retries_overridden none c e = ground (arith, within_refl c.hitl_max_retries)
retries_overridden (some n) c e = ground arith

guidance_overridden :
    (g : Option String) (c : Capability) {d : Capability}
    → override_guidance g c ≡ ok d
    → d ≡ record c { hitl_retry_guidance = or_else g c.hitl_retry_guidance }
unfolding override_guidance
guidance_overridden none c e = ground arith
guidance_overridden (some g) c e = ground arith

timeout_overridden :
    (n : Option ℕ) (c : Capability) {d : Capability}
    → override_timeout n c ≡ ok d
    → (d ≡ record c { timeout_seconds = get_or n c.timeout_seconds })
      × (get_or n c.timeout_seconds ≤ c.timeout_seconds)
unfolding override_timeout tighten_int_field
timeout_overridden none c e = ground arith
timeout_overridden (some n) c e = ground arith

-- One limit of a reason step.
turns_overridden :
    (n : Option ℕ) (r : ReasonFields) {v : Work}
    → on_reason turns n (reason r) ≡ ok v
    → (v ≡ reason (record r { max_turns = get_or n r.max_turns }))
      × (get_or n r.max_turns ≤ r.max_turns)
unfolding tighten_int_field
turns_overridden none r e = ground arith
turns_overridden (some n) r e = ground arith

step_tokens_overridden :
    (n : Option ℕ) (r : ReasonFields) {v : Work}
    → on_reason step_tokens n (reason r) ≡ ok v
    → (v ≡ reason (record r { max_step_tokens = or_else n r.max_step_tokens }))
      × (is_within r.max_step_tokens (or_else n r.max_step_tokens) ≡ true)
unfolding tighten_optional_token_cap
step_tokens_overridden none r e = ground (arith, within_refl r.max_step_tokens)
step_tokens_overridden (some n) r e = ground arith

completion_tokens_overridden :
    (n : Option ℕ) (r : ReasonFields) {v : Work}
    → on_reason completion_tokens n (reason r) ≡ ok v
    → (v ≡ reason (record r { max_completion_tokens = or_else n r.max_completion_tokens }))
      × (is_within r.max_completion_tokens (or_else n r.max_completion_tokens) ≡ true)
unfolding tighten_optional_token_cap
completion_tokens_overridden none r e = ground (arith, within_refl r.max_completion_tokens)
completion_tokens_overridden (some n) r e = ground arith

limits_overridden :
    (o : Overrides) (w : Work) {v : Work}
    → override_limits o w ≡ ok v
    → (v ≡ overridden_work o w) × (is_no_wider w (overridden_work o w) ≡ true)
unfolding override_limits tighten_int_field tighten_optional_token_cap
limits_overridden o (commit t) e = ground arith
limits_overridden o (reason r) e =
    let q = record r { max_turns = get_or o.max_turns r.max_turns } in
    let q' = record q { max_step_tokens = or_else o.max_step_tokens r.max_step_tokens } in
    let (e1, p1) =
      bind_from (on_reason turns o.max_turns (reason r)) _ (reason q)
        (λ a h. turns_overridden o.max_turns r h) e in
    let (e2, p2) =
      bind_from (on_reason step_tokens o.max_step_tokens (reason q)) _ (reason q')
        (λ a h. step_tokens_overridden o.max_step_tokens q h) e1 in
    let (p, p3) = completion_tokens_overridden o.max_completion_tokens q' e2 in (p, ground arith)

review_overridden :
    (o : Overrides) (c : Capability) {d : Capability}
    → apply_hitl_overrides o c ≡ ok d
    → (d ≡ record c {
      hitl = get_or o.hitl c.hitl;
      hitl_max_retries = or_else o.hitl_max_retries c.hitl_max_retries;
      hitl_retry_guidance = or_else o.hitl_retry_guidance c.hitl_retry_guidance;
    })
      × ((c.hitl ≡ true → get_or o.hitl c.hitl ≡ true)
          × (is_within c.hitl_max_retries (or_else o.hitl_max_retries c.hitl_max_retries) ≡ true))
unfolding apply_hitl_overrides
review_overridden o c e =
    let a = record c { hitl = get_or o.hitl c.hitl } in
    let b = record a { hitl_max_retries = or_else o.hitl_max_retries c.hitl_max_retries } in
    let (e1, p1) = bind_from (override_hitl o.hitl c) _ a (λ x h. hitl_overridden o.hitl c h) e in
    let (e2, p2) =
      bind_from (override_retries o.hitl_max_retries a) _ b
        (λ x h. retries_overridden o.hitl_max_retries a h) e1 in
    (guidance_overridden o.hitl_retry_guidance b e2, (p1, p2))

-- Overrides that are accepted are all in effect and change nothing else, and the step is then no wider
-- than the catalog's: a review is not dropped, and the manual retries, the time, the turns and the
-- tokens that it is allowed are no more.
pub apply_tighten_overrides-NoWider :
    (o : Overrides) (c : Capability) {d : Capability}
    → apply_tighten_overrides o c ≡ ok d
    → (d ≡ overridden o c) × NoWider c (overridden o c)
unfolding apply_tighten_overrides
apply_tighten_overrides-NoWider o c {d} e =
    let a = record c {
      hitl = get_or o.hitl c.hitl;
      hitl_max_retries = or_else o.hitl_max_retries c.hitl_max_retries;
      hitl_retry_guidance = or_else o.hitl_retry_guidance c.hitl_retry_guidance;
    } in
    let b = record a { timeout_seconds = get_or o.timeout_seconds c.timeout_seconds } in
    let (e1, p1) = bind_from (apply_hitl_overrides o c) _ a (λ x h. review_overridden o c h) e in
    let (e2, p2) =
      bind_from (override_timeout o.timeout_seconds a) _ b
        (λ x h. timeout_overridden o.timeout_seconds a h) e1 in
    let (e3, p3) =
      bind_from (override_limits o c.work) _ (overridden_work o c.work)
        (λ x h. limits_overridden o c.work h) e2 in
    (ground arith, record { review = p1.0; retries = p1.1; timeout = p2; work = p3 })
