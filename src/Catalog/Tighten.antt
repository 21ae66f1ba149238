-- ===== src/Catalog/Tighten.antt =====
-- common/step_tighten.py: what a saga may override of a step of the catalog.
use warden_core.Prelude.{ℕ, String, Bool, true, false, not, Option, none, some, leb}
use warden_core.Catalog.Checked.{Checked, ok, refused, invalid, ◌>>=◌, ◌>>◌, demand}
use warden_core.Catalog.Steps.{ReasonFields, Work, reason, commit, Capability}

-- The overrides of SagaStepRef
pub record Overrides : Type 0 where
  pub hitl : Option Bool
  pub hitl_max_retries : Option ℕ
  pub hitl_retry_guidance : Option String
  pub timeout_seconds : Option ℕ
  pub max_turns : Option ℕ
  pub max_step_tokens : Option ℕ
  pub max_completion_tokens : Option ℕ

-- the first override of _apply_hitl_overrides
unfoldable pub override_hitl : Option Bool → Capability → Checked Capability
override_hitl none c = ok c
override_hitl (some true) c = ok (record c { hitl = true })
override_hitl (some false) c = do
  demand (not c.hitl) "cannot clear catalog hitl: true (tighten-only)"
  ok c

-- No more than the catalog's limit, where it has one.
abbrev pub fits_under : ℕ → Option ℕ → Bool
fits_under n none = true
fits_under n (some limit) = leb n limit

unfoldable pub override_retries : Option ℕ → Capability → Checked Capability
override_retries none c = ok c
override_retries (some n) c = do
  demand c.hitl "hitl_max_retries requires hitl: true after overrides"
  demand (fits_under n c.hitl_max_retries) "hitl_max_retries cannot exceed catalog value"
  ok (record c { hitl_max_retries = some n })

unfoldable pub override_guidance : Option String → Capability → Checked Capability
override_guidance none c = ok c
override_guidance (some g) c = do
  demand c.hitl "hitl_retry_guidance requires hitl: true after overrides"
  ok (record c { hitl_retry_guidance = some g })

-- _apply_hitl_overrides
unfoldable pub apply_hitl_overrides : Overrides → Capability → Checked Capability
apply_hitl_overrides o c = do
  a ← override_hitl o.hitl c
  b ← override_retries o.hitl_max_retries a
  override_guidance o.hitl_retry_guidance b

-- _tighten_int_field
unfoldable pub tighten_int_field : ℕ → ℕ → Checked ℕ
tighten_int_field override catalog = do
  demand (leb override catalog) "cannot exceed catalog value"
  ok override

-- _tighten_optional_token_cap, of a reason step
unfoldable pub tighten_optional_token_cap : Option ℕ → ℕ → Checked (Option ℕ)
tighten_optional_token_cap none override =
    refused (invalid "cannot set a token limit that the catalog step leaves unlimited")
tighten_optional_token_cap (some catalog) override = do
  demand (leb override catalog) "cannot exceed catalog value"
  ok (some override)

unfoldable pub override_timeout : Option ℕ → Capability → Checked Capability
unfolding tighten_int_field
override_timeout none c = ok c
override_timeout (some n) c = do
  timeout ← tighten_int_field n c.timeout_seconds
  ok (record c { timeout_seconds = timeout })

-- An override that only a reason step takes.
abbrev pub on_reason {ℓ} :
    {A : Type ℓ} → (A → ReasonFields → Checked ReasonFields) → Option A → Work → Checked Work
on_reason f none work = ok work
on_reason f (some n) (reason r) = do tightened ← f n r; ok (reason tightened)
on_reason f (some n) (commit t) = refused (invalid "override is only valid on reason steps")

abbrev pub turns : ℕ → ReasonFields → Checked ReasonFields
turns n r = do limit ← tighten_int_field n r.max_turns; ok (record r { max_turns = limit })

abbrev pub step_tokens : ℕ → ReasonFields → Checked ReasonFields
step_tokens n r = do
  limit ← tighten_optional_token_cap r.max_step_tokens n
  ok (record r { max_step_tokens = limit })

abbrev pub completion_tokens : ℕ → ReasonFields → Checked ReasonFields
completion_tokens n r = do
  limit ← tighten_optional_token_cap r.max_completion_tokens n
  ok (record r { max_completion_tokens = limit })

-- the overrides of max_turns, max_step_tokens and max_completion_tokens, in this order
unfoldable pub override_limits : Overrides → Work → Checked Work
unfolding tighten_int_field tighten_optional_token_cap
override_limits o w = do
  a ← on_reason turns o.max_turns w
  b ← on_reason step_tokens o.max_step_tokens a
  on_reason completion_tokens o.max_completion_tokens b

-- apply_tighten_overrides
unfoldable pub apply_tighten_overrides : Overrides → Capability → Checked Capability
apply_tighten_overrides o c = do
  a ← apply_hitl_overrides o c
  b ← override_timeout o.timeout_seconds a
  work ← override_limits o b.work
  ok (record b { work = work })
