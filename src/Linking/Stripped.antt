-- ===== src/Linking/Stripped.antt =====
-- Texts that are stripped twice (Text, str.strip).
use warden_core.Prelude.{String, ◌≡◌, refl, false, ◌==◌, inl, inr, Bool-cases, arith}
use Prim.Native.Char.{code}
use warden_core.Text.{lstrip, rstrip, strip, is_blank, is_space, before}
use warden_core.Catalog.Checked.{ok}
use warden_core.Catalog.Parts.{non_empty}
use warden_core.Linking.Binds.{ok-inj}

lstrip-lstrip : (s : String) → lstrip (lstrip s) ≡ lstrip s
unfolding lstrip
lstrip-lstrip String.[] = refl
lstrip-lstrip (String.◌∷◌ c s) = elim (Bool-cases (is_space (code c))) [
  | inl t ↦ rw t (lstrip-lstrip s)
  | inr f ↦ rw (f, f) refl
]

rstrip-before : (c : _) (s : String) → rstrip s ≡ s → rstrip (before c s) ≡ before c s
unfolding rstrip
rstrip-before c String.[] h = elim (Bool-cases (is_space (code c))) [
  | inl t ↦ rw t refl
  | inr f ↦ rw (f, f) refl
]
rstrip-before c (String.◌∷◌ d s) h = rw h refl

rstrip-rstrip : (s : String) → rstrip (rstrip s) ≡ rstrip s
unfolding rstrip
rstrip-rstrip String.[] = refl
rstrip-rstrip (String.◌∷◌ c s) = rstrip-before c (rstrip s) (rstrip-rstrip s)

-- A text that begins with no white space still begins with none when its end is stripped.
lstrip-before : (c : _) (s : String) → is_space (code c) ≡ false → lstrip (before c s) ≡ before c s
unfolding lstrip
lstrip-before c String.[] h = rw (h, h) refl
lstrip-before c (String.◌∷◌ d s) h = rw h refl

lstrip-rstrip : (s : String) → lstrip (rstrip (lstrip s)) ≡ rstrip (lstrip s)
unfolding lstrip rstrip
lstrip-rstrip String.[] = refl
lstrip-rstrip (String.◌∷◌ c s) = elim (Bool-cases (is_space (code c))) [
  | inl t ↦ rw t (lstrip-rstrip s)
  | inr f ↦ rw f (lstrip-before c (rstrip s) f)
]

pub strip-strip : (s : String) → strip (strip s) ≡ strip s
unfolding strip
strip-strip s = rw lstrip-rstrip (rstrip-rstrip (lstrip s))

pub non_empty-again :
    (message v : String) {u : String} → non_empty message v ≡ ok u → non_empty message u ≡ ok u
unfolding non_empty is_blank
non_empty-again message v {u} h = elim (Bool-cases (strip v == "")) [
  | inl t ↦ absurd (ground arith)
  | inr f ↦ let same : strip v ≡ u = ok-inj (rw f at h) in rw (← same, strip-strip v, f) refl
]
