-- ===== src/Text.antt =====
-- The methods of Python's `str` that the engine uses, over code points: strip, upper, lower and
-- `in`. Letters and white space are those of ASCII.
use Prim.Native.Char.{Char, code}
use warden_core.Prelude.{
  ℕ, ◌+◌, ◌-◌, String, Bool, true, false, ◌&&◌, ◌||◌, List, [], ◌∷◌, map, leb, eqb, ◌==◌, Option,
  none, some, if◌then◌else◌,
}

abbrev pub codes : String → List ℕ
codes String.[] = []
codes (String.◌∷◌ c s) = code c ∷ codes s

abbrev pub is_space : ℕ → Bool
is_space c = eqb c 32 || (leb 9 c && leb c 13) || (leb 28 c && leb c 31)

unfoldable pub lstrip : String → String
lstrip String.[] = String.[]
lstrip (String.◌∷◌ c s) = if is_space (code c) then lstrip s else String.◌∷◌ c s

-- One character before a text whose end is stripped.
abbrev pub before : Char → String → String
before c String.[] = if is_space (code c) then String.[] else String.◌∷◌ c String.[]
before c s = String.◌∷◌ c s

unfoldable pub rstrip : String → String
rstrip String.[] = String.[]
rstrip (String.◌∷◌ c s) = before c (rstrip s)

unfoldable pub strip : String → String
unfolding lstrip rstrip
strip s = rstrip (lstrip s)

abbrev upper_code : ℕ → ℕ
upper_code c = if leb b'a' c && leb c b'z' then c - 32 else c

unfoldable pub upper : List ℕ → List ℕ
upper = map upper_code

abbrev lower_code : ℕ → ℕ
lower_code c = if leb b'A' c && leb c b'Z' then c + 32 else c

unfoldable pub lower : List ℕ → List ℕ
lower = map lower_code

unfoldable pub is_prefix : List ℕ → List ℕ → Bool
is_prefix [] cs = true
is_prefix (p ∷ ps) [] = false
is_prefix (p ∷ ps) (c ∷ cs) = eqb p c && is_prefix ps cs

-- `word in text`
unfoldable pub contains : List ℕ → List ℕ → Bool
unfolding is_prefix
contains word [] = is_prefix word []
contains word (c ∷ cs) = is_prefix word (c ∷ cs) || contains word cs

-- `not text.strip()`
unfoldable pub is_blank : String → Bool
unfolding strip
is_blank s = strip s == ""

-- `text.strip() or None`
unfoldable pub stripped : Option String → Option String
unfolding is_blank
stripped none = none
stripped (some s) = if is_blank s then none else some (strip s)
