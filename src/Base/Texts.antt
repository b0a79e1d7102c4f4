-- ===== src/Base/Texts.antt =====
-- Python's texts: `strip`, `lower`, `os.path.basename` and `not s`.
use Prim.Native.Nat.{ℕ}
use Prim.Native.String.{String}
use Prim.Native.Char.{code}
use mathlib.Core.Bool.{Bool, true, false, ◌&&◌, ◌||◌}
use timeline.Base.Tests.{if◌then◌else◌, leb, eqb}

-- `not s`
abbrev pub is_blank : String → Bool
is_blank String.[] = true
is_blank (String.◌∷◌ c s) = false

-- The tests on characters take their codes.
abbrev pub between : ℕ → ℕ → ℕ → Bool
between low high c = leb low c && leb c high

-- `str.isspace` of one character.
abbrev pub is_space : ℕ → Bool
is_space c =
    between 9 13 c
    || between 28 32 c
    || eqb c 133
    || eqb c 160
    || eqb c 5760
    || between 8192 8202 c
    || between 8232 8233 c
    || eqb c 8239
    || eqb c 8287
    || eqb c 12288

-- `s.lstrip(…)`, `s.rstrip(…)` and `s.strip(…)` for the characters that pass a test.
module _ (drops : ℕ → Bool) where
  unfoldable pub strip_start : String → String
  strip_start String.[] = String.[]
  strip_start (String.◌∷◌ c s) =
      let rest = strip_start s in if drops (code c) then rest else String.◌∷◌ c s

  unfoldable pub strip_end : String → String
  strip_end String.[] = String.[]
  strip_end (String.◌∷◌ c s) =
      let rest = strip_end s in
      if is_blank rest && drops (code c) then String.[] else String.◌∷◌ c rest

  abbrev pub strip_of : String → String
  strip_of s = strip_end (strip_start s)

abbrev pub strip : String → String
strip = strip_of is_space
