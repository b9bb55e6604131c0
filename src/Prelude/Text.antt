-- ===== src/Prelude/Text.antt =====
-- Text as JavaScript strings are used here: native texts where they are compared or joined, lists of
-- character codes where a pattern walks them.
use Prim.Native.Nat.{ℕ, ◌+◌}
use Prim.Native.Char.{code}
use Prim.Native.String.{String}
use mathlib.Core.Bool.{Bool, true, false, ◌&&◌, ◌||◌}
use mathlib.Core.List.{List, [], ◌∷◌}
use risk_claw_sol.Prelude.Tests.{leb, ◌==◌, if◌then◌else◌}

abbrev pub codes : String → List ℕ
codes String.[] = []
codes (String.◌∷◌ c s) = code c ∷ codes s

-- The `i` flag of a regular expression over ASCII letters.
abbrev pub lower : ℕ → ℕ
lower c = if leb 65 c && leb c 90 then c + 32 else c

abbrev pub starts_with_ci : List ℕ → List ℕ → Bool
starts_with_ci [] s = true
starts_with_ci (p ∷ ps) [] = false
starts_with_ci (p ∷ ps) (c ∷ s) = (lower p == lower c) && starts_with_ci ps s

-- `/p/i.test(s)` for a pattern `p` of plain letters: an occurrence anywhere, in any case.
abbrev pub contains_ci : List ℕ → List ℕ → Bool
contains_ci p [] = starts_with_ci p []
contains_ci p (c ∷ s) = starts_with_ci p (c ∷ s) || contains_ci p s
