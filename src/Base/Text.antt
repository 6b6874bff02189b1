-- ===== src/Base/Text.antt =====
-- Texts: a C string is the list of its character codes, without the end. `codes` gives the list of
-- a literal.
use Prim.Native.Char.{code}
use Prim.Native.String.{String}
use Prim.Native.Nat.{ℕ}
use mathlib.Core.Path.{◌≡◌, refl, ap₂}
use mathlib.Core.Bool.{Bool, true, false, ◌&&◌}
use mathlib.Core.List.{List, [], ◌∷◌}
use native.Mathlib.Omega.{arith}
use daikin_d3net.Base.Tests.{◌==◌}

abbrev pub codes : String → List ℕ
codes String.[] = []
codes (String.◌∷◌ c s) = code c ∷ codes s

-- `strcmp(s, t) == 0`
abbrev pub same_text : List ℕ → List ℕ → Bool
same_text [] [] = true
same_text [] (y ∷ ys) = false
same_text (x ∷ xs) [] = false
same_text (x ∷ xs) (y ∷ ys) = x == y && same_text xs ys

-- `s[0] == '\0'`
abbrev pub is_empty : List ℕ → Bool
is_empty [] = true
is_empty (x ∷ xs) = false

pub same_text-eq : (s t : List ℕ) → same_text s t ≡ true → s ≡ t
same_text-eq [] [] e = refl
same_text-eq [] (y ∷ ys) e = cc e
same_text-eq (x ∷ xs) [] e = cc e
same_text-eq (x ∷ xs) (y ∷ ys) e = ap₂ ◌∷◌ (ground arith) (same_text-eq xs ys (ground arith))
