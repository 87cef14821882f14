-- ===== src/Base/Texts.antt =====
-- Texts as lists of UTF-16 code units, which is how the language measures, slices and compares them.
use Prim.Native.Nat.{ℕ}
use Prim.Native.Char.{code}
use Prim.Native.String.{String}
use mathlib.Core.Path.{◌≡◌, refl}
use mathlib.Core.Logic.{◌↔◌}
use mathlib.Core.Bool.{Bool, true, false, ◌&&◌}
use mathlib.Core.List.{List, [], ◌∷◌, ◌++◌}
use native.Mathlib.Omega.{arith}
use abhishek_bhat2005_reachi.Base.Tests.{◌==◌, ==_refl}
use abhishek_bhat2005_reachi.Base.Lists.{length}

abbrev pub Text : Type 0
Text = List ℕ

-- The code units of a literal, which is ASCII wherever it is used.
abbrev pub codes : String → Text
codes String.[] = []
codes (String.◌∷◌ c s) = code c ∷ codes s

-- `s === t`.
unfoldable pub text_eq : Text → Text → Bool
text_eq [] [] = true
text_eq [] (y ∷ ys) = false
text_eq (x ∷ xs) [] = false
text_eq (x ∷ xs) (y ∷ ys) = x == y && text_eq xs ys

pub text_eq_iff : (s t : Text) → (text_eq s t ≡ true) ↔ (s ≡ t)
unfolding text_eq
text_eq_iff [] [] = ground arith
text_eq_iff [] (y ∷ ys) = ground arith
text_eq_iff (x ∷ xs) [] = ground arith
text_eq_iff (x ∷ xs) (y ∷ ys) = ground (arith, text_eq_iff xs ys)

pub text_eq_refl : (s : Text) → text_eq s s ≡ true
text_eq_refl s = (text_eq_iff s s).1 refl

pub text_eq-append : (p s t : Text) → text_eq (p ++ s) (p ++ t) ≡ text_eq s t
unfolding text_eq
text_eq-append [] s t = refl
text_eq-append (x ∷ p) s t = ground (arith, ==_refl x, text_eq-append p s t)

-- Texts that agree so far as a prefix of equal length goes agree in that prefix.
pub text_eq-prefix :
    (p q s t : Text) → length p ≡ length q → text_eq (p ++ s) (q ++ t) ≡ true → p ≡ q
unfolding text_eq
text_eq-prefix [] [] s t h e = refl
text_eq-prefix [] (y ∷ q) s t h e = absurd (omega arith)
text_eq-prefix (x ∷ p) [] s t h e = absurd (omega arith)
text_eq-prefix (x ∷ p) (y ∷ q) s t h e = ground (arith, text_eq-prefix p q s t)
