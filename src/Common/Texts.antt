-- ===== src/Common/Texts.antt =====
-- C strings as lists of bytes, without the final NUL, and the <string.h> functions that the
-- sources call: strcmp, strchr and strrchr.
use Prim.Native.Nat.{ℕ, suc}
use mathlib.Core.Path.{◌≡◌, refl}
use mathlib.Core.Logic.{◌↔◌}
use mathlib.Core.Bool.{Bool, true, false, ◌&&◌, ◌||◌}
use mathlib.Core.List.{List, [], ◌∷◌, ◌++◌}
use mathlib.Core.Option.{Option, none, some}
use native.Mathlib.Omega.{arith}
use sistemas_operativos_fiub.Common.Tests.{◌==◌, if◌then◌else◌}
use sistemas_operativos_fiub.Common.Lists.{length}

abbrev pub Texto : Type 0
Texto = List ℕ

-- strcmp(a, b) == 0
unfoldable pub str_eq : Texto → Texto → Bool
str_eq [] [] = true
str_eq [] (b ∷ bs) = false
str_eq (a ∷ as') [] = false
str_eq (a ∷ as') (b ∷ bs) = a == b && str_eq as' bs

pub str_eq_iff : (a b : Texto) → (str_eq a b ≡ true) ↔ (a ≡ b)
unfolding str_eq
str_eq_iff [] [] = ground arith
str_eq_iff [] (b ∷ bs) = ground arith
str_eq_iff (a ∷ as') [] = ground arith
str_eq_iff (a ∷ as') (b ∷ bs) = ground (arith, str_eq_iff as' bs)

pub str_eq_refl : (a : Texto) → str_eq a a ≡ true
str_eq_refl a = (str_eq_iff a a).1 refl

-- The index of the first `c`; `none` is the null pointer.
unfoldable pub strchr : Texto → ℕ → Option ℕ
strchr [] c = none
strchr (x ∷ xs) c =
    let rest = strchr xs c in
    if x == c then some 0 else elim rest [ none ↦ none | some i ↦ some (suc i) ]

-- The index of the last `c`.
unfoldable pub strrchr : Texto → ℕ → Option ℕ
strrchr [] c = none
strrchr (x ∷ xs) c = elim (strrchr xs c) [
  | some i ↦ some (suc i)
  | none ↦ if x == c then some 0 else none
]

unfoldable pub has_char : Texto → ℕ → Bool
has_char [] c = false
has_char (x ∷ xs) c = x == c || has_char xs c

pub strchr-append :
    (xs ys : Texto) (c : ℕ) → has_char xs c ≡ false → strchr (xs ++ c ∷ ys) c ≡ some (length xs)
unfolding strchr has_char
strchr-append [] ys c h = ground arith
strchr-append (x ∷ xs) ys c h = ground (arith, strchr-append xs ys c)

pub strrchr-eq-none : (xs : Texto) (c : ℕ) → has_char xs c ≡ false → strrchr xs c ≡ none
unfolding strrchr has_char
strrchr-eq-none [] c h = refl
strrchr-eq-none (x ∷ xs) c h = ground (arith, strrchr-eq-none xs c)

pub strrchr-append :
    (xs ys : Texto) (c : ℕ) → has_char ys c ≡ false → strrchr (xs ++ c ∷ ys) c ≡ some (length xs)
unfolding strrchr
strrchr-append [] ys c h = ground (arith, strrchr-eq-none ys c h)
strrchr-append (x ∷ xs) ys c h = ground (arith, strrchr-append xs ys c h)
