-- ===== src/Base/Texts.antt =====
-- C strings as the bytes before the terminating NUL.
use Prim.Native.Nat.{ℕ}
use Prim.Native.Char.{code}
use Prim.Native.String.{String}
use mathlib.Core.Path.{◌≡◌, refl}
use mathlib.Core.Logic.{◌≢◌}
use native.Mathlib.Omega.{arith}
use mathlib.Core.Bool.{Bool, true, false, ◌&&◌}
use mathlib.Core.List.{List, [], ◌∷◌}
use qbit_nova_c.Base.Tests.{◌==◌}

abbrev pub Text : Type 0
Text = List ℕ

-- The bytes of an ASCII literal.
abbrev pub codes : String → Text
codes String.[] = []
codes (String.◌∷◌ c s) = code c ∷ codes s

-- strcmp(a, b) == 0
unfoldable pub same : Text → Text → Bool
same [] [] = true
same (x ∷ a) (y ∷ b) = (x == y) && same a b
same a b = false

pub same_refl : (a : Text) → same a a ≡ true
unfolding same
same_refl [] = refl
same_refl (x ∷ a) = ground (arith, same_refl a)

pub same→eq : (a b : Text) → same a b ≡ true → a ≡ b
unfolding same
same→eq [] [] h = refl
same→eq [] (y ∷ b) h = cc
same→eq (x ∷ a) [] h = cc
same→eq (x ∷ a) (y ∷ b) h = ground (arith, same→eq a b)

pub same-eq_false : (a b : Text) → a ≢ b → same a b ≡ false
same-eq_false a b h = ground (arith, same→eq a b)
