-- ===== src/Base/Text.antt =====
-- Go strings and byte slices as lists of numbers: literals, equality, prefixes and order.
use Prim.Native.Nat.{ℕ}
use Prim.Native.Char.{code}
use Prim.Native.String.{String}
use mathlib.Core.Path.{◌≡◌, refl}
use mathlib.Core.Logic.{◌↔◌}
use mathlib.Core.Bool.{Bool, true, false, ◌&&◌}
use mathlib.Core.List.{List, [], ◌∷◌}
use native.Mathlib.Omega.{arith}
use rsync_proxy.Base.Tests.{ltb, ◌==◌, if◌then◌else◌}

abbrev pub Bytes : Type 0
Bytes = List ℕ

-- A literal; all that the source has are ASCII.
abbrev pub codes : String → Bytes
codes String.[] = []
codes (String.◌∷◌ c s) = code c ∷ codes s

abbrev pub bytes_beq : Bytes → Bytes → Bool
bytes_beq [] [] = true
bytes_beq [] (y ∷ ys) = false
bytes_beq (x ∷ xs) [] = false
bytes_beq (x ∷ xs) (y ∷ ys) = x == y && bytes_beq xs ys

pub bytes_beq_iff : (a b : Bytes) → (bytes_beq a b ≡ true) ↔ (a ≡ b)
bytes_beq_iff [] [] = ground arith
bytes_beq_iff [] (y ∷ ys) = ground arith
bytes_beq_iff (x ∷ xs) [] = ground arith
bytes_beq_iff (x ∷ xs) (y ∷ ys) = ground (arith, bytes_beq_iff xs ys)

-- `strings.HasPrefix(s, p)` and `bytes.HasPrefix(s, p)`
abbrev pub has_prefix : Bytes → Bytes → Bool
has_prefix s [] = true
has_prefix [] (y ∷ ys) = false
has_prefix (x ∷ xs) (y ∷ ys) = x == y && has_prefix xs ys

-- `a < b` on strings: the order of their bytes.
abbrev pub bytes_ltb : Bytes → Bytes → Bool
bytes_ltb a [] = false
bytes_ltb [] (y ∷ ys) = true
bytes_ltb (x ∷ xs) (y ∷ ys) = if x == y then bytes_ltb xs ys else ltb x y

-- The order of strings as an order that is not strict.
pub bytes_ltb_asym : (a b : Bytes) → bytes_ltb a b ≡ true → bytes_ltb b a ≡ false
bytes_ltb_asym a [] h = absurd cc
bytes_ltb_asym [] (y ∷ ys) h = refl
bytes_ltb_asym (x ∷ xs) (y ∷ ys) h = ground (arith, bytes_ltb_asym xs ys)

pub bytes_ltb_trans :
    (a b c : Bytes) → bytes_ltb b a ≡ false → bytes_ltb c b ≡ false → bytes_ltb c a ≡ false
bytes_ltb_trans [] b c h k = refl
bytes_ltb_trans (x ∷ xs) [] c h k = absurd cc
bytes_ltb_trans (x ∷ xs) (y ∷ ys) [] h k = absurd cc
bytes_ltb_trans (x ∷ xs) (y ∷ ys) (z ∷ zs) h k = ground (arith, bytes_ltb_trans xs ys zs)
