-- ===== src/Base/Decimal.antt =====
-- `%d`, `%03d` and `%06d` of a number.
use mathlib.Core.List.{[], ◌∷◌, ◌++◌, append_assoc}
use rsync_proxy.Base.Lists.{All, All-append}
use Prim.Native.Nat.{ℕ, zero, suc, ◌+◌, ◌*◌, ◌/◌, ◌%◌, ◌<◌}
use mathlib.Core.Path.{◌≡◌, refl, ap, ◌∙◌}
use mathlib.Core.Logic.{inl, inr}
use mathlib.Core.Bool.{false}
use native.Mathlib.Omega.{arith}
use rsync_proxy.Base.Tests.{ltb, if◌then◌else◌, Bool-cases}
use rsync_proxy.Base.Text.{Bytes}
use rsync_proxy.Base.Int.{ℤ, pos, negsuc}

digits_fuel : ℕ → ℕ → Bytes
digits_fuel zero n = []
digits_fuel (suc fuel) n =
    let rest = digits_fuel fuel (n / 10) in
    if ltb n 10 then (48 + n) ∷ [] else rest ++ (48 + n % 10) ∷ []

unfoldable pub decimal : ℕ → Bytes
unfolding digits_fuel
decimal n = digits_fuel (suc n) n

digits_fuel-All {κ} :
    (P : ℕ → Type κ) → ((d : ℕ) → d < 10 → P (48 + d)) → (f n : ℕ) → All P (digits_fuel f n)
unfolding digits_fuel
digits_fuel-All P h zero n = tt
digits_fuel-All P h (suc f) n = elim (Bool-cases (ltb n 10)) [
  | inl small ↦ rw small ((h n (ground arith), tt))
  | inr large ↦ rw large (
      All-append P (digits_fuel f (n / 10)) _ (digits_fuel-All P h f (n / 10))
        (h (n % 10) (omega arith), tt))
]

-- A property of the ten digits is one of all the bytes of a number.
pub decimal-All {κ} :
    (P : ℕ → Type κ) → ((d : ℕ) → d < 10 → P (48 + d)) → (n : ℕ) → All P (decimal n)
unfolding decimal
decimal-All P h n = digits_fuel-All P h (suc n) n

digits_fuel_enough : (f g n : ℕ) → n < f → n < g → digits_fuel f n ≡ digits_fuel g n
unfolding digits_fuel
digits_fuel_enough zero g n h k = absurd (omega arith)
digits_fuel_enough (suc f) zero n h k = absurd (omega arith)
digits_fuel_enough (suc f) (suc g) n h k = elim (Bool-cases (ltb n 10)) [
  | inl small ↦ rw small refl
  | inr large ↦ rw large (
      ap (λ l. l ++ (48 + n % 10) ∷ [])
        (digits_fuel_enough f g (n / 10) (ground arith) (ground arith)))
]

decimal_step : (m : ℕ) → ltb m 10 ≡ false → decimal m ≡ decimal (m / 10) ++ (48 + m % 10) ∷ []
unfolding decimal
decimal_step m large = rw large (
    ap (λ l. l ++ (48 + m % 10) ∷ [])
      (digits_fuel_enough m (suc (m / 10)) (m / 10) (ground arith) (ground arith)))

-- The last digit of a number with more than one.
pub decimal_last : (n d : ℕ) → 0 < n → d < 10 → decimal (n * 10 + d) ≡ decimal n ++ (48 + d) ∷ []
decimal_last n d positive h =
    decimal_step (n * 10 + d) (ground arith)
    ∙ ap (λ k. decimal k ++ (48 + (n * 10 + d) % 10) ∷ []) (omega arith)
    ∙ ap (λ k. decimal n ++ (48 + k) ∷ []) (omega arith)

-- `%03d` of a number below 1000.
abbrev pub pad3 : ℕ → Bytes
pad3 n = (48 + n / 100) ∷ (48 + n / 10 % 10) ∷ (48 + n % 10) ∷ []

split_digits : (a b : ℕ) → a * 1000 + b ≡ ((a * 10 + b / 100) * 10 + b / 10 % 10) * 10 + b % 10
split_digits a b = omega arith

split_thousands : (a b : ℕ) → a * 1000000 + b ≡ (a * 1000 + b / 1000) * 1000 + b % 1000
split_thousands a b = omega arith

pub decimal-pad3 : (a b : ℕ) → 0 < a → b < 1000 → decimal (a * 1000 + b) ≡ decimal a ++ pad3 b
decimal-pad3 a b h k =
    ap decimal (split_digits a b)
    ∙ decimal_last ((a * 10 + b / 100) * 10 + b / 10 % 10) (b % 10) (omega arith) (omega arith)
    ∙ ap (λ l. l ++ (48 + b % 10) ∷ [])
        (decimal_last (a * 10 + b / 100) (b / 10 % 10) (omega arith) (omega arith)
          ∙ ap (λ l. l ++ (48 + b / 10 % 10) ∷ []) (decimal_last a (b / 100) h (omega arith)))
    ∙ append_assoc (decimal a ++ (48 + b / 100) ∷ []) _ _
    ∙ append_assoc (decimal a) _ _

-- `%06d` of a number below 1000000.
abbrev pub pad6 : ℕ → Bytes
pad6 n = pad3 (n / 1000) ++ pad3 (n % 1000)

pub decimal-pad6 : (a b : ℕ) → 0 < a → b < 1000000 → decimal (a * 1000000 + b) ≡ decimal a ++ pad6 b
decimal-pad6 a b h k =
    ap decimal (split_thousands a b)
    ∙ decimal-pad3 (a * 1000 + b / 1000) (b % 1000) (omega arith) (omega arith)
    ∙ ap (λ l. l ++ pad3 (b % 1000)) (decimal-pad3 a (b / 1000) h (omega arith))
    ∙ append_assoc (decimal a) (pad3 (b / 1000)) (pad3 (b % 1000))

-- `%d` of an `int`
abbrev pub decimal_ℤ : ℤ → Bytes
decimal_ℤ (pos n) = decimal n
decimal_ℤ (negsuc n) = b'-' ∷ decimal (suc n)
