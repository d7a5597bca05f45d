-- ===== src/Queue/Removal.antt =====
-- The loops of `releaseFromHandle` that build a list without one channel.
use rsync_proxy.Base.{
  ℕ, ◌≡◌, refl, ◌≢◌, ◌≤◌, ◌==◌, List, [], ◌∷◌, ◌++◌, inl, inr, arith, All, Distinct, length,
  Bool-cases,
}
use rsync_proxy.Queue.{without}

pub without-append :
    (ch : ℕ) (xs ys : List ℕ) → without ch (xs ++ ys) ≡ without ch xs ++ without ch ys
unfolding without
without-append ch [] ys = refl
without-append ch (x ∷ xs) ys = ground (arith, without-append ch xs ys)

pub length-without-le : (ch : ℕ) (xs : List ℕ) → length (without ch xs) ≤ length xs
unfolding without
length-without-le ch [] = omega arith
length-without-le ch (x ∷ xs) = ground (arith, length-without-le ch xs)

-- Nothing was removed just when the channel is not there.
pub without-absent : (ch : ℕ) (xs : List ℕ) → All (λ x. x ≢ ch) xs → without ch xs ≡ xs
unfolding without
without-absent ch [] h = refl
without-absent ch (x ∷ xs) h = ground (arith, without-absent ch xs h.1)

pub absent_of_length :
    (ch : ℕ) (xs : List ℕ) → length (without ch xs) ≡ length xs → All (λ x. x ≢ ch) xs
unfolding without
absent_of_length ch [] h = tt
absent_of_length ch (x ∷ xs) h = elim (Bool-cases (ch == x)) [
  | inl hit ↦ absurd (omega (arith, length-without-le ch xs, rw hit at h))
  | inr miss ↦ (ground arith, absent_of_length ch xs (omega (arith, rw miss at h)))
]

pub All-without {κ} : (P : ℕ → Type κ) (ch : ℕ) (xs : List ℕ) → All P xs → All P (without ch xs)
unfolding without
All-without P ch [] h = tt
All-without P ch (x ∷ xs) h = elim (Bool-cases (ch == x)) [
  | inl hit ↦ rw hit (All-without P ch xs h.1)
  | inr miss ↦ rw miss (h.0, All-without P ch xs h.1)
]

pub Distinct-without : (ch : ℕ) (xs : List ℕ) → Distinct xs → Distinct (without ch xs)
unfolding without
Distinct-without ch [] d = tt
Distinct-without ch (x ∷ xs) d = elim (Bool-cases (ch == x)) [
  | inl hit ↦ rw hit (Distinct-without ch xs d.1)
  | inr miss ↦ rw miss (All-without (λ y. y ≢ x) ch xs d.0, Distinct-without ch xs d.1)
]

without-gone : (ch : ℕ) (xs : List ℕ) → All (λ x. x ≢ ch) (without ch xs)
unfolding without
without-gone ch [] = tt
without-gone ch (x ∷ xs) = elim (Bool-cases (ch == x)) [
  | inl hit ↦ rw hit (without-gone ch xs)
  | inr miss ↦ rw miss (ground arith, without-gone ch xs)
]
