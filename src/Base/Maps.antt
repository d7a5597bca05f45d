-- ===== src/Base/Maps.antt =====
-- Equality as an interface, and Go's maps as association lists over it.
use mathlib.Core.Path.{◌≡◌, refl, subst, sym, ◌∙◌}
use mathlib.Core.Logic.{◌↔◌, ◌≢◌, inl, inr}
use mathlib.Core.Bool.{Bool, true, false, ◌&&◌}
use mathlib.Core.List.{List, [], ◌∷◌}
use mathlib.Core.Option.{Option, none, some, some-injective}
use native.Mathlib.Omega.{arith}
use rsync_proxy.Base.Lists.{All}
use Prim.Native.Nat.{ℕ}
use rsync_proxy.Base.Tests.{◌==◌, if◌then◌else◌, Bool-cases}
use rsync_proxy.Base.Text.{Bytes, bytes_beq, bytes_beq_iff}

pub record Eq {ℓ} (A : Type ℓ) : Type ℓ where
  pub beq : A → A → Bool
  pub beq_iff : (a b : A) → (beq a b ≡ true) ↔ (a ≡ b)

infix 50 ◌=?◌
abbrev pub ◌=?◌ {ℓ} : {A : Type ℓ} ⦃e : Eq A⦄ → A → A → Bool
◌=?◌ ⦃e⦄ = e.beq

instance abbrev pub bytes_eq : Eq Bytes
bytes_eq = record { beq = bytes_beq; beq_iff = bytes_beq_iff }

abbrev pub pair_beq : Bytes × Bytes → Bytes × Bytes → Bool
pair_beq (a, b) (c, d) = bytes_beq a c && bytes_beq b d

pub pair_beq_iff : (p q : Bytes × Bytes) → (pair_beq p q ≡ true) ↔ (p ≡ q)
pair_beq_iff (a, b) (c, d) = ground (arith, bytes_beq_iff a c, bytes_beq_iff b d)

instance abbrev pub pair_eq : Eq (Bytes × Bytes)
pair_eq = record { beq = pair_beq; beq_iff = pair_beq_iff }

pub nat_beq_iff : (a b : ℕ) → ((a == b) ≡ true) ↔ (a ≡ b)
nat_beq_iff a b = (λ e. ground arith, λ e. ground arith)

instance abbrev pub nat_eq : Eq ℕ
nat_eq = record { beq = ◌==◌; beq_iff = nat_beq_iff }

module _ {ℓ κ} {K : Type ℓ} {V : Type κ} ⦃e : Eq K⦄ where
  unfoldable pub lookup : K → List (K × V) → Option V
  lookup k [] = none
  lookup k ((j, v) ∷ m) = if j =? k then some v else lookup k m

  -- `m[k] = v`
  unfoldable pub insert : K → V → List (K × V) → List (K × V)
  insert k v [] = (k, v) ∷ []
  insert k v ((j, w) ∷ m) = if j =? k then (k, v) ∷ m else (j, w) ∷ insert k v m

  pub lookup-insert :
      (k j : K) (v : V) (m : List (K × V))
      → lookup j (insert k v m) ≡ (if k =? j then some v else lookup j m)
  unfolding lookup insert
  lookup-insert k j v [] = refl
  lookup-insert k j v ((i, w) ∷ m) =
      ground (arith, e.beq_iff k j, e.beq_iff i k, e.beq_iff i j, lookup-insert k j v m)

  pub lookup-All {μ} :
      (P : V → Type μ) (k : K) (v : V) (m : List (K × V))
      → All (λ x. P x.1) m
      → lookup k m ≡ some v
      → P v
  unfolding lookup
  lookup-All P k v [] h e = absurd cc
  lookup-All P k v ((j, w) ∷ m) (h, hs) e = elim (Bool-cases (j =? k)) [
    | inl hit ↦ subst P (some-injective w v (sym (found hit) ∙ e)) h
    | inr miss ↦ lookup-All P k v m hs (sym (later miss) ∙ e)
  ]
    where
      found : (j =? k) ≡ true → (if j =? k then some w else lookup k m) ≡ some w
      found hit = rw hit

      later : (j =? k) ≡ false → (if j =? k then some w else lookup k m) ≡ lookup k m
      later miss = rw miss

-- No key twice.
abbrev pub HasDistinctKeys {ℓ κ} : {K : Type ℓ} {V : Type κ} → List (K × V) → Type (ℓ ⊔ κ)
HasDistinctKeys [] = Unit
HasDistinctKeys ((k, v) ∷ m) = All (λ p. p.0 ≢ k) m × HasDistinctKeys m

module _ {ℓ κ} {K : Type ℓ} {V : Type κ} ⦃e : Eq K⦄ where
  insert-All {μ} :
      (P : K → Type μ) (k : K) (v : V) (m : List (K × V))
      → P k
      → All (λ p. P p.0) m
      → All (λ p. P p.0) (insert k v m)
  unfolding insert
  insert-All P k v [] p h = (p, tt)
  insert-All P k v ((j, w) ∷ m) p h = elim (Bool-cases (j =? k)) [
    | inl hit ↦ rw hit ((p, h.1))
    | inr miss ↦ rw miss ((h.0, insert-All P k v m p h.1))
  ]

  pub insert-HasDistinctKeys :
      (k : K) (v : V) (m : List (K × V)) → HasDistinctKeys m → HasDistinctKeys (insert k v m)
  unfolding insert
  insert-HasDistinctKeys k v [] h = (tt, tt)
  insert-HasDistinctKeys k v ((j, w) ∷ m) h = elim (Bool-cases (j =? k)) [
    | inl hit ↦ rw hit ((subst (λ i. All (λ p. p.0 ≢ i) m) ((e.beq_iff j k).0 hit) h.0, h.1))
    | inr miss ↦ rw miss (
        (
          insert-All (λ i. i ≢ j) k v m (λ is. absurd (ground (arith, (e.beq_iff j k).1 (sym is))))
              h.0,
          insert-HasDistinctKeys k v m h.1,
        ))
  ]
