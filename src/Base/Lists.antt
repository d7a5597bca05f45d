-- ===== src/Base/Lists.antt =====
-- Lists measured and indexed by native numbers, and predicates on all members, by recursion.
use Prim.Native.Nat.{ℕ, zero, suc, ◌+◌, ◌≤◌, ◌<◌}
use mathlib.Core.Path.{◌≡◌, sym, refl}
use mathlib.Core.Logic.{◌≢◌}
use mathlib.Core.List.{List, [], ◌∷◌, ◌++◌, Memᴰ}
use mathlib.Core.Option.{Option, none, some}
use native.Mathlib.Omega.{arith}

module _ {ℓ} {A : Type ℓ} where
  abbrev pub length : List A → ℕ
  length [] = 0
  length (x ∷ xs) = suc (length xs)

  abbrev pub get_elem? : List A → ℕ → Option A
  get_elem? [] i = none
  get_elem? (x ∷ xs) zero = some x
  get_elem? (x ∷ xs) (suc i) = get_elem? xs i

  pub get_elem?-lt :
      (xs : List A) (i : ℕ) → i < length xs → (x : A) × (get_elem? xs i ≡ some x) × Memᴰ x xs
  get_elem?-lt [] i h = absurd (omega arith)
  get_elem?-lt (x ∷ xs) zero h = (x, refl, Memᴰ.head refl)
  get_elem?-lt (x ∷ xs) (suc i) h =
      let (y, is, m) = get_elem?-lt xs i (omega arith) in (y, is, Memᴰ.tail m)

  abbrev pub get_or : List A → ℕ → A → A
  get_or [] i d = d
  get_or (x ∷ xs) zero d = x
  get_or (x ∷ xs) (suc i) d = get_or xs i d

  pub length-append : (xs ys : List A) → length (xs ++ ys) ≡ length xs + length ys
  length-append [] ys = omega arith
  length-append (x ∷ xs) ys = omega (arith, length-append xs ys)

module _ {ℓ κ} {A : Type ℓ} where
  abbrev pub All : (A → Type κ) → List A → Type κ
  All P [] = Unit
  All P (x ∷ xs) = P x × All P xs

  pub All-append : (P : A → Type κ) (xs ys : List A) → All P xs → All P ys → All P (xs ++ ys)
  All-append P [] ys h k = k
  All-append P (x ∷ xs) ys h k = (h.0, All-append P xs ys h.1 k)

  pub All-append_left : (P : A → Type κ) (xs ys : List A) → All P (xs ++ ys) → All P xs
  All-append_left P [] ys h = tt
  All-append_left P (x ∷ xs) ys h = (h.0, All-append_left P xs ys h.1)

  pub All-append_right : (P : A → Type κ) (xs ys : List A) → All P (xs ++ ys) → All P ys
  All-append_right P [] ys h = h
  All-append_right P (x ∷ xs) ys h = All-append_right P xs ys h.1

  pub All-mem : (P : A → Type κ) {a : A} (xs : List A) → All P xs → Memᴰ a xs → P a
  All-mem P [] h m = elim m [ ]
  All-mem P (x ∷ xs) h (Memᴰ.head e) = rw e h.0
  All-mem P (x ∷ xs) h (Memᴰ.tail m) = All-mem P xs h.1 m

module _ {ℓ κ μ} {A : Type ℓ} where
  pub All-imp :
      (P : A → Type κ) (Q : A → Type μ)
      → ((a : A) → P a → Q a)
      → (xs : List A) → All P xs
      → All Q xs
  All-imp P Q f [] h = tt
  All-imp P Q f (x ∷ xs) h = (f x h.0, All-imp P Q f xs h.1)

-- No member twice.
abbrev pub Distinct {ℓ} : {A : Type ℓ} → List A → Type ℓ
Distinct [] = Unit
Distinct (x ∷ xs) = All (λ y. y ≢ x) xs × Distinct xs

pub Distinct-snoc {ℓ} :
    {A : Type ℓ} (xs : List A) (a : A) → Distinct xs → All (λ y. y ≢ a) xs → Distinct (xs ++ a ∷ [])
Distinct-snoc [] a d h = (tt, tt)
Distinct-snoc (x ∷ xs) a d h =
    (All-append (λ y. y ≢ x) xs (a ∷ []) d.0 ((λ e. h.0 (sym e)), tt), Distinct-snoc xs a d.1 h.1)

module _ {ℓ κ μ ν} {A : Type ℓ} where
  pub All-imp2 :
      (P : A → Type κ) (Q : A → Type μ) (R : A → Type ν)
      → ((a : A) → P a → Q a → R a)
      → (xs : List A) → All P xs
      → All Q xs
      → All R xs
  All-imp2 P Q R f [] h k = tt
  All-imp2 P Q R f (x ∷ xs) h k = (f x h.0 k.0, All-imp2 P Q R f xs h.1 k.1)

module _ {ℓ} {A : Type ℓ} where
  -- No member of `ys` is in `xs`.
  abbrev pub Apart : List A → List A → Type ℓ
  Apart xs ys = All (λ x. All (λ y. y ≢ x) ys) xs

  pub Distinct-append :
      (xs ys : List A) → Distinct xs → Distinct ys → Apart xs ys → Distinct (xs ++ ys)
  Distinct-append [] ys d e a = e
  Distinct-append (x ∷ xs) ys d e a =
      (All-append (λ y. y ≢ x) xs ys d.0 a.0, Distinct-append xs ys d.1 e a.1)

  pub Distinct-append_left : (xs ys : List A) → Distinct (xs ++ ys) → Distinct xs
  Distinct-append_left [] ys d = tt
  Distinct-append_left (x ∷ xs) ys d =
      (All-append_left (λ y. y ≢ x) xs ys d.0, Distinct-append_left xs ys d.1)

  pub Distinct-append_right : (xs ys : List A) → Distinct (xs ++ ys) → Distinct ys
  Distinct-append_right [] ys d = d
  Distinct-append_right (x ∷ xs) ys d = Distinct-append_right xs ys d.1

  pub Apart-nil : (ys : List A) → Apart ys []
  Apart-nil [] = tt
  Apart-nil (y ∷ ys) = (tt, Apart-nil ys)

  pub Apart-cons : (x : A) (ys zs : List A) → All (λ y. y ≢ x) ys → Apart ys zs → Apart ys (x ∷ zs)
  Apart-cons x [] zs h a = tt
  Apart-cons x (y ∷ ys) zs h a = ((λ e. h.0 (sym e), a.0), Apart-cons x ys zs h.1 a.1)

  pub Distinct-append-Apart : (xs ys : List A) → Distinct (xs ++ ys) → Apart ys xs
  Distinct-append-Apart [] ys d = Apart-nil ys
  Distinct-append-Apart (x ∷ xs) ys d =
      Apart-cons x ys xs (All-append_right (λ y. y ≢ x) xs ys d.0) (Distinct-append-Apart xs ys d.1)

  -- What tells two members apart by a property keeps the lists apart.
  pub Apart-of_property {κ μ} :
      (P : A → Type κ) (Q : A → Type μ)
      → ((a b : A) → P a → Q b → b ≢ a)
      → (xs ys : List A) → All P xs
      → All Q ys
      → Apart xs ys
  Apart-of_property P Q differ xs ys h k =
      All-imp P (λ x. All (λ y. y ≢ x) ys) (λ x p. All-imp Q (λ y. y ≢ x) (λ y. differ x y p) ys k)
        xs h

module _ {ℓ} {A : Type ℓ} where
  abbrev pub drop : ℕ → List A → List A
  drop zero xs = xs
  drop (suc n) [] = []
  drop (suc n) (x ∷ xs) = drop n xs

module _ {ℓ} {A : Type ℓ} where
  abbrev pub take : ℕ → List A → List A
  take zero xs = []
  take (suc n) [] = []
  take (suc n) (x ∷ xs) = x ∷ take n xs

  pub take-append-drop : (n : ℕ) (xs : List A) → take n xs ++ drop n xs ≡ xs
  take-append-drop zero xs = refl
  take-append-drop (suc n) [] = refl
  take-append-drop (suc n) (x ∷ xs) = rw (take-append-drop n xs)

  pub length-take-le : (n : ℕ) (xs : List A) → length (take n xs) ≤ n
  length-take-le zero xs = omega arith
  length-take-le (suc n) [] = omega arith
  length-take-le (suc n) (x ∷ xs) = omega (arith, length-take-le n xs)

  pub drop-length_lt : (n : ℕ) (xs : List A) → length (take n xs) < n → drop n xs ≡ []
  drop-length_lt zero xs h = absurd (omega arith)
  drop-length_lt (suc n) [] h = refl
  drop-length_lt (suc n) (x ∷ xs) h = drop-length_lt n xs (omega arith)
