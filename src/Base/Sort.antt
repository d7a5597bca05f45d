-- ===== src/Base/Sort.antt =====
-- `sort.Slice` and `sort.Strings`: insertion by a Boolean order.
use rsync_proxy.Base.Tests.{if◌then◌else◌, Bool-cases}
use mathlib.Core.Path.{◌≡◌, refl, sym, ap, ◌∙◌}
use mathlib.Core.Logic.{◌≢◌, inl, inr}
use mathlib.Core.Bool.{Bool, true, false}
use mathlib.Core.List.{List, [], ◌∷◌, Perm, Memᴰ}
use mathlib.Core.List.Perm
use mathlib.Core.List.Memᴰ as MemD
use rsync_proxy.Base.Lists.{All, All-imp}
use rsync_proxy.Base.Text.{Bytes, bytes_ltb, bytes_ltb_asym, bytes_ltb_trans}
use rsync_proxy.Base.Maps.{HasDistinctKeys}

module _ {ℓ} {A : Type ℓ} (lt : A → A → Bool) where
  unfoldable pub insert_by : A → List A → List A
  insert_by x [] = x ∷ []
  insert_by x (y ∷ ys) = if lt y x then y ∷ insert_by x ys else x ∷ y ∷ ys

  unfoldable pub sort_by : List A → List A
  unfolding insert_by
  sort_by [] = []
  sort_by (x ∷ xs) = insert_by x (sort_by xs)

  insert_by-Perm : (x : A) (xs : List A) → Perm (insert_by x xs) (x ∷ xs)
  unfolding insert_by
  insert_by-Perm x [] = Perm.refl (x ∷ [])
  insert_by-Perm x (y ∷ ys) = elim (Bool-cases (lt y x)) [
    | inl less ↦ rw less (Perm.trans (Perm.cons y (insert_by-Perm x ys)) (Perm.swap x y ys))
    | inr more ↦ rw more (Perm.refl (x ∷ y ∷ ys))
  ]

  pub sort_by-Perm : (xs : List A) → Perm (sort_by xs) xs
  unfolding sort_by
  sort_by-Perm [] = Perm.refl []
  sort_by-Perm (x ∷ xs) = Perm.trans (insert_by-Perm x (sort_by xs)) (Perm.cons x (sort_by-Perm xs))

module _ {ℓ κ} {A : Type ℓ} (lt : A → A → Bool) (P : A → Type κ) where
  All-insert_by : (x : A) (xs : List A) → P x → All P xs → All P (insert_by lt x xs)
  unfolding insert_by
  All-insert_by x [] p h = (p, tt)
  All-insert_by x (y ∷ ys) p h = elim (Bool-cases (lt y x)) [
    | inl less ↦ rw less ((h.0, All-insert_by x ys p h.1))
    | inr more ↦ rw more ((p, h))
  ]

  pub All-sort_by : (xs : List A) → All P xs → All P (sort_by lt xs)
  unfolding sort_by
  All-sort_by [] h = tt
  All-sort_by (x ∷ xs) h = All-insert_by x (sort_by lt xs) h.0 (All-sort_by xs h.1)

-- Each member is not above any later one.
abbrev pub Ascends {ℓ} : {A : Type ℓ} → (A → A → Bool) → List A → Type ℓ
Ascends lt [] = Unit
Ascends lt (x ∷ xs) = All (λ y. lt y x ≡ false) xs × Ascends lt xs

module _ {ℓ} {A : Type ℓ} (lt : A → A → Bool) (asym : (a b : A) → lt a b ≡ true → lt b a ≡ false)
    (trans : (a b c : A) → lt b a ≡ false → lt c b ≡ false → lt c a ≡ false) where
  insert_by-Ascends : (x : A) (xs : List A) → Ascends lt xs → Ascends lt (insert_by lt x xs)
  unfolding insert_by
  insert_by-Ascends x [] h = (tt, tt)
  insert_by-Ascends x (y ∷ ys) h = elim (Bool-cases (lt y x)) [
    | inl less ↦ rw less (
        (
          All-insert_by lt (λ z. lt z y ≡ false) x ys (asym y x less) h.0,
          insert_by-Ascends x ys h.1,
        ))
    | inr more ↦ rw more (
        (
          (
            more,
            All-imp (λ z. lt z y ≡ false) (λ z. lt z x ≡ false) (λ z. trans x y z more) ys h.0,
          ),
          h,
        ))
  ]

  pub sort_by-Ascends : (xs : List A) → Ascends lt (sort_by lt xs)
  unfolding sort_by
  sort_by-Ascends [] = tt
  sort_by-Ascends (x ∷ xs) = insert_by-Ascends x (sort_by lt xs) (sort_by-Ascends xs)

module _ {ℓ} {A : Type ℓ} (lt : A → A → Bool) where
  insert_by_first :
      (x : A) (xs : List A) → All (λ y. lt y x ≡ false) xs → insert_by lt x xs ≡ x ∷ xs
  unfolding insert_by
  insert_by_first x [] h = refl
  insert_by_first x (y ∷ ys) h = rw h.0 refl

  -- What is in order stays as it is.
  pub sort_by_id : (xs : List A) → Ascends lt xs → sort_by lt xs ≡ xs
  unfolding sort_by
  sort_by_id [] h = refl
  sort_by_id (x ∷ xs) h = ap (insert_by lt x) (sort_by_id xs h.1) ∙ insert_by_first x xs h.0

-- `sort.Strings`
unfoldable pub sort_strings : List Bytes → List Bytes
unfolding sort_by
sort_strings xs = sort_by bytes_ltb xs

pub sort_strings-Perm : (xs : List Bytes) → Perm (sort_strings xs) xs
unfolding sort_strings
sort_strings-Perm xs = sort_by-Perm bytes_ltb xs

mem-insert_by {ℓ} :
    {A : Type ℓ} (lt : A → A → Bool) (x z : A) (xs : List A)
    → Memᴰ z (x ∷ xs)
    → Memᴰ z (insert_by lt x xs)
unfolding insert_by
mem-insert_by lt x z [] m = m
mem-insert_by lt x z (y ∷ ys) m = elim (Bool-cases (lt y x)) [
  | inr more ↦ rw more m
  | inl less ↦ rw less (elim (MemD.cases_cons m) [
    | inl e ↦ Memᴰ.tail (mem-insert_by lt x z ys (Memᴰ.head e))
    | inr later ↦ elim (MemD.cases_cons later) [
      | inl e ↦ Memᴰ.head e
      | inr n ↦ Memᴰ.tail (mem-insert_by lt x z ys (Memᴰ.tail n))
    ]
  ])
]

pub mem-sort_strings : (z : Bytes) (xs : List Bytes) → Memᴰ z xs → Memᴰ z (sort_strings xs)
unfolding sort_strings sort_by
mem-sort_strings z [] m = m
mem-sort_strings z (x ∷ xs) m =
    mem-insert_by bytes_ltb x z (sort_strings xs) (elim (MemD.cases_cons m) [
      | inl e ↦ Memᴰ.head e
      | inr later ↦ Memᴰ.tail (mem-sort_strings z xs later)
    ])

pub sort_strings-Ascends : (xs : List Bytes) → Ascends bytes_ltb (sort_strings xs)
unfolding sort_strings
sort_strings-Ascends xs = sort_by-Ascends bytes_ltb bytes_ltb_asym bytes_ltb_trans xs

pub sort_strings_id : (xs : List Bytes) → Ascends bytes_ltb xs → sort_strings xs ≡ xs
unfolding sort_strings
sort_strings_id xs h = sort_by_id bytes_ltb xs h

insert_by-HasDistinctKeys {ℓ κ} :
    {K : Type ℓ} {V : Type κ} (lt : K × V → K × V → Bool) (x : K × V) (m : List (K × V))
    → All (λ p. p.0 ≢ x.0) m
    → HasDistinctKeys m
    → HasDistinctKeys (insert_by lt x m)
unfolding insert_by
insert_by-HasDistinctKeys lt x [] h k = (tt, tt)
insert_by-HasDistinctKeys lt x (y ∷ m) h k = elim (Bool-cases (lt y x)) [
  | inl less ↦ rw less (
      (
        All-insert_by lt (λ p. p.0 ≢ y.0) x m (λ e. h.0 (sym e)) k.0,
        insert_by-HasDistinctKeys lt x m h.1 k.1,
      ))
  | inr more ↦ rw more ((h, k))
]

pub sort_by-HasDistinctKeys {ℓ κ} :
    {K : Type ℓ} {V : Type κ} (lt : K × V → K × V → Bool) (m : List (K × V))
    → HasDistinctKeys m
    → HasDistinctKeys (sort_by lt m)
unfolding sort_by
sort_by-HasDistinctKeys lt [] h = tt
sort_by-HasDistinctKeys lt (x ∷ m) h =
    insert_by-HasDistinctKeys lt x (sort_by lt m) (All-sort_by lt (λ p. p.0 ≢ x.0) m h.0)
      (sort_by-HasDistinctKeys lt m h.1)
