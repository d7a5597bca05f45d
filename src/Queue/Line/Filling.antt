-- ===== src/Queue/Line/Filling.antt =====
-- The loop that admits one client after the other lets in as many as there are slots.
use rsync_proxy.Base.{
  ℕ, zero, suc, ◌≤◌, ◌≡◌, refl, sym, ap, subst, ◌∙◌, ◌⊎◌, inl, inr, false, not, ◌||◌, List, [], ◌∷◌,
  ◌++◌, append-nil, arith, ltb, ◌==◌, length, length-append, drop, take, ℤ, ◌≤ℤ◌, ltb_ℤ, eq_ℤ, pos,
}
use rsync_proxy.Queue.Admission.{Admits}
use rsync_proxy.Queue.{Queue, has_room, is_full, without}
use rsync_proxy.Queue.Removal.{length-without-le}
use rsync_proxy.Queue.Line.{slots, crowded, elem}

take_exact :
    (xs ys : List ℕ) (n : ℕ) → length xs ≡ n → (take n (xs ++ ys) ≡ xs) × (drop n (xs ++ ys) ≡ ys)
take_exact [] ys zero e = (refl, refl)
take_exact [] ys (suc n) e = absurd (omega arith)
take_exact (x ∷ xs) ys zero e = absurd (omega arith)
take_exact (x ∷ xs) ys (suc n) e =
    let (a, b) = take_exact xs ys n (omega arith) in (ap (λ l. x ∷ l) a, b)

take_all : (xs : List ℕ) (n : ℕ) → length xs ≤ n → (take n xs ≡ xs) × (drop n xs ≡ [])
take_all [] zero h = (refl, refl)
take_all [] (suc n) h = (refl, refl)
take_all (x ∷ xs) zero h = absurd (omega arith)
take_all (x ∷ xs) (suc n) h = let (a, b) = take_all xs n (omega arith) in (ap (λ l. x ∷ l) a, b)

-- The part that is let in is what fits, or all there is.
pub Fits : ℕ → List ℕ → List ℕ → Type 0
Fits n moved rest = (length moved ≡ n) ⊎ ((rest ≡ []) × (length moved ≤ n))

slots-Fits :
    (max : ℤ) (base moved rest : List ℕ)
    → (rest ≡ []) ⊎ ((ltb_ℤ (pos (length (base ++ moved))) max || eq_ℤ max (pos 0)) ≡ false)
    → (moved ≡ []) ⊎ (max ≡ pos 0) ⊎ (pos (length (base ++ moved)) ≤ℤ max)
    → Fits (slots max (length base) (length (moved ++ rest))) moved rest
unfolding slots Fits
slots-Fits max base moved rest settled within =
    ground (arith, length-append base moved, length-append moved rest)

pub Admits-Fits :
    (q r : Queue) (a : Admits q r)
    → Fits (slots q.max (length q.active) (length q.queued)) a.moved r.queued
Admits-Fits q r a =
    subst (λ w. Fits (slots q.max (length q.active) (length w)) a.moved r.queued) (sym a.queued_is)
      (slots-Fits q.max q.active a.moved r.queued (rw (a.active_is, a.max_is) at a.settled)
        (rw a.active_is at a.within))

pub Fits-take :
    (n : ℕ) (moved rest : List ℕ)
    → Fits n moved rest
    → (take n (moved ++ rest) ≡ moved) × (drop n (moved ++ rest) ≡ rest)
unfolding Fits
Fits-take n moved rest (inl e) = take_exact moved rest n e
Fits-take n moved rest (inr (e, h)) =
    let (a, b) = take_all moved n h in
    (
      ap (λ l. take n (moved ++ l)) e ∙ ap (take n) (append-nil moved) ∙ a,
      ap (λ l. drop n (moved ++ l)) e ∙ ap (drop n) (append-nil moved) ∙ b ∙ sym e,
    )

-- The tests of the code and those of the line agree.
pub slots-has_room : (q : Queue) → ltb 0 (slots q.max (length q.active) 1) ≡ has_room q
unfolding slots
slots-has_room q = ground arith

pub crowded-is_full : (q : Queue) → crowded q.max_queued (length q.queued) ≡ is_full q
unfolding crowded
crowded-is_full q = ground arith

pub elem-without : (ch : ℕ) (xs : List ℕ) → elem ch xs ≡ not (length (without ch xs) == length xs)
unfolding elem without
elem-without ch [] = refl
elem-without ch (x ∷ xs) = ground (arith, elem-without ch xs, length-without-le ch xs)
