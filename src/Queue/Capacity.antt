-- ===== src/Queue/Capacity.antt =====
-- The limits of a queue: it is full before anybody waits, and never fuller than allowed.
use rsync_proxy.Base.{
  length-append, ℕ, ◌≡◌, refl, sym, ap, subst, ◌∙◌, ◌⊎◌, inl, inr, ◌≤◌, false, List, [], ◌∷◌, ◌++◌,
  arith, length, ℤ, pos, ◌≤ℤ◌, Bool-cases,
}
use rsync_proxy.Queue.Channels.{ok, ok-injective}
use rsync_proxy.Queue.Admission.{room_after}
use rsync_proxy.Queue.Invariant.{WellFormed}
use rsync_proxy.Queue.Acquire.{Acquired, acquire-Acquired}
use rsync_proxy.Queue.Release.{IsBusy, Released, release_from_handle_lem}
use rsync_proxy.Queue.History.{release_cases}
use rsync_proxy.Queue.{
  is_full, Queue, set_max, has_room, System, release, Step, acquires, releases, receives, sets_max,
}

-- No more clients are active than the limit allows; a limit of 0 is none.
abbrev CapOf : ℤ → List ℕ → Type 0
CapOf max active = (max ≡ pos 0) ⊎ (pos (length active) ≤ℤ max)

abbrev pub IsCapped : Queue → Type 0
IsCapped q = CapOf q.max q.active

nil_of_length {ℓ} : {A : Type ℓ} (xs : List A) → length xs ≤ 0 → xs ≡ []
nil_of_length [] h = refl
nil_of_length (x ∷ xs) h = absurd (omega arith)

has_room_same :
    (q r : Queue) → r.active ≡ q.active → r.max ≡ q.max → has_room q ≡ false → has_room r ≡ false
has_room_same q r ea em h = rw (ea, em) h

acquire-IsBusy : (q r : Queue) → Acquired q r → IsBusy q → IsBusy r
acquire-IsBusy q r a (inl e) = elim (Bool-cases (has_room q)) [
  | inl room ↦ inl (rw room at a.queued_is ∙ e)
  | inr shut ↦ inr (has_room_same q r (rw shut at a.active_is) a.max_is shut)
]
acquire-IsBusy q r a (inr shut) = inr (has_room_same q r (rw shut at a.active_is) a.max_is shut)

pub Released-IsBusy : (ch : ℕ) (q r : Queue) → Released ch q r → IsBusy q → IsBusy r
Released-IsBusy ch q r x (inl e) =
    inl (nil_of_length r.queued (omega (arith, x.shorter, ap length e)))
Released-IsBusy ch q r x (inr shut) = elim x.settled [
  | inl busy ↦ busy
  | inr (ea, eq) ↦ inr (has_room_same q r ea x.max_is shut)
]

-- What a release does, where it does anything.
release-Released :
    (ch : ℕ) (s t : System)
    → WellFormed s.queue
    → release ch s ≡ ok t
    → (t ≡ s) ⊎ Released ch s.queue t.queue
release-Released ch s t w e = elim (release_cases ch s t e) [
  | inl (again, same) ↦ inl same
  | inr (first, went, last) ↦
      let (r, went1, x) = release_from_handle_lem ch s.queue w in
      inr (subst (Released ch s.queue) (ok-injective r t.queue (sym went1 ∙ went)) x)
]

-- As long as the limit stays as it is, nobody waits while there is room.
Step-IsBusy :
    {s t : System}
    → Step s t
    → WellFormed s.queue
    → t.queue.max ≡ s.queue.max
    → IsBusy s.queue
    → IsBusy t.queue
unfolding set_max
Step-IsBusy (acquires {s} {q} ch e) w m b =
    acquire-IsBusy s.queue q (acquire-Acquired s.queue q ch e).0 b
Step-IsBusy (releases {s} {t} ch h e) w m b = elim (release-Released ch s t w e) [
  | inl same ↦ subst (λ (u : System). IsBusy u.queue) (sym same) b
  | inr x ↦ Released-IsBusy ch s.queue t.queue x b
]
Step-IsBusy (receives ch e) w m b = b
Step-IsBusy (sets_max {s} max max_queued) w m (inl e) = inl e
Step-IsBusy (sets_max {s} max max_queued) w m (inr shut) =
    inr (has_room_same s.queue (set_max max max_queued s.queue) refl m shut)

cap_same : (m n : ℤ) (xs ys : List ℕ) → n ≡ m → ys ≡ xs → CapOf m xs → CapOf n ys
cap_same m n xs ys em ex c = rw (em, ex) c

acquire-IsCapped : (q r : Queue) → Acquired q r → IsCapped q → IsCapped r
acquire-IsCapped q r a c = elim (Bool-cases (has_room q)) [
  | inl room ↦
      cap_same q.max r.max (q.active ++ q.next_chan ∷ []) r.active a.max_is (rw room at a.active_is)
        (room_after q q.next_chan room)
  | inr shut ↦ cap_same q.max r.max q.active r.active a.max_is (rw shut at a.active_is) c
]

pub Released-IsCapped : (ch : ℕ) (q r : Queue) → Released ch q r → IsCapped q → IsCapped r
Released-IsCapped ch q r x c =
    cap_same q.max r.max r.active r.active x.max_is refl (kept c x.within)
  where
    kept :
        CapOf q.max q.active
        → (length r.active ≤ length q.active) ⊎ (q.max ≡ pos 0) ⊎ (pos (length r.active) ≤ℤ q.max)
        → CapOf q.max r.active
    kept (inl e) w = inl e
    kept (inr h) (inl less) = inr (omega arith)
    kept (inr h) (inr w) = w

-- As long as the limit stays as it is, no step takes the active clients past it.
Step-IsCapped :
    {s t : System}
    → Step s t
    → WellFormed s.queue
    → t.queue.max ≡ s.queue.max
    → IsCapped s.queue
    → IsCapped t.queue
unfolding set_max
Step-IsCapped (acquires {s} {q} ch e) w m c =
    acquire-IsCapped s.queue q (acquire-Acquired s.queue q ch e).0 c
Step-IsCapped (releases {s} {t} ch h e) w m c = elim (release-Released ch s t w e) [
  | inl same ↦ subst (λ (u : System). IsCapped u.queue) (sym same) c
  | inr x ↦ Released-IsCapped ch s.queue t.queue x c
]
Step-IsCapped (receives ch e) w m c = c
Step-IsCapped (sets_max {s} max max_queued) w m c =
    cap_same s.queue.max max s.queue.active s.queue.active m refl c

-- No more clients wait than the limit allows; a limit of 0 or less is none.
abbrev IsBounded : Queue → Type 0
IsBounded q = (q.max_queued ≤ℤ pos 0) ⊎ (pos (length q.queued) ≤ℤ q.max_queued)

acquire-IsBounded : (q r : Queue) → Acquired q r → IsBounded q → IsBounded r
acquire-IsBounded q r a b = elim (Bool-cases (has_room q)) [
  | inl room ↦ bound_same q r a.max_queued_is (rw room at a.queued_is) b
  | inr shut ↦ elim (Bool-cases (is_full q)) [
    | inl full ↦ bound_same q r a.max_queued_is (rw (shut, full) at a.queued_is) b
    | inr space ↦ with_new q r a.max_queued_is (rw (shut, space) at a.queued_is) space
  ]
]
  where
    bound_same :
        (q r : Queue)
        → r.max_queued ≡ q.max_queued
        → r.queued ≡ q.queued
        → IsBounded q
        → IsBounded r
    bound_same q r em eq b = rw (em, eq) b

    with_new :
        (q r : Queue)
        → r.max_queued ≡ q.max_queued
        → r.queued ≡ q.queued ++ q.next_chan ∷ []
        → is_full q ≡ false
        → IsBounded r
    with_new q r em eq space =
        rw (em, eq) (ground (arith, length-append q.queued (q.next_chan ∷ [])))

-- As long as the limit on waiting clients stays as it is, no step takes them past it.
Step-IsBounded :
    {s t : System}
    → Step s t
    → WellFormed s.queue
    → t.queue.max_queued ≡ s.queue.max_queued
    → IsBounded s.queue
    → IsBounded t.queue
unfolding set_max
Step-IsBounded (acquires {s} {q} ch e) w m b =
    acquire-IsBounded s.queue q (acquire-Acquired s.queue q ch e).0 b
Step-IsBounded (releases {s} {t} ch h e) w m b = elim (release-Released ch s t w e) [
  | inl same ↦ subst (λ (u : System). IsBounded u.queue) (sym same) b
  | inr x ↦ fewer s.queue t.queue x.max_queued_is x.shorter b
]
  where
    fewer :
        (q r : Queue)
        → r.max_queued ≡ q.max_queued
        → length r.queued ≤ length q.queued
        → IsBounded q
        → IsBounded r
    fewer q r em less b = rw em (omega arith)
Step-IsBounded (receives ch e) w m b = b
Step-IsBounded (sets_max {s} max max_queued) w m b = rw m b

-- The three together.
abbrev pub IsWithin : Queue → Type 0
IsWithin q = IsBusy q × IsCapped q × IsBounded q

-- As long as both limits stay as they are, every step of a client keeps all of this of a well-formed
-- queue: nobody waits while there is room, the active clients are not more than the limit, and the
-- waiting ones not more than theirs.
pub Step-IsWithin :
    {s t : System}
    → Step s t
    → WellFormed s.queue
    → t.queue.max ≡ s.queue.max
    → t.queue.max_queued ≡ s.queue.max_queued
    → IsWithin s.queue
    → IsWithin t.queue
Step-IsWithin st w m mq (busy, capped, bounded) =
    (Step-IsBusy st w m busy, Step-IsCapped st w m capped, Step-IsBounded st w mq bounded)
