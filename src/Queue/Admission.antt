-- ===== src/Queue/Admission.antt =====
-- The loop of `releaseFromHandle` that moves waiting items to the active list.
use rsync_proxy.Base.{
  ℕ, zero, suc, ◌≡◌, refl, sym, ap, subst, ◌∙◌, ◌≢◌, ◌<◌, true, false, List, [], ◌∷◌, ◌++◌, some,
  inl, inr, ◌⊎◌, arith, All, All-imp2, All-append_left, Distinct, length, length-append, pos, ◌≤ℤ◌,
  Bool-cases, append-nil, append_assoc,
}
use rsync_proxy.Queue.Channels.{Chan, granted, ok, try_send_open, close, put}
use rsync_proxy.Queue.Broadcast.{IsOpen}
use rsync_proxy.Queue.{Queue, has_room, pop_head, admit_loop}

-- A channel that got its grant and was closed, not yet read.
abbrev pub granted_chan : Chan
granted_chan = record { pending = some granted; closed = true }

-- `r` is `q` with a first part of its waiting items admitted, in order, each told so, until none
-- waits or no room is left; the limit is never passed by it.
pub record Admits (q r : Queue) : Type 0 where
  pub moved : List ℕ
  pub active_is : r.active ≡ q.active ++ moved
  pub queued_is : q.queued ≡ moved ++ r.queued
  pub max_is : r.max ≡ q.max
  pub max_queued_is : r.max_queued ≡ q.max_queued
  pub next_is : r.next_chan ≡ q.next_chan
  pub told : All (λ ch. r.chans ch ≡ granted_chan) moved
  pub apart : (j : ℕ) → All (λ x. x ≢ j) moved → r.chans j ≡ q.chans j
  pub settled : (r.queued ≡ []) ⊎ (has_room r ≡ false)
  pub within : (moved ≡ []) ⊎ (q.max ≡ pos 0) ⊎ (pos (length r.active) ≤ℤ q.max)

pop_head_lem :
    (q : Queue) (head : ℕ) (rest : List ℕ)
    → q.queued ≡ head ∷ rest
    → IsOpen q.chans head
    → (r : Queue) × (pop_head q ≡ ok r)
      × (r ≡ record q { active = q.active ++ head ∷ []; queued = rest; chans = r.chans })
      × (r.chans head ≡ granted_chan)
      × ((j : ℕ) → j ≢ head → r.chans j ≡ q.chans j)
unfolding pop_head close
pop_head_lem q head rest e open_head =
    let (s, sent, here, apart) = try_send_open head granted q.chans open_head in
    (
      record q { active = q.active ++ head ∷ []; queued = rest; chans = put s head granted_chan },
      rw (e, pop_head) (rw sent (rw here)),
      refl,
      ground arith,
      λ j ne. ground (arith, apart j ne),
    )

pub room_after :
    (q : Queue) (x : ℕ)
    → has_room q ≡ true
    → (q.max ≡ pos 0) ⊎ (pos (length (q.active ++ x ∷ [])) ≤ℤ q.max)
room_after q x h = ground (arith, length-append q.active (x ∷ []))

admit_here : (q : Queue) → (q.queued ≡ []) ⊎ (has_room q ≡ false) → Admits q q
admit_here q h = record {
  moved = [];
  active_is = sym (append-nil q.active);
  queued_is = refl;
  max_is = refl;
  max_queued_is = refl;
  next_is = refl;
  told = tt;
  apart = λ _ _. refl;
  settled = h;
  within = inl refl;
}

admit_more :
    (q p r : Queue) (head : ℕ) (rest : List ℕ)
    → q.queued ≡ head ∷ rest
    → has_room q ≡ true
    → All (λ x. x ≢ head) rest
    → p ≡ record q { active = q.active ++ head ∷ []; queued = rest; chans = p.chans }
    → p.chans head ≡ granted_chan
    → ((j : ℕ) → j ≢ head → p.chans j ≡ q.chans j)
    → Admits p r
    → Admits q r
admit_more q p r head rest e room fresh_head p_is here apart a = record {
  moved = head ∷ a.moved;
  active_is =
      a.active_is
      ∙ ap (λ (t : Queue). t.active ++ a.moved) p_is
      ∙ append_assoc q.active (head ∷ []) a.moved;
  queued_is = e ∙ ap (◌∷◌ head) (sym (ap (λ (t : Queue). t.queued) p_is) ∙ a.queued_is);
  max_is = a.max_is ∙ ap (λ (t : Queue). t.max) p_is;
  max_queued_is = a.max_queued_is ∙ ap (λ (t : Queue). t.max_queued) p_is;
  next_is = a.next_is ∙ ap (λ (t : Queue). t.next_chan) p_is;
  told = (a.apart head not_moved ∙ here, a.told);
  apart = λ j ne. a.apart j ne.1 ∙ apart j (λ e'. ne.0 (sym e'));
  settled = a.settled;
  within = inr (kept a.within);
}
  where
    rest_is : rest ≡ a.moved ++ r.queued
    rest_is = sym (ap (λ (t : Queue). t.queued) p_is) ∙ a.queued_is

    not_moved : All (λ x. x ≢ head) a.moved
    not_moved = All-append_left (λ x. x ≢ head) a.moved r.queued (rw rest_is at fresh_head)

    at_p : a.moved ≡ [] → r.active ≡ q.active ++ head ∷ []
    at_p m =
        a.active_is
        ∙ ap (λ l. p.active ++ l) m
        ∙ append-nil p.active
        ∙ ap (λ (t : Queue). t.active) p_is

    kept :
        (a.moved ≡ []) ⊎ (p.max ≡ pos 0) ⊎ (pos (length r.active) ≤ℤ p.max)
        → (q.max ≡ pos 0) ⊎ (pos (length r.active) ≤ℤ q.max)
    kept (inl none_moved) =
        subst (λ l. (q.max ≡ pos 0) ⊎ (pos (length l) ≤ℤ q.max)) (sym (at_p none_moved))
          (room_after q head room)
    kept (inr h) =
        subst (λ m. (m ≡ pos 0) ⊎ (pos (length r.active) ≤ℤ m)) (ap (λ (t : Queue). t.max) p_is) h

admit_loop-step :
    (fuel : ℕ) (q p : Queue) (x : ℕ) (xs : List ℕ)
    → q.queued ≡ x ∷ xs
    → has_room q ≡ true
    → pop_head q ≡ ok p
    → admit_loop (suc fuel) q ≡ admit_loop fuel p
unfolding admit_loop
admit_loop-step fuel q p x xs e room popped = ground (arith)

admit_loop-stop :
    (fuel : ℕ) (q : Queue) → (q.queued ≡ []) ⊎ (has_room q ≡ false) → admit_loop (suc fuel) q ≡ ok q
unfolding admit_loop
admit_loop-stop fuel q h = ground (arith)

-- With a round for each waiting item the loop ends, with no panic and without blocking.
pub admit_loop_lem :
    (fuel : ℕ) (xs : List ℕ) (q : Queue)
    → q.queued ≡ xs
    → length xs < fuel
    → All (IsOpen q.chans) xs
    → Distinct xs
    → (r : Queue) × (admit_loop fuel q ≡ ok r) × Admits q r
admit_loop_lem zero xs q e h o d = absurd (omega arith)
admit_loop_lem (suc fuel) [] q e h o d = (q, admit_loop-stop fuel q (inl e), admit_here q (inl e))
admit_loop_lem (suc fuel) (x ∷ xs) q e h o d = elim (Bool-cases (has_room q)) [
  | inl room ↦
      let (p, popped, p_is, here, apart) = pop_head_lem q x xs e o.0 in
      let still =
        All-imp2 (IsOpen q.chans) (λ y. y ≢ x) (IsOpen p.chans) (λ y w ne. rw (apart y ne) w) xs o.1
          d.0 in
      let (r, went, a) =
        admit_loop_lem fuel xs p (ap (λ (t : Queue). t.queued) p_is) (omega arith) still d.1 in
      (
        r,
        admit_loop-step fuel q p x xs e room popped ∙ went,
        admit_more q p r x xs e room d.0 p_is here apart a,
      )
  | inr shut ↦ (q, admit_loop-stop fuel q (inr shut), admit_here q (inr shut))
]
