-- ===== src/Queue/Release.antt =====
-- `releaseFromHandle`, from any well-formed queue.
use rsync_proxy.Base.{
  ℕ, suc, ◌≤◌, ◌≡◌, refl, sym, ap, subst, ◌∙◌, ◌≢◌, ◌⊎◌, inl, inr, true, false, List, [], ◌++◌,
  append-nil, append_assoc, arith, ◌==◌, if◌then◌else◌, Bool-cases, length, length-append, All,
  All-append_left, All-append_right, All-imp, All-imp2, Apart, drop, take, ◌+ℤ◌, ◌≤ℤ◌, pos,
}
use rsync_proxy.Queue.Admission.{granted_chan, Admits, admit_loop_lem}
use rsync_proxy.Queue.Channels.{ok}
use rsync_proxy.Queue.Line.{slots, elem}
use rsync_proxy.Queue.Line.Filling.{Fits-take, Admits-Fits, elem-without}
use rsync_proxy.Queue.Broadcast.{Told, Broadcasts, broadcast_status_lem}
use rsync_proxy.Queue.Removal.{
  without-append, without-absent, absent_of_length, All-without, Distinct-without,
  length-without-le,
}
use rsync_proxy.Queue.Invariant.{
  WellFormed, WellFormed-Apart, queued-IsOpen, Broadcasts-WellFormed, Admits-WellFormed,
}
use rsync_proxy.Queue.{
  Queue, has_room, surplus, without, admit_loop, broadcast_status, release_from_handle,
}

-- Nobody waits while there is room.
abbrev pub IsBusy : Queue → Type 0
IsBusy q = (q.queued ≡ []) ⊎ (has_room q ≡ false)

-- The two lists after a release of `ch`: it stops waiting, or it leaves and as many as fit come in.
abbrev inside_after : ℕ → Queue → List ℕ
inside_after ch q =
    if elem ch q.queued
    then q.active
    else without ch q.active
      ++ take (slots q.max (length (without ch q.active)) (length q.queued)) q.queued

abbrev waiting_after : ℕ → Queue → List ℕ
waiting_after ch q =
    if elem ch q.queued
    then without ch q.queued
    else drop (slots q.max (length (without ch q.active)) (length q.queued)) q.queued

pub record Released (ch : ℕ) (q r : Queue) : Type 0 where
  pub well : WellFormed r
  pub line_is : r.active ++ r.queued ≡ without ch (q.active ++ q.queued)
  pub max_is : r.max ≡ q.max
  pub max_queued_is : r.max_queued ≡ q.max_queued
  pub next_is : r.next_chan ≡ q.next_chan
  pub told : Told r.chans (surplus r) (surplus r +ℤ pos (length r.queued)) 0 r.queued
  pub within :
      (length r.active ≤ length q.active) ⊎ (q.max ≡ pos 0) ⊎ (pos (length r.active) ≤ℤ q.max)
  pub settled : IsBusy r ⊎ ((r.active ≡ q.active) × (r.queued ≡ without ch q.queued))
  pub inside_is : r.active ≡ inside_after ch q
  pub waiting_is : r.queued ≡ waiting_after ch q
  pub shorter : length r.queued ≤ length q.queued
  pub apart : (j : ℕ) → All (λ x. x ≢ j) q.queued → r.chans j ≡ q.chans j
  -- Who stays active, and who comes in.
  pub base : List ℕ
  pub moved : List ℕ
  pub base_is : (base ≡ q.active) ⊎ (base ≡ without ch q.active)
  pub active_is : r.active ≡ base ++ moved
  pub moved_told : All (λ j. r.chans j ≡ granted_chan) moved
  pub split : (q.queued ≡ moved ++ r.queued) ⊎ ((moved ≡ []) × (r.queued ≡ without ch q.queued))

module _ (ch : ℕ) (q : Queue) (w : WellFormed q) where
  waiter_gone : Queue
  waiter_gone = record q { queued = without ch q.queued }

  active_gone : Queue
  active_gone = record q { active = without ch q.active }

  waiter_gone-WellFormed : WellFormed waiter_gone
  unfolding waiter_gone
  waiter_gone-WellFormed = record {
    active_ok = w.active_ok;
    queued_ok = All-without _ ch q.queued w.queued_ok;
    active_distinct = w.active_distinct;
    queued_distinct = Distinct-without ch q.queued w.queued_distinct;
  }

  active_gone-WellFormed : WellFormed active_gone
  unfolding active_gone
  active_gone-WellFormed = record {
    active_ok = All-without _ ch q.active w.active_ok;
    queued_ok = w.queued_ok;
    active_distinct = Distinct-without ch q.active w.active_distinct;
    queued_distinct = w.queued_distinct;
  }

  -- A waiting channel is not active.
  waiter_not_active : length (without ch q.queued) ≢ length q.queued → All (λ x. x ≢ ch) q.active
  waiter_not_active was =
      All-imp (λ x. All (λ y. y ≢ x) q.queued) (λ x. x ≢ ch)
        (λ x h e.
          was (ap length (without-absent ch q.queued (subst (λ c. All (λ y. y ≢ c) q.queued) e h))))
        q.active (WellFormed-Apart q w)

  leave_line :
      (r : Queue)
      → length (without ch q.queued) ≢ length q.queued
      → elem ch q.queued ≡ true
      → Broadcasts waiter_gone r
      → Released ch q r
  unfolding waiter_gone
  leave_line r was found b = record {
    well = Broadcasts-WellFormed waiter_gone r b waiter_gone-WellFormed;
    line_is =
        ap (λ (t : Queue). t.active ++ t.queued) same
        ∙ sym (
            without-append ch q.active q.queued
            ∙ ap (λ l. l ++ without ch q.queued)
                (without-absent ch q.active (waiter_not_active was)));
    max_is = ap (λ (t : Queue). t.max) same;
    max_queued_is = ap (λ (t : Queue). t.max_queued) same;
    next_is = ap (λ (t : Queue). t.next_chan) same;
    told =
        subst
          (λ (t : Queue). Told r.chans (surplus t) (surplus t +ℤ pos (length t.queued)) 0 t.queued)
          (sym same) b.told;
    within = inl (omega (arith, ap (λ (t : Queue). length t.active) same));
    settled = inr (ap (λ (t : Queue). t.active) same, ap (λ (t : Queue). t.queued) same);
    inside_is = ap (λ (t : Queue). t.active) same ∙ rw found refl;
    waiting_is = ap (λ (t : Queue). t.queued) same ∙ rw found refl;
    shorter =
        omega (arith, ap (λ (t : Queue). length t.queued) same, length-without-le ch q.queued);
    apart = λ j h. b.apart j (All-without (λ x. x ≢ j) ch q.queued h);
    base = q.active;
    moved = [];
    base_is = inl refl;
    active_is = ap (λ (t : Queue). t.active) same ∙ sym (append-nil q.active);
    moved_told = tt;
    split = inr (refl, ap (λ (t : Queue). t.queued) same);
  }
    where
      same : r ≡ record waiter_gone { chans = r.chans }
      same = b.same_but_chans

  serve_line :
      (p r : Queue)
      → All (λ x. x ≢ ch) q.queued
      → elem ch q.queued ≡ false
      → Admits active_gone p
      → Broadcasts p r
      → Released ch q r
  unfolding active_gone
  serve_line p r away absent a b = record {
    well = Broadcasts-WellFormed p r b (Admits-WellFormed active_gone p a active_gone-WellFormed);
    line_is =
        ap (λ (t : Queue). t.active ++ t.queued) same
        ∙ ap (λ l. l ++ p.queued) a.active_is
        ∙ append_assoc (without ch q.active) a.moved p.queued
        ∙ ap (λ l. without ch q.active ++ l)
            (sym a.queued_is ∙ sym (without-absent ch q.queued away))
        ∙ sym (without-append ch q.active q.queued);
    max_is = ap (λ (t : Queue). t.max) same ∙ a.max_is;
    max_queued_is = ap (λ (t : Queue). t.max_queued) same ∙ a.max_queued_is;
    next_is = ap (λ (t : Queue). t.next_chan) same ∙ a.next_is;
    told =
        subst
          (λ (t : Queue). Told r.chans (surplus t) (surplus t +ℤ pos (length t.queued)) 0 t.queued)
          (sym same) b.told;
    within = kept a.within;
    settled = inl (subst IsBusy (sym same) a.settled);
    inside_is =
        ap (λ (t : Queue). t.active) same
        ∙ a.active_is
        ∙ ap (λ l. without ch q.active ++ l) (sym filled.0)
        ∙ rw absent refl;
    waiting_is = ap (λ (t : Queue). t.queued) same ∙ sym filled.1 ∙ rw absent refl;
    shorter = omega (
      arith,
      ap (λ (t : Queue). length t.queued) same,
      ap length a.queued_is,
      length-append a.moved p.queued,
    );
    apart = λ j h.
        let parted = subst (All (λ x. x ≢ j)) a.queued_is h in
        b.apart j (All-append_right (λ x. x ≢ j) a.moved p.queued parted)
        ∙ a.apart j (All-append_left (λ x. x ≢ j) a.moved p.queued parted);
    base = without ch q.active;
    moved = a.moved;
    base_is = inr refl;
    active_is = ap (λ (t : Queue). t.active) same ∙ a.active_is;
    moved_told =
        All-imp2 (λ j. All (λ y. y ≢ j) p.queued) (λ j. p.chans j ≡ granted_chan)
          (λ j. r.chans j ≡ granted_chan) (λ j away told. b.apart j away ∙ told) a.moved
          (All-append_right (λ j. All (λ y. y ≢ j) p.queued) (without ch q.active) a.moved
            (subst (λ l. Apart l p.queued) a.active_is
              (WellFormed-Apart p (Admits-WellFormed active_gone p a active_gone-WellFormed))))
          a.told;
    split = inl (a.queued_is ∙ ap (λ (t : Queue). a.moved ++ t.queued) (sym same));
  }
    where
      same : r ≡ record p { chans = r.chans }
      same = b.same_but_chans

      filled :
          let n = slots q.max (length (without ch q.active)) (length q.queued) in
          (take n q.queued ≡ a.moved) × (drop n q.queued ≡ p.queued)
      filled =
          let n = slots q.max (length (without ch q.active)) (length q.queued) in
          subst (λ l. (take n l ≡ a.moved) × (drop n l ≡ p.queued)) (sym a.queued_is)
            (Fits-take n a.moved p.queued (Admits-Fits active_gone p a))

      kept :
          (a.moved ≡ []) ⊎ (q.max ≡ pos 0) ⊎ (pos (length p.active) ≤ℤ q.max)
          → (length r.active ≤ length q.active) ⊎ (q.max ≡ pos 0) ⊎ (pos (length r.active) ≤ℤ q.max)
      kept (inl none_moved) = inl (
          omega (
            arith,
            ap (λ (t : Queue). length t.active) same,
            ap length a.active_is,
            length-append (without ch q.active) a.moved,
            ap length none_moved,
            length-without-le ch q.active,
          ))
      kept (inr (inl e)) = inr (inl e)
      kept (inr (inr h)) =
          inr (inr (subst (λ (t : Queue). pos (length t.active) ≤ℤ q.max) (sym same) h))

  release-leaves :
      (r : Queue)
      → (length (without ch q.queued) == length q.queued) ≡ false
      → broadcast_status waiter_gone ≡ ok r
      → release_from_handle ch q ≡ ok r
  unfolding release_from_handle waiter_gone
  release-leaves r less told = ground arith

  release-serves :
      (p r : Queue)
      → (length (without ch q.queued) == length q.queued) ≡ true
      → admit_loop (suc (length q.queued)) active_gone ≡ ok p
      → broadcast_status p ≡ ok r
      → release_from_handle ch q ≡ ok r
  unfolding release_from_handle active_gone
  release-serves p r same went told = ground arith

  -- Without a panic and without blocking, a release takes the channel out of the line.
  pub release_from_handle_lem : (r : Queue) × (release_from_handle ch q ≡ ok r) × Released ch q r
  unfolding active_gone
  release_from_handle_lem = elim (Bool-cases (length (without ch q.queued) == length q.queued)) [
    | inl same ↦
        let open_waiters = queued-IsOpen active_gone active_gone-WellFormed in
        let (p, went, a) =
          admit_loop_lem (suc (length q.queued)) q.queued active_gone refl (omega arith)
            open_waiters w.queued_distinct in
        let wp = Admits-WellFormed active_gone p a active_gone-WellFormed in
        let (r, told, b) = broadcast_status_lem p (queued-IsOpen p wp) wp.queued_distinct in
        (
          r,
          release-serves p r same went told,
          serve_line p r (absent_of_length ch q.queued (ground arith))
              (ground (arith, elem-without ch q.queued)) a b,
        )
    | inr less ↦
        let (r, told, b) =
          broadcast_status_lem waiter_gone (queued-IsOpen waiter_gone waiter_gone-WellFormed)
            waiter_gone-WellFormed.queued_distinct in
        (
          r,
          release-leaves r less told,
          leave_line r (λ e. ground arith) (ground (arith, elem-without ch q.queued)) b,
        )
  ]
