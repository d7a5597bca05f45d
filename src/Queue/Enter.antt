-- ===== src/Queue/Enter.antt =====
-- `Acquire` keeps the invariant.
use rsync_proxy.Base.{
  ℕ, ◌≡◌, refl, sym, subst, ◌≢◌, inl, inr, List, [], ◌∷◌, ◌++◌, arith, All, All-imp, All-append,
  Distinct, Distinct-snoc, ℤ, Bool-cases,
}
use rsync_proxy.Queue.Channels.{Chan, waiting}
use rsync_proxy.Queue.Broadcast.{holds}
use rsync_proxy.Queue.Admission.{granted_chan}
use rsync_proxy.Queue.Invariant.{WellFormed, Holds, IsGranted, IsWaiting}
use rsync_proxy.Queue.Acquire.{Acquired}
use rsync_proxy.Queue.{Queue, has_room, is_full}

module _ (q r : Queue) (a : Acquired q r) (w : WellFormed q) where
  old_ok :
      (P : Chan → Type 0) (xs : List ℕ)
      → All (Holds P q.chans q.next_chan) xs
      → All (Holds P r.chans r.next_chan) xs
  old_ok P xs h =
      All-imp (Holds P q.chans q.next_chan) (Holds P r.chans r.next_chan)
        (λ j k. (omega (arith, a.next_is), subst P (sym (a.apart j (λ e. omega arith))) k.1)) xs h

  new_apart :
      (P : Chan → Type 0) (xs : List ℕ)
      → All (Holds P q.chans q.next_chan) xs
      → All (λ x. x ≢ q.next_chan) xs
  new_apart P xs h =
      All-imp (Holds P q.chans q.next_chan) (λ x. x ≢ q.next_chan) (λ j k e. omega arith) xs h

  with_new :
      (P : Chan → Type 0) (xs : List ℕ)
      → P (r.chans q.next_chan)
      → All (Holds P q.chans q.next_chan) xs
      → All (Holds P r.chans r.next_chan) (xs ++ q.next_chan ∷ [])
  with_new P xs p h =
      All-append (Holds P r.chans r.next_chan) xs (q.next_chan ∷ []) (old_ok P xs h)
        ((omega (arith, a.next_is), p), tt)

  kept_well : r.active ≡ q.active → r.queued ≡ q.queued → WellFormed r
  kept_well ea eq = record {
    active_ok =
        subst (All (Holds IsGranted r.chans r.next_chan)) (sym ea)
          (old_ok IsGranted q.active w.active_ok);
    queued_ok =
        subst (All (Holds IsWaiting r.chans r.next_chan)) (sym eq)
          (old_ok IsWaiting q.queued w.queued_ok);
    active_distinct = subst Distinct (sym ea) w.active_distinct;
    queued_distinct = subst Distinct (sym eq) w.queued_distinct;
  }

  granted_well :
      r.active ≡ q.active ++ q.next_chan ∷ []
      → r.queued ≡ q.queued
      → r.chans q.next_chan ≡ granted_chan
      → WellFormed r
  granted_well ea eq e = record {
    active_ok =
        subst (All (Holds IsGranted r.chans r.next_chan)) (sym ea)
          (with_new IsGranted q.active (subst IsGranted (sym e) (refl, inr refl)) w.active_ok);
    queued_ok =
        subst (All (Holds IsWaiting r.chans r.next_chan)) (sym eq)
          (old_ok IsWaiting q.queued w.queued_ok);
    active_distinct = subst Distinct (sym ea) (
        Distinct-snoc q.active q.next_chan w.active_distinct
          (new_apart IsGranted q.active w.active_ok));
    queued_distinct = subst Distinct (sym eq) w.queued_distinct;
  }

  waits_well :
      (index total : ℤ)
      → r.active ≡ q.active
      → r.queued ≡ q.queued ++ q.next_chan ∷ []
      → r.chans q.next_chan ≡ holds (waiting index total)
      → WellFormed r
  waits_well index total ea eq e = record {
    active_ok =
        subst (All (Holds IsGranted r.chans r.next_chan)) (sym ea)
          (old_ok IsGranted q.active w.active_ok);
    queued_ok = subst (All (Holds IsWaiting r.chans r.next_chan)) (sym eq) (
        with_new IsWaiting q.queued (subst IsWaiting (sym e) (refl, λ s h. ground arith))
          w.queued_ok);
    active_distinct = subst Distinct (sym ea) w.active_distinct;
    queued_distinct = subst Distinct (sym eq) (
        Distinct-snoc q.queued q.next_chan w.queued_distinct
          (new_apart IsWaiting q.queued w.queued_ok));
  }

  pub Acquired-WellFormed : WellFormed r
  Acquired-WellFormed = elim (Bool-cases (has_room q)) [
    | inl room ↦
        granted_well (rw room at a.active_is) (rw room at a.queued_is) (rw room at a.answered)
    | inr shut ↦ elim (Bool-cases (is_full q)) [
      | inl full ↦ kept_well (rw shut at a.active_is) (rw (shut, full) at a.queued_is)
      | inr space ↦
          waits_well _ _ (rw shut at a.active_is) (rw (shut, space) at a.queued_is)
            (rw (shut, space) at a.answered)
    ]
  ]
