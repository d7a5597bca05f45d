-- ===== src/Queue/Acquire.antt =====
-- `Acquire`, from any well-formed queue: the three ways it ends.
use rsync_proxy.Base.{
  ℕ, ◌+◌, ◌≡◌, refl, sym, ap, subst, ◌∙◌, ◌≢◌, inl, inr, true, false, [], ◌∷◌, ◌++◌, some, arith,
  length, ℤ, pos, ◌+ℤ◌, ◌-ℤ◌, Bool-cases, if◌then◌else◌,
}
use rsync_proxy.Queue.Channels.{
  Chan, Store, put, fresh, granted, rejected, waiting, ok, Status, ok-injective,
}
use rsync_proxy.Queue.Broadcast.{holds}
use rsync_proxy.Queue.Admission.{granted_chan}
use rsync_proxy.Queue.{Queue, has_room, is_full, surplus, acquire}

abbrev rejected_chan : Chan
rejected_chan = record { pending = some rejected; closed = true }

-- What `Acquire` answers on the new channel.
abbrev answer : Queue → Chan
answer q =
    if has_room q
    then granted_chan
    else if is_full q
    then rejected_chan
    else holds (waiting (total -ℤ pos 1) total)
  where
    total : ℤ
    total = surplus q +ℤ pos (length (q.queued ++ q.next_chan ∷ []))

-- The line is served from its head and grows at its end; the answer is on the new channel only.
pub record Acquired (q r : Queue) : Type 0 where
  pub active_is : r.active ≡ (if has_room q then q.active ++ q.next_chan ∷ [] else q.active)
  pub queued_is : r.queued ≡ (
      if has_room q then q.queued else if is_full q then q.queued else q.queued ++ q.next_chan ∷ [])
  pub max_is : r.max ≡ q.max
  pub max_queued_is : r.max_queued ≡ q.max_queued
  pub next_is : r.next_chan ≡ q.next_chan + 1
  pub answered : r.chans q.next_chan ≡ answer q
  pub apart : (j : ℕ) → j ≢ q.next_chan → r.chans j ≡ q.chans j

module _ (q : Queue) where
  made : Store
  made = put q.chans q.next_chan fresh

  -- The store after a send on the new channel.
  sent : Status → Store
  unfolding made
  sent status = put made q.next_chan (record { pending = some status; closed = false })

  -- And after its `close`.
  sent_closed : Status → Store
  unfolding sent
  sent_closed status =
      put (sent status) q.next_chan (record { pending = some status; closed = true })

  acquire_room : has_room q ≡ true → (r : Queue) × (acquire q ≡ ok (r, q.next_chan)) × Acquired q r
  unfolding acquire sent_closed
  acquire_room room = (
    record q {
      active = q.active ++ q.next_chan ∷ [];
      chans = sent_closed granted;
      next_chan = q.next_chan + 1;
    },
    ground arith,
    record {
      active_is = rw room;
      queued_is = rw room;
      max_is = refl;
      max_queued_is = refl;
      next_is = refl;
      answered = rw room (ground arith);
      apart = λ j ne. ground arith;
    },
  )

  acquire_full :
      has_room q ≡ false
      → is_full q ≡ true
      → (r : Queue) × (acquire q ≡ ok (r, q.next_chan)) × Acquired q r
  unfolding acquire sent_closed
  acquire_full shut full = (
    record q { chans = sent_closed rejected; next_chan = q.next_chan + 1 },
    ground arith,
    record {
      active_is = rw shut;
      queued_is = rw (shut, full);
      max_is = refl;
      max_queued_is = refl;
      next_is = refl;
      answered = rw (shut, full) (ground arith);
      apart = λ j ne. ground arith;
    },
  )

  acquire_waits :
      has_room q ≡ false
      → is_full q ≡ false
      → (r : Queue) × (acquire q ≡ ok (r, q.next_chan)) × Acquired q r
  unfolding acquire sent
  acquire_waits shut space =
      let total = surplus q +ℤ pos (length (q.queued ++ q.next_chan ∷ [])) in
      (
        record q {
          queued = q.queued ++ q.next_chan ∷ [];
          chans = sent (waiting (total -ℤ pos 1) total);
          next_chan = q.next_chan + 1;
        },
        ground arith,
        record {
          active_is = rw shut;
          queued_is = rw (shut, space);
          max_is = refl;
          max_queued_is = refl;
          next_is = refl;
          answered = rw (shut, space) (ground arith);
          apart = λ j ne. ground arith;
        },
      )

  -- `Acquire` never panics or blocks, and ends in one of three ways.
  pub acquire_lem : (r : Queue) × (acquire q ≡ ok (r, q.next_chan)) × Acquired q r
  acquire_lem = elim (Bool-cases (has_room q)) [
    | inl room ↦ acquire_room room
    | inr shut ↦ elim (Bool-cases (is_full q)) [
      | inl full ↦ acquire_full shut full
      | inr space ↦ acquire_waits shut space
    ]
  ]

pub acquire-Acquired :
    (q r : Queue) (ch : ℕ) → acquire q ≡ ok (r, ch) → Acquired q r × (ch ≡ q.next_chan)
acquire-Acquired q r ch e =
    let (r1, went, a) = acquire_lem q in
    let same = ok-injective (r1, q.next_chan) (r, ch) (sym went ∙ e) in
    (
      subst (Acquired q) (ap (λ (p : Queue × ℕ). p.0) same) a,
      sym (ap (λ (p : Queue × ℕ). p.1) same),
    )
