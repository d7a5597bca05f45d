-- ===== src/Queue/History.antt =====
-- The histories of one queue: any clients, in any order, with limits that change between.
use rsync_proxy.Base.{
  ℕ, ◌≡◌, sym, ap, subst, ◌∙◌, ◌⊎◌, inl, inr, true, false, some, arith, All-imp, Bool-cases,
}
use rsync_proxy.Queue.Channels.{Store, Status, Result-cases, ok-injective, ok, receive}
use rsync_proxy.Queue.Invariant.{WellFormed, Holds, IsGranted, IsWaiting}
use rsync_proxy.Queue.Enter.{Acquired-WellFormed}
use rsync_proxy.Queue.Acquire.{acquire_lem}
use rsync_proxy.Queue.Release.{release_from_handle_lem}
use rsync_proxy.Queue.{
  Queue, new, set_max, acquire, release_from_handle, System, release, Step, acquires, releases,
  receives, sets_max, Reach, start, next,
}

-- A receive takes the buffer of one channel and leaves the rest.
receive-IsGranted :
    (ch : ℕ) (s t : Store) (st : Status) (j : ℕ)
    → receive ch s ≡ some (st, t)
    → IsGranted (s j)
    → IsGranted (t j)
unfolding receive
receive-IsGranted ch s t st j e g = ground arith

receive-IsWaiting :
    (ch : ℕ) (s t : Store) (st : Status) (j : ℕ)
    → receive ch s ≡ some (st, t)
    → IsWaiting (s j)
    → IsWaiting (t j)
unfolding receive
receive-IsWaiting ch s t st j e g = (ground arith, λ st1 e1. ground (arith, g.1 st1))

receive-WellFormed :
    (q : Queue) (ch : ℕ) (st : Status) (t : Store)
    → receive ch q.chans ≡ some (st, t)
    → WellFormed q
    → WellFormed (record q { chans = t })
receive-WellFormed q ch st t e w = record {
  active_ok =
      All-imp (Holds IsGranted q.chans q.next_chan) (Holds IsGranted t q.next_chan)
        (λ j h. (h.0, receive-IsGranted ch q.chans t st j e h.1)) q.active w.active_ok;
  queued_ok =
      All-imp (Holds IsWaiting q.chans q.next_chan) (Holds IsWaiting t q.next_chan)
        (λ j h. (h.0, receive-IsWaiting ch q.chans t st j e h.1)) q.queued w.queued_ok;
  active_distinct = w.active_distinct;
  queued_distinct = w.queued_distinct;
}

-- `release` runs `releaseFromHandle` the first time, and does nothing from then on.
pub release_cases :
    (ch : ℕ) (s t : System)
    → release ch s ≡ ok t
    → ((s.released ch ≡ true) × (t ≡ s))
      ⊎ ((s.released ch ≡ false)
          × (release_from_handle ch s.queue ≡ ok t.queue)
          × (t.released ch ≡ true))
unfolding release
release_cases ch s t e = elim (Bool-cases (s.released ch)) [
  | inl again ↦ inl (again, ground arith)
  | inr first ↦ elim (Result-cases (release_from_handle ch s.queue)) [
    | inl (q, went) ↦ inr (first, ground arith, ground arith)
    | inr (f, stuck) ↦ absurd (ground arith)
  ]
]

release-WellFormed :
    (ch : ℕ) (s t : System) → release ch s ≡ ok t → WellFormed s.queue → WellFormed t.queue
release-WellFormed ch s t e w = elim (release_cases ch s t e) [
  | inl (again, same) ↦ subst (λ (u : System). WellFormed u.queue) (sym same) w
  | inr (first, went, last) ↦
      let (r, went1, x) = release_from_handle_lem ch s.queue w in
      subst WellFormed (ok-injective r t.queue (sym went1 ∙ went)) x.well
]

acquire-WellFormed : (q r : Queue) (ch : ℕ) → acquire q ≡ ok (r, ch) → WellFormed q → WellFormed r
acquire-WellFormed q r ch e w =
    let (r1, went, a) = acquire_lem q in
    subst WellFormed
      (ap (λ (p : Queue × ℕ). p.0) (ok-injective (r1, q.next_chan) (r, ch) (sym went ∙ e)))
      (Acquired-WellFormed q r1 a w)

-- Every step of any client keeps the queue well-formed.
Step-WellFormed : {s t : System} → Step s t → WellFormed s.queue → WellFormed t.queue
unfolding set_max
Step-WellFormed (acquires {s} {q} ch e) w = acquire-WellFormed s.queue q ch e w
Step-WellFormed (releases {s} {t} ch h e) w = release-WellFormed ch s t e w
Step-WellFormed (receives {s} {status} {chans} ch e) w =
    receive-WellFormed s.queue ch status chans e w
Step-WellFormed (sets_max {s} max max_queued) w = record {
  active_ok = w.active_ok;
  queued_ok = w.queued_ok;
  active_distinct = w.active_distinct;
  queued_distinct = w.queued_distinct;
}

pub Reach-WellFormed : {s : System} → Reach s → WellFormed s.queue
unfolding new
Reach-WellFormed (start max max_queued) = record {
  active_ok = tt;
  queued_ok = tt;
  active_distinct = tt;
  queued_distinct = tt;
}
Reach-WellFormed (next r st) = Step-WellFormed st (Reach-WellFormed r)
