-- ===== src/Queue/Service.antt =====
-- What a queue promises its clients, whatever they do and in whatever order.
use rsync_proxy.Base.{
  All, subst, ◌∷◌, List, ◌∙◌, ℤ, ℕ, ◌≡◌, refl, inl, inr, ◌==◌, true, false, ◌++◌, arith, Bool-cases,
  if◌then◌else◌,
}
use rsync_proxy.Queue.Channels.{ok}
use rsync_proxy.Queue.Admission.{granted_chan}
use rsync_proxy.Queue.Acquire.{Acquired, acquire_lem}
use rsync_proxy.Queue.Invariant.{IsWaiting, Holds}
use rsync_proxy.Queue.Release.{release_from_handle_lem}
use rsync_proxy.Queue.History.{Reach-WellFormed, release_cases}
use rsync_proxy.Queue.{set_max, has_room, Queue, without, acquire, System, release, Reach}

-- In a reachable state `Acquire` and every `Release` return: none panics on a closed channel and
-- none blocks with the mutex held. The first release of a handle takes it, and only it, out of the
-- line of active and waiting clients, whose order stays as it was.
pub Reach-total :
    {s : System}
    → Reach s
    → (ch : ℕ)
    → ((q : Queue) × (acquire s.queue ≡ ok (q, s.queue.next_chan)) × Acquired s.queue q)
      × ((t : System) × (release ch s ≡ ok t)
          × (s.released ch ≡ false
              → t.queue.active ++ t.queue.queued ≡ without ch (s.queue.active ++ s.queue.queued)))
unfolding release
Reach-total {s} reach ch =
    let (r, went, x) = release_from_handle_lem ch s.queue (Reach-WellFormed reach) in
    (
      acquire_lem s.queue,
      elim (Bool-cases (s.released ch)) [
        | inl again ↦ (s, rw again refl, λ first. cc)
        | inr first ↦ (
          record { queue = r; released = λ j. if j == ch then true else s.released j },
          ground arith,
          λ _. x.line_is,
        )
      ],
    )

-- A handle is released once: to release it again changes nothing.
release_twice : (ch : ℕ) (s t : System) → release ch s ≡ ok t → release ch t ≡ ok t
unfolding release
release_twice ch s t e = elim (release_cases ch s t e) [
  | inl (again, same) ↦ rw same (rw again)
  | inr (first, went, last) ↦ rw last
]

-- `SetMax` may make room, but serves nobody: while a client waits, one that comes later is granted
-- at once, and the one that waits stays in its place and is told nothing.
pub set_max_overtakes :
    {s : System} (max max_queued : ℤ) (x : ℕ) (xs : List ℕ)
    → Reach s
    → s.queue.queued ≡ x ∷ xs
    → has_room (set_max max max_queued s.queue) ≡ true
    → (q : Queue) × (acquire (set_max max max_queued s.queue) ≡ ok (q, s.queue.next_chan))
      × (q.chans s.queue.next_chan ≡ granted_chan)
      × (q.queued ≡ x ∷ xs)
      × (q.chans x ≡ s.queue.chans x)
unfolding set_max
set_max_overtakes {s} max max_queued x xs reach e room =
    let (q, went, a) = acquire_lem (set_max max max_queued s.queue) in
    let w =
      subst (All (Holds IsWaiting s.queue.chans s.queue.next_chan)) e
        (Reach-WellFormed reach).queued_ok in
    (q, went, rw room at a.answered, rw room at a.queued_is ∙ e, a.apart x (λ z. omega arith))
