-- ===== src/Queue/Line/Refinement.antt =====
-- The queue of the code is the line: its channels, and the loops over them, do not show.
use rsync_proxy.Base.{
  ℕ, ◌≡◌, refl, sym, ap, subst, ◌∙◌, inl, inr, Bool, true, false, arith, ◌==◌, if◌then◌else◌,
  Bool-cases,
}
use rsync_proxy.Queue.Channels.{ok, Result-cases, ok-injective}
use rsync_proxy.Queue.Acquire.{Acquired, acquire-Acquired}
use rsync_proxy.Queue.Invariant.{WellFormed}
use rsync_proxy.Queue.Release.{Released, release_from_handle_lem}
use rsync_proxy.Queue.History.{Reach-WellFormed, release_cases}
use rsync_proxy.Queue.Line.{Line, Action, comes, leaves, looks, limits, act, enter, leave, elem}
use rsync_proxy.Queue.Line.Filling.{slots-has_room, crowded-is_full}
use rsync_proxy.Queue.{
  Queue, set_max, System, release, release_from_handle, Step, acquires, releases, receives,
  sets_max, Reach,
}

-- What of a queue its clients can tell from who is served and who waits.
abbrev pub line_of : System → Line
line_of s = record {
  max = s.queue.max;
  max_queued = s.queue.max_queued;
  inside = s.queue.active;
  waiting = s.queue.queued;
  next = s.queue.next_chan;
  left = s.released;
}

abbrev pub action_of : {s t : System} → Step s t → Action
action_of (acquires ch e) = comes
action_of (releases ch h e) = leaves ch
action_of (receives ch e) = looks
action_of (sets_max max max_queued) = limits max max_queued

enter-acquire :
    (q r : Queue) (left : ℕ → Bool)
    → Acquired q r
    → line_of (record { queue = r; released = left })
      ≡ enter (line_of (record { queue = q; released = left }))
unfolding enter
enter-acquire q r left a = ground (
  arith,
  a.active_is,
  a.queued_is,
  a.max_is,
  a.max_queued_is,
  a.next_is,
  slots-has_room q,
  crowded-is_full q,
)

leave-release :
    (ch : ℕ) (s : System) (r : Queue)
    → s.released ch ≡ false
    → Released ch s.queue r
    → line_of (record { queue = r; released = λ j. if j == ch then true else s.released j })
      ≡ leave ch (line_of s)
unfolding leave
leave-release ch s r first x =
    rw (first, x.inside_is, x.waiting_is, x.max_is, x.max_queued_is, x.next_is)
      (elim (Bool-cases (elem ch s.queue.queued)) [
        | inl waits ↦ rw waits refl
        | inr inside ↦ rw inside refl
      ])

-- The state after the release that does something.
release-first :
    (ch : ℕ) (s t : System)
    → s.released ch ≡ false
    → release ch s ≡ ok t
    → t ≡ record { queue = t.queue; released = λ j. if j == ch then true else s.released j }
unfolding release
release-first ch s t first e = elim (Result-cases (release_from_handle ch s.queue)) [
  | inl (q, went) ↦ ground arith
  | inr (f, stuck) ↦ absurd (ground arith)
]

release-refines :
    (ch : ℕ) (s t : System)
    → WellFormed s.queue
    → release ch s ≡ ok t
    → line_of t ≡ leave ch (line_of s)
unfolding leave
release-refines ch s t w e = elim (release_cases ch s t e) [
  | inl (again, same) ↦ rw same (rw again refl)
  | inr (first, went, last) ↦
      let (r, went1, x) = release_from_handle_lem ch s.queue w in
      let x1 = subst (Released ch s.queue) (ok-injective r t.queue (sym went1 ∙ went)) x in
      ap line_of (release-first ch s t first e) ∙ leave-release ch s t.queue first x1
]

-- From a reachable state each step of a client is its action on the line: one comes to the end of the
-- line or inside or is sent away, one leaves and as many as fit come in at once and in their order,
-- one looks at its status and nothing changes, the limits change and nobody moves.
pub Step-refines :
    {s t : System} → Reach s → (st : Step s t) → line_of t ≡ act (action_of st) (line_of s)
unfolding act set_max
Step-refines reach (acquires {s} {q} ch e) =
    enter-acquire s.queue q s.released (acquire-Acquired s.queue q ch e).0
Step-refines reach (releases {s} {t} ch h e) = release-refines ch s t (Reach-WellFormed reach) e
Step-refines reach (receives ch e) = refl
Step-refines reach (sets_max max max_queued) = refl
