-- ===== src/Tests/QueueRuns.antt =====
-- Runs of the queue, and its theorems at them.
use rsync_proxy.Base.{
  some, ℕ, ◌≡◌, refl, inr, false, [], ◌∷◌, ◌++◌, Memᴰ, arith, length, drop, take, pos,
}
use rsync_proxy.Queue.{
  release_from_handle, admit_loop, pop_head, broadcast_status, broadcast_from, Queue, System, Reach,
  start, next, acquires, releases, Step, new, acquire, release, without, set_max,
}
use rsync_proxy.Queue.Channels.{try_send, Result, ok, fault, receive, Status, Store}
use rsync_proxy.Queue.Acquire.{Acquired}
use rsync_proxy.Queue.Admission.{granted_chan}
use rsync_proxy.Queue.History.{Reach-WellFormed}
use rsync_proxy.Queue.Service.{Reach-total, set_max_overtakes}
use rsync_proxy.Queue.Receipts.{receive_tells, Finds, grants_read}
use rsync_proxy.Queue.Capacity.{Step-IsWithin, IsWithin}
use rsync_proxy.Queue.Line.{act, slots}
use rsync_proxy.Queue.Line.Refinement.{line_of, action_of, Step-refines}
use rsync_proxy.Queue.Line.Termination.{one_left, admit_loop_ends}
use rsync_proxy.Queue.Places.{release-TellsPlaces, TellsPlaces}

abbrev taken : Result (Queue × ℕ) → Queue → Queue
taken (ok (q, ch)) other = q
taken (fault f) other = other

-- `New(1, 2)` and three `Acquire`s: one client is active and two wait.
abbrev one_client : Queue
unfolding acquire new
one_client = taken (acquire (new (pos 1) (pos 2))) (new (pos 1) (pos 2))

abbrev two_clients : Queue
unfolding acquire new
two_clients = taken (acquire one_client) one_client

abbrev three_clients : Queue
unfolding acquire new
three_clients = taken (acquire two_clients) two_clients

abbrev crowded : System
unfolding acquire new
crowded = record { queue = three_clients; released = λ _. false }

crowded-Reach : Reach crowded
unfolding acquire new
crowded-Reach =
    next (next (next (start (pos 1) (pos 2)) (acquires 0 refl)) (acquires 1 refl)) (acquires 2 refl)

abbrev after : Result System → System → System
after (ok s) other = s
after (fault f) other = other

-- `release` with all that it calls open.
run_release : ℕ → System → Result System
unfolding release release_from_handle without admit_loop pop_head try_send broadcast_status
    broadcast_from
run_release = release

-- The active client has left: the next one is active, and one waits.
abbrev served : System
unfolding acquire new run_release
served = after (release 0 crowded) crowded

served-Step : Step crowded served
unfolding acquire new run_release
served-Step = releases 0 (omega arith) refl

served_line : (served.queue.active ≡ 1 ∷ []) × (served.queue.queued ≡ 2 ∷ [])
unfolding acquire new run_release
served_line = (refl, refl)

Reach-total_example :
    ((q : Queue) × (acquire crowded.queue ≡ ok (q, crowded.queue.next_chan))
      × Acquired crowded.queue q)
    × ((t : System) × (release 0 crowded ≡ ok t)
        × (crowded.released 0 ≡ false
            → t.queue.active ++ t.queue.queued
              ≡ without 0 (crowded.queue.active ++ crowded.queue.queued)))
Reach-total_example = Reach-total crowded-Reach 0

receive_tells_example :
    (Memᴰ 0 crowded.queue.active → Finds 0 crowded.queue.chans (grants_read crowded-Reach 0))
    × (Memᴰ 0 crowded.queue.queued
        → (grants_read crowded-Reach 0 ≡ 0)
          × ((st : Status) (chans : Store)
              → receive 0 crowded.queue.chans ≡ some (st, chans)
              → (st.ok ≡ false) × (st.full ≡ false)))
receive_tells_example = receive_tells crowded-Reach 0

set_max_overtakes_example :
    (q : Queue) × (acquire (set_max (pos 5) (pos 2) crowded.queue)
      ≡ ok (q, crowded.queue.next_chan))
    × (q.chans crowded.queue.next_chan ≡ granted_chan)
    × (q.queued ≡ 1 ∷ 2 ∷ [])
    × (q.chans 1 ≡ crowded.queue.chans 1)
unfolding acquire new set_max
set_max_overtakes_example = set_max_overtakes (pos 5) (pos 2) 1 (2 ∷ []) crowded-Reach refl refl

Step-IsWithin_example : IsWithin served.queue
unfolding acquire new run_release
Step-IsWithin_example =
    Step-IsWithin served-Step (Reach-WellFormed crowded-Reach) refl refl
      (inr refl, inr (omega arith), inr (omega arith))

release-TellsPlaces_example :
    TellsPlaces served.queue.chans (length served.queue.queued) 0 served.queue.queued
unfolding acquire new run_release
release-TellsPlaces_example =
    release-TellsPlaces 0 crowded-Reach (inr refl) (inr (omega arith)) refl refl

Step-refines_example : line_of served ≡ act (action_of served-Step) (line_of crowded)
Step-refines_example = Step-refines crowded-Reach served-Step

admit_loop_ends_example :
    let q = one_left 0 crowded.queue in
    let n = slots q.max (length q.active) (length q.queued) in
    (r : Queue) × (admit_loop 7 q ≡ ok r)
    × (r.active ≡ q.active ++ take n q.queued)
    × (r.queued ≡ drop n q.queued)
unfolding acquire new
admit_loop_ends_example = admit_loop_ends 0 7 crowded-Reach (omega arith)
