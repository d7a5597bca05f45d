-- ===== src/Queue.antt =====
-- pkg/queue/queue.go: the bounded queue in front of one upstream. `mu` is held by each method from
-- its start to its end, so a method is one function from a state to the next; what the owner of a
-- handle does between them is `receive`. A `queueItem` is its channel.
pub mod Channels
pub mod Broadcast
pub mod Enter
pub mod History
pub mod Capacity
pub mod Places
pub mod Service
pub mod Receipts
pub mod Acquire
pub mod Release
pub mod Invariant
pub mod Removal
pub mod Admission
pub mod Line
use rsync_proxy.Base.{
  ℕ, zero, suc, ◌+◌, ◌≡◌, ◌<◌, Bool, true, false, not, ◌&&◌, ◌||◌, List, [], ◌∷◌, ◌++◌, some, ◌==◌,
  ltb, leb, if◌then◌else◌, length, ℤ, pos, ◌+ℤ◌, ◌-ℤ◌, ltb_ℤ, eq_ℤ,
}
use Channels.{
  Status, granted, rejected, waiting, Store, put, fresh, Result, ok, fault, head_of_empty,
  out_of_fuel, ◌>>=◌, send, close, try_send, receive,
}

-- The store holds the channels of this queue; `next_chan` is the name of the next new one.
pub record Queue : Type 0 where
  pub max : ℤ
  pub max_queued : ℤ
  pub active : List ℕ
  pub queued : List ℕ
  pub chans : Store
  pub next_chan : ℕ

-- `New`
unfoldable pub new : ℤ → ℤ → Queue
new max max_queued = record {
  max = max;
  max_queued = max_queued;
  active = [];
  queued = [];
  chans = λ _. fresh;
  next_chan = 0;
}

-- `GetMax`, `GetMaxQueued`, `ActiveLen` and `QueuedLen`
unfoldable pub get_max : Queue → ℤ
get_max q = q.max

unfoldable pub get_max_queued : Queue → ℤ
get_max_queued q = q.max_queued

unfoldable active_len : Queue → ℕ
active_len q = length q.active

unfoldable pub queued_len : Queue → ℕ
queued_len q = length q.queued

-- `SetMax`
unfoldable pub set_max : ℤ → ℤ → Queue → Queue
set_max max max_queued q = record q { max = max; max_queued = max_queued }

-- `len(q.active) < q.max || q.max == 0`
abbrev pub has_room : Queue → Bool
has_room q = ltb_ℤ (pos (length q.active)) q.max || eq_ℤ q.max (pos 0)

-- `q.maxQueued > 0 && len(q.queued) >= q.maxQueued`
abbrev pub is_full : Queue → Bool
is_full q = ltb_ℤ (pos 0) q.max_queued && not (ltb_ℤ (pos (length q.queued)) q.max_queued)

-- `len(q.active) - q.max`
abbrev pub surplus : Queue → ℤ
surplus q = pos (length q.active) -ℤ q.max

-- `Acquire`; the handle is named by its channel.
unfoldable pub acquire : Queue → Result (Queue × ℕ)
unfolding send close
acquire q =
    let ch = q.next_chan in
    let made = put q.chans ch fresh in
    if has_room q
    then (do
      sent ← send ch granted made
      shut ← close ch sent
      ok (record q { active = q.active ++ ch ∷ []; chans = shut; next_chan = ch + 1 }, ch))
    else if is_full q
    then (do
      sent ← send ch rejected made
      shut ← close ch sent
      ok (record q { chans = shut; next_chan = ch + 1 }, ch))
    else (do
      let queued = q.queued ++ ch ∷ []
      let total = surplus q +ℤ pos (length queued)
      sent ← send ch (waiting (total -ℤ pos 1) total) made
      ok (record q { queued = queued; chans = sent; next_chan = ch + 1 }, ch))

-- `popHead`
unfoldable pub pop_head : Queue → Result Queue
pop_head q = elim q.queued [
  | [] ↦ fault head_of_empty
  | head ∷ rest ↦ do
    sent ← try_send head granted q.chans
    shut ← close head sent
    ok (record q { active = q.active ++ head ∷ []; queued = rest; chans = shut })
]

-- `for len(q.queued) > 0 && (len(q.active) < q.max || q.max == 0) { q.popHead() }`
unfoldable pub admit_loop : ℕ → Queue → Result Queue
admit_loop zero q = fault out_of_fuel
admit_loop (suc fuel) q = elim (ltb 0 (length q.queued) && has_room q) [
  | true ↦ pop_head q >>= admit_loop fuel
  | false ↦ ok q
]

-- The body of `broadcastStatus` from place `i` of `q.queued` on; `base` is `surplus`, `total` is
-- `surplus + len(q.queued)`.
unfoldable pub broadcast_from : ℤ → ℤ → ℕ → List ℕ → Store → Result Store
broadcast_from base total i [] s = ok s
broadcast_from base total i (ch ∷ rest) s =
    try_send ch (waiting (base +ℤ pos i) total) s >>= broadcast_from base total (suc i) rest

-- `broadcastStatus`
unfoldable pub broadcast_status : Queue → Result Queue
broadcast_status q = do
  told ← broadcast_from (surplus q) (surplus q +ℤ pos (length q.queued)) 0 q.queued q.chans
  ok (record q { chans = told })

-- The loop that builds `newList`: all items but those on channel `ch`.
unfoldable pub without : ℕ → List ℕ → List ℕ
without ch [] = []
without ch (x ∷ xs) = let rest = without ch xs in if ch == x then rest else x ∷ rest

-- `releaseFromHandle`; the loop runs at most once for each queued item.
unfoldable pub release_from_handle : ℕ → Queue → Result Queue
release_from_handle ch q =
    let waiters = without ch q.queued in
    if not (length waiters == length q.queued)
    then broadcast_status (record q { queued = waiters })
    else (admit_loop (suc (length q.queued)) (record q { active = without ch q.active })
        >>= broadcast_status)

-- A queue with its handles: `released` is the field of that name of the `internalHandle` of each
-- channel.
pub record System : Type 0 where
  pub queue : Queue
  pub released : ℕ → Bool

-- `internalHandle.release`, which `Handle.Release` and the cleanup of a lost handle call.
unfoldable pub release : ℕ → System → Result System
release ch s =
    if s.released ch
    then ok s
    else (release_from_handle ch s.queue >>= λ q.
        ok (record { queue = q; released = λ j. if j == ch then true else s.released j }))

-- What the clients of one queue do, in any order.
pub data Step : System → System → Type 0 where
  acquires :
      {s : System} {q : Queue} (ch : ℕ)
      → acquire s.queue ≡ ok (q, ch)
      → Step s (record s { queue = q })
  releases : {s t : System} (ch : ℕ) → ch < s.queue.next_chan → release ch s ≡ ok t → Step s t
  receives :
      {s : System} {status : Status} {chans : Store} (ch : ℕ)
      → receive ch s.queue.chans ≡ some (status, chans)
      → Step s (record s { queue = record s.queue { chans = chans } })
  sets_max :
      {s : System} (max max_queued : ℤ)
      → Step s (record s { queue = set_max max max_queued s.queue })

-- The states that the queue can be in, from `New` on.
pub data Reach : System → Type 0 where
  start :
      (max max_queued : ℤ) → Reach (record { queue = new max max_queued; released = λ _. false })
  next : {s t : System} → Reach s → Step s t → Reach t
