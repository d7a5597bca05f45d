-- ===== src/Server/Reload.antt =====
-- A reload keeps the queues of the upstreams that stay, and the clients in them.
use rsync_proxy.Base.{
  ℕ, ◌<◌, ◌≡◌, Option, some, List, Memᴰ, Bytes, bytes_eq, pair_eq, nat_eq, lookup,
}
use rsync_proxy.Server.{Server, QueueHeap}
use mathlib.Core.List.Memᴰ as MemD
use rsync_proxy.Queue.{Queue}

-- `heap'` holds at every old pointer a queue with the same clients.
abbrev SameClients : Queue → Queue → Type 0
SameClients q r =
    (r.active ≡ q.active)
    × (r.queued ≡ q.queued)
    × (r.chans ≡ q.chans)
    × (r.next_chan ≡ q.next_chan)

abbrev pub KeepsClients : QueueHeap → QueueHeap → Type 0
KeepsClients heap heap' = (p : ℕ) → p < heap.next_pointer → SameClients (heap.cell p) (heap'.cell p)

-- Where a name is in the old map, the new one has its pointer or none.
abbrev pub Agrees : List (Bytes × ℕ) → List (Bytes × ℕ) → Type 0
Agrees old queues = (k : Bytes) (p q : ℕ) → lookup k old ≡ some p → lookup k queues ≡ some q → q ≡ p

-- Of the names in `names`, each that has a pointer in the old map has the same one in the new.
abbrev pub Keeps : List Bytes → List (Bytes × ℕ) → List (Bytes × ℕ) → Type 0
Keeps names old queues =
    (k : Bytes) (p : ℕ) → Memᴰ k names → lookup k old ≡ some p → lookup k queues ≡ some p
