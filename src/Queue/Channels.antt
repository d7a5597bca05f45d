-- ===== src/Queue/Channels.antt =====
-- The channels of pkg/queue/queue.go: `make(chan Status, 1)`, send, receive, `close`, and `trySend`.
-- A channel is named by a number; the store gives each number its buffer of one place and whether
-- it is closed. What would panic, or block with the queue's mutex held, is a fault.
use rsync_proxy.Base.{
  ℕ, ◌≡◌, refl, ◌⊎◌, inl, inr, ◌≢◌, Bool, true, false, Option, none, some, arith, ◌==◌,
  if◌then◌else◌, ℤ, pos,
}

-- `Status` of queue.go.
pub record Status : Type 0 where
  pub index : ℤ
  pub max : ℤ
  pub ok : Bool
  pub full : Bool

-- `Status{Ok: true}`
abbrev pub granted : Status
granted = record { index = pos 0; max = pos 0; ok = true; full = false }

-- `Status{Full: true}`
abbrev pub rejected : Status
rejected = record { index = pos 0; max = pos 0; ok = false; full = true }

-- `Status{Index: index, Max: max}`
abbrev pub waiting : ℤ → ℤ → Status
waiting index max = record { index = index; max = max; ok = false; full = false }

-- `Status{}`, what a receive from a closed and empty channel gives.
abbrev pub zero_status : Status
zero_status = record { index = pos 0; max = pos 0; ok = false; full = false }

pub record Chan : Type 0 where
  pub pending : Option Status
  pub closed : Bool

abbrev pub Store : Type 0
Store = ℕ → Chan

abbrev pub put : Store → ℕ → Chan → Store
put s k c = λ j. if j == k then c else s j

pub data Fault : Type 0 where
  send_on_closed close_of_closed would_block head_of_empty out_of_fuel : Fault

pub data Result {ℓ} (A : Type ℓ) : Type ℓ where
  ok : A → Result A
  fault : Fault → Result A

infixl 5 ◌>>=◌
abbrev pub ◌>>=◌ {ℓ κ} : {A : Type ℓ} {B : Type κ} → Result A → (A → Result B) → Result B
ok a >>= f = f a
fault e >>= f = fault e

-- `make(chan Status, 1)`
abbrev pub fresh : Chan
fresh = record { pending = none; closed = false }

-- `ch <- status`: on a closed channel it panics, on a full one it would block.
unfoldable pub send : ℕ → Status → Store → Result Store
send ch status s = if (s ch).closed then fault send_on_closed else (elim (s ch).pending [
  | none ↦ ok (put s ch (record { pending = some status; closed = false }))
  | some old ↦ fault would_block
])

-- `close(ch)`: what is in the buffer can still be received.
unfoldable pub close : ℕ → Store → Result Store
close ch s =
    if (s ch).closed
    then fault close_of_closed
    else ok (put s ch (record { pending = (s ch).pending; closed = true }))

-- `select { case <-ch: default: }`
unfoldable drain : ℕ → Store → Store
drain ch s = put s ch (record { pending = none; closed = (s ch).closed })

-- `trySend`: the old status gives way to the new one.
unfoldable pub try_send : ℕ → Status → Store → Result Store
unfolding send drain
try_send ch status s = send ch status (drain ch s)

-- `<-h.C` by the owner of the handle: `none` while there is nothing to receive.
unfoldable pub receive : ℕ → Store → Option (Status × Store)
unfolding drain
receive ch s = elim (s ch).pending [
  | some status ↦ some (status, drain ch s)
  | none ↦ if (s ch).closed then some (zero_status, s) else none
]

pub receive_pending :
    (ch : ℕ) (s : Store) (status : Status)
    → (s ch).pending ≡ some status
    → (t : Store) × (receive ch s ≡ some (status, t))
unfolding receive
receive_pending ch s status e = (drain ch s, ground arith)

pub receive_closed :
    (ch : ℕ) (s : Store)
    → (s ch).pending ≡ none
    → (s ch).closed ≡ true
    → receive ch s ≡ some (zero_status, s)
unfolding receive
receive_closed ch s empty shut = ground arith

-- On an open channel `trySend` neither blocks nor panics, and leaves exactly the new status.
pub try_send_open :
    (ch : ℕ) (status : Status) (s : Store)
    → (s ch).closed ≡ false
    → (t : Store) × (try_send ch status s ≡ ok t)
      × (t ch ≡ record { pending = some status; closed = false })
      × ((j : ℕ) → j ≢ ch → t j ≡ s j)
unfolding try_send
try_send_open ch status s h = (
  put (drain ch s) ch (record { pending = some status; closed = false }),
  ground arith,
  ground arith,
  λ j ne. ground arith,
)

pub Result-cases {ℓ} :
    {A : Type ℓ} (m : Result A) → ((a : A) × (m ≡ ok a)) ⊎ ((f : Fault) × (m ≡ fault f))
Result-cases (ok a) = inl (a, refl)
Result-cases (fault f) = inr (f, refl)

pub ok-injective {ℓ} : {A : Type ℓ} (a b : A) → ok a ≡ ok b → a ≡ b
ok-injective a b e = cc
