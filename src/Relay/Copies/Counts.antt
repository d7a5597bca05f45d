-- ===== src/Relay/Copies/Counts.antt =====
-- While the copies run: what the counters show, and what arrives.
use rsync_proxy.Base.{
  ℕ, ◌%◌, ◌^◌, ◌≡◌, refl, ◌⊎◌, inl, inr, Bool, true, false, List, [], ◌∷◌, ◌++◌, arith, Bytes,
  length, length-append,
}
use rsync_proxy.Relay.Copies.{
  Call, reads, writes, returns, all_read, all_written, Direction, sent, received, Copying, copier,
  call, close_channel, select, passes_sent, finish, Step, calls, closes, selected, sent_closed,
  received_closed, Reach, start, next,
}
use rsync_proxy.Routing.{Target}

-- The counter of a direction.
abbrev pub count_of : Direction → Copying → ℕ
count_of sent s = s.info.sent_bytes
count_of received s = s.info.received_bytes

-- `io.Copy` as its documentation has it: it writes what it has read, in order, and when it returns
-- without an error it has written all of that.
pub record IsCopy (allows : List Call → Bool) : Type 0 where
  pub in_order :
      (h : List Call) → allows h ≡ true → (rest : Bytes) × (all_read h ≡ all_written h ++ rest)
  pub whole : (h : List Call) → allows (returns false ∷ h) ≡ true → all_read h ≡ all_written h

-- Of one direction: the counter, and that `io.Copy` made these calls.
pub record IsCounted (allows : List Call → Bool) (d : Direction) (s : Copying) : Type 0 where
  pub count : count_of d s ≡ length (all_read (copier d s).calls) % 2 ^ 64
  pub allowed : ((copier d s).calls ≡ []) ⊎ (allows (copier d s).calls ≡ true)

module _ (allows : List Call → Bool) (target : Target) (name : Bytes) where
  count_call :
      (d : Direction) (c : Call) (s : Copying)
      → count_of d s ≡ length (all_read (copier d s).calls) % 2 ^ 64
      → count_of d (call d c s) ≡ length (all_read (c ∷ (copier d s).calls)) % 2 ^ 64
  unfolding call
  count_call sent (reads b) s h = omega (arith, h, length-append (all_read s.from_upstream.calls) b)
  count_call received (reads b) s h =
      omega (arith, h, length-append (all_read s.from_client.calls) b)
  count_call sent (writes b) s h = h
  count_call sent (returns e) s h = h
  count_call received (writes b) s h = h
  count_call received (returns e) s h = h

  IsCounted-call :
      (e d : Direction) (c : Call) (s : Copying)
      → allows (c ∷ (copier d s).calls) ≡ true
      → IsCounted allows e s
      → IsCounted allows e (call d c s)
  unfolding call
  IsCounted-call sent sent c s ok h = record {
    count = count_call sent c s h.count;
    allowed = inr ok;
  }
  IsCounted-call received received c s ok h = record {
    count = count_call received c s h.count;
    allowed = inr ok;
  }
  IsCounted-call sent received (reads b) s ok h = record { count = h.count; allowed = h.allowed }
  IsCounted-call sent received (writes b) s ok h = record { count = h.count; allowed = h.allowed }
  IsCounted-call sent received (returns r) s ok h = record { count = h.count; allowed = h.allowed }
  IsCounted-call received sent (reads b) s ok h = record { count = h.count; allowed = h.allowed }
  IsCounted-call received sent (writes b) s ok h = record { count = h.count; allowed = h.allowed }
  IsCounted-call received sent (returns r) s ok h = record { count = h.count; allowed = h.allowed }

  IsCounted-close :
      (e d : Direction) (failed : Bool) (s : Copying)
      → IsCounted allows e s
      → IsCounted allows e (close_channel d failed s)
  unfolding close_channel
  IsCounted-close sent sent failed s h = record { count = h.count; allowed = h.allowed }
  IsCounted-close sent received failed s h = record { count = h.count; allowed = h.allowed }
  IsCounted-close received sent failed s h = record { count = h.count; allowed = h.allowed }
  IsCounted-close received received failed s h = record { count = h.count; allowed = h.allowed }

  -- The steps of `relay` itself touch neither.
  IsCounted-same :
      (e : Direction) (s t : Copying)
      → copier e t ≡ copier e s
      → t.info ≡ s.info
      → IsCounted allows e s
      → IsCounted allows e t
  IsCounted-same sent s t copies info h = record {
    count = rw (copies, info) h.count;
    allowed = rw copies h.allowed;
  }
  IsCounted-same received s t copies info h = record {
    count = rw (copies, info) h.count;
    allowed = rw copies h.allowed;
  }

  same_copier :
      (e : Direction) (s t : Copying)
      → t.from_client ≡ s.from_client
      → t.from_upstream ≡ s.from_upstream
      → copier e t ≡ copier e s
  same_copier sent s t up down = down
  same_copier received s t up down = up

  Step-IsCounted :
      (e : Direction) {s t : Copying}
      → Step allows target name s t
      → IsCounted allows e s
      → IsCounted allows e t
  unfolding select finish
  Step-IsCounted e {s} (calls d c p can ok) h = IsCounted-call e d c s ok h
  Step-IsCounted e {s} (closes d failed p) h = IsCounted-close e d failed s h
  Step-IsCounted e {s} (selected d p q) h =
      IsCounted-same e s (select d s) (same_copier e s (select d s) refl refl) refl h
  Step-IsCounted e {s} (sent_closed p q) h =
      IsCounted-same e s (passes_sent s) (same_copier e s (passes_sent s) refl refl) refl h
  Step-IsCounted e {s} (received_closed p q) h =
      IsCounted-same e s (finish target name s) (same_copier e s (finish target name s) refl refl)
        refl h

  pub Reach-IsCounted :
      (e : Direction) {s : Copying} → Reach allows target name s → IsCounted allows e s
  Reach-IsCounted sent (start info a b) = record { count = a; allowed = inl refl }
  Reach-IsCounted received (start info a b) = record { count = b; allowed = inl refl }
  Reach-IsCounted e (next r st) = Step-IsCounted e st (Reach-IsCounted e r)

  -- However the two copies and `relay` take turns, if `io.Copy` writes what it has read in order and
  -- returns without an error only when all of it is written, then at every moment the counter of a
  -- direction is the number of the bytes that were read from its source, modulo 2 ^ 64, and the bytes
  -- that were written to its destination are a prefix of those.
  pub copies_count :
      IsCopy allows
      → (d : Direction) {s : Copying} → Reach allows target name s
      → (count_of d s ≡ length (all_read (copier d s).calls) % 2 ^ 64)
        × ((rest : Bytes) × (all_read (copier d s).calls ≡ all_written (copier d s).calls ++ rest))
  copies_count copy d r =
      let h = Reach-IsCounted d r in
      (h.count, elim h.allowed [ inl e ↦ ([], rw e refl) | inr ok ↦ copy.in_order _ ok ])
