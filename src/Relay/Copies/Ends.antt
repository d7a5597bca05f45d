-- ===== src/Relay/Copies/Ends.antt =====
-- The end of `relay`, from the `select` on.
use rsync_proxy.Base.{
  ℕ, zero, suc, ◌+◌, ◌-◌, ◌<◌, ◌≡◌, refl, sym, ap, ◌∙◌, ◌≢◌, ◌⊎◌, inl, inr, Bool, true, List, [],
  ◌∷◌, ◌++◌, append-nil, arith, Bytes, length, length-append,
}
use rsync_proxy.Relay.Copies.Closings.{Reach-IsSplit, other_stops}
use rsync_proxy.Relay.Copies.{
  any_effect, stops_reads, reads, CanCall, copier, next, Direction, Reach, call, all_written,
  writes, Copier, all_read, returns, Call, sent, received, Phase, copying, returned, closed, Main,
  selects, awaits_sent, awaits_received, finished, Copying, close_channel, select, passes_sent,
  finish, Step, calls, closes, selected, sent_closed, received_closed,
}
use rsync_proxy.Relay.Copies.Counts.{IsCopy, Reach-IsCounted}
use rsync_proxy.Routing.{Target}

-- The `select` is over, or `io.Copy` has returned in both.
abbrev pub IsEnding : Copying → Type 0
IsEnding s =
    (s.main ≢ selects) ⊎ ((s.from_client.phase ≢ copying) × (s.from_upstream.phase ≢ copying))

-- `io.Copy` returns the error of a `Read` that fails, once all that was read is written, and writes no
-- empty text.
pub record CanReturn (allows : List Call → Bool) : Type 0 where
  pub returns_error :
      (h : List Call)
      → (h ≡ []) ⊎ (allows h ≡ true)
      → all_read h ≡ all_written h
      → allows (returns true ∷ h) ≡ true
  pub writes_some : (b : Bytes) (h : List Call) → allows (writes b ∷ h) ≡ true → 0 < length b

-- A copy has something to write, and may be held up in the `Write`: no deadline is set.
abbrev pub IsHeldUp : Copying → Type 0
IsHeldUp s =
    (d : Direction) × ((copier d s).phase ≡ copying)
    × (all_read (copier d s).calls ≢ all_written (copier d s).calls)

-- A step that nobody outside can put off: a `Read` of what is closed fails, with all written, or a
-- goroutine or `relay` goes on after `io.Copy`.
abbrev pub IsPrompt :
    {allows : List Call → Bool} {target : Target} {name : Bytes} {s t : Copying}
    → Step allows target name s t
    → Type 0
IsPrompt {s = s} (calls d c p can ok) =
    (c ≡ returns true)
    × (any_effect (stops_reads d) s.effects ≡ true)
    × (all_read (copier d s).calls ≡ all_written (copier d s).calls)
IsPrompt (closes d failed p) = Unit
IsPrompt (selected d p q) = Unit
IsPrompt (sent_closed p q) = Unit
IsPrompt (received_closed p q) = Unit

-- However the goroutines take turns from here, `relay` gets to its end unless a copy is held up in
-- a `Write` for ever: it is there, or one of them has a step that nobody can put off, or one is in a
-- `Write`; and the same is so after each step that one of them has, of which there is no endless
-- row.
pub data Finishes (allows : List Call → Bool) (target : Target) (name : Bytes)
    : Copying → Type 0 where
  is_there : {s : Copying} → s.main ≡ finished → Finishes allows target name s
  goes_on :
      {s : Copying}
      → ((t : Copying) × (st : Step allows target name s t) × IsPrompt st) ⊎ IsHeldUp s
      → ((u : Copying) → Step allows target name s u → Finishes allows target name u)
      → Finishes allows target name s

abbrev main_left : Main → ℕ
main_left selects = 3
main_left awaits_sent = 2
main_left awaits_received = 1
main_left finished = 0

-- A copy that runs may still write what it has read, return, and close its channel.
abbrev phase_left : Phase → List Call → ℕ
phase_left copying h = 2 + (length (all_read h) - length (all_written h))
phase_left (returned e) h = 1
phase_left closed h = 0

abbrev copier_left : Copier → ℕ
copier_left c = phase_left c.phase c.calls

abbrev left : Copying → ℕ
left s = main_left s.main + copier_left s.from_client + copier_left s.from_upstream

Phase-cases : (p : Phase) → (p ≡ copying) ⊎ ((e : Bool) × (p ≡ returned e)) ⊎ (p ≡ closed)
Phase-cases copying = inl refl
Phase-cases (returned e) = inr (inl (e, refl))
Phase-cases closed = inr (inr refl)

Main-cases : (m : Main) → (m ≡ selects) ⊎ (m ≡ awaits_sent) ⊎ (m ≡ awaits_received) ⊎ (m ≡ finished)
Main-cases selects = inl refl
Main-cases awaits_sent = inr (inl refl)
Main-cases awaits_received = inr (inr (inl refl))
Main-cases finished = inr (inr (inr refl))

module _ (allows : List Call → Bool) (target : Target) (name : Bytes) where
  abbrev Next : Copying → Type 0
  Next s = ((t : Copying) × (st : Step allows target name s t) × IsPrompt st) ⊎ IsHeldUp s

  not_copying :
      (d : Direction) (s : Copying)
      → (s.from_client.phase ≢ copying) × (s.from_upstream.phase ≢ copying)
      → (copier d s).phase ≢ copying
  not_copying sent s h = h.1
  not_copying received s h = h.0

  -- What a copy that still runs reads is closed.
  source_stops :
      (d : Direction) {s : Copying}
      → Reach allows target name s
      → IsEnding s
      → (copier d s).phase ≡ copying
      → any_effect (stops_reads d) s.effects ≡ true
  source_stops d {s} r (inr over) p = absurd (not_copying d s over p)
  source_stops d {s} r (inl past) p = elim (Reach-IsSplit allows target name r) [
    | inl e ↦ absurd (past e)
    | inr h ↦ other_stops allows target name d s h p
  ]

  -- With both channels closed `relay` is not held up.
  main_moves :
      (s : Copying)
      → s.from_client.phase ≡ closed
      → s.from_upstream.phase ≡ closed
      → (s.main ≡ finished) ⊎ Next s
  main_moves s up down = elim (Main-cases s.main) [
    | inl p ↦ inr (inl (select sent s, selected sent p down, tt))
    | inr (inl p) ↦ inr (inl (passes_sent s, sent_closed p up, tt))
    | inr (inr (inl p)) ↦ inr (inl (finish target name s, received_closed p down, tt))
    | inr (inr (inr p)) ↦ inl p
  ]

  module _ (copy : IsCopy allows) (fails : CanReturn allows) where
    -- All that was read is written, or something is left.
    written_or_not :
        (h : List Call)
        → (h ≡ []) ⊎ (allows h ≡ true)
        → (all_read h ≡ all_written h) ⊎ (all_read h ≢ all_written h)
    written_or_not h (inl none_made) = inl (rw none_made refl)
    written_or_not h (inr ok) = split_rest (copy.in_order h ok)
      where
        split_rest :
            (rest : Bytes) × (all_read h ≡ all_written h ++ rest)
            → (all_read h ≡ all_written h) ⊎ (all_read h ≢ all_written h)
        split_rest ([], e) = inl (e ∙ append-nil _)
        split_rest (b ∷ rest, e) = inr (λ same.
            let long : length (all_written h) ≡ length (all_written h ++ b ∷ rest) =
              ap (λ (x : Bytes). length x) (sym same ∙ e) in
            absurd (omega (arith, length-append (all_written h) (b ∷ rest))))

    -- A goroutine that is not at its end has a step, or is in a `Write`.
    copier_moves :
        (d : Direction) {s : Copying}
        → Reach allows target name s
        → IsEnding s
        → ((copier d s).phase ≡ closed) ⊎ Next s
    copier_moves d {s} r ending = elim (Phase-cases (copier d s).phase) [
      | inl p ↦
          let known = (Reach-IsCounted allows target name d r).allowed in
          elim (written_or_not (copier d s).calls known) [
            | inr more ↦ inr (inr (d, p, more))
            | inl all ↦ inr (
                inl (
                  call d (returns true) s,
                  calls d (returns true) p tt (fails.returns_error _ known all),
                  (refl, source_stops d r ending p, all),
                ))
          ]
      | inr (inl (e, p)) ↦ inr (inl (close_channel d e s, closes d e p, tt))
      | inr (inr p) ↦ inl p
    ]

    moves : {s : Copying} → Reach allows target name s → IsEnding s → (s.main ≡ finished) ⊎ Next s
    moves {s} r ending = elim (copier_moves received r ending) [
      | inr m ↦ inr m
      | inl up ↦ elim (copier_moves sent r ending) [
        | inr m ↦ inr m
        | inl down ↦ main_moves s up down
      ]
    ]

    -- A write leaves less to write.
    written_less :
        (b : Bytes) (h : List Call)
        → allows (writes b ∷ h) ≡ true
        → length (all_read h) - length (all_written h ++ b)
          < length (all_read h) - length (all_written h)
    written_less b h ok =
        let (rest, is) = copy.in_order (writes b ∷ h) ok in
        let all : length (all_read h) ≡ length (all_written h ++ b) + length rest =
          ap (λ (x : Bytes). length x) is ∙ length-append (all_written h ++ b) rest in
        omega (arith, all, length-append (all_written h) b, fails.writes_some b h ok)

    -- Each step brings the end nearer.
    calls-left :
        (d : Direction) (c : Call) (s : Copying)
        → (copier d s).phase ≡ copying
        → any_effect (stops_reads d) s.effects ≡ true
        → CanCall d c s
        → allows (c ∷ (copier d s).calls) ≡ true
        → left (call d c s) < left s
    unfolding call
    calls-left sent (reads b) s p stops can ok = absurd (cc)
    calls-left received (reads b) s p stops can ok = absurd (cc)
    calls-left sent (writes b) s p stops can ok =
        rw p (omega (arith, written_less b s.from_upstream.calls ok))
    calls-left received (writes b) s p stops can ok =
        rw p (omega (arith, written_less b s.from_client.calls ok))
    calls-left sent (returns x) s p stops can ok = rw p (omega arith)
    calls-left received (returns x) s p stops can ok = rw p (omega arith)

    IsEnding-call :
        (d : Direction) (c : Call) (s : Copying)
        → IsEnding s
        → (copier d s).phase ≡ copying
        → IsEnding (call d c s)
    unfolding call
    IsEnding-call sent c s (inl past) p = inl past
    IsEnding-call received c s (inl past) p = inl past
    IsEnding-call sent c s (inr (a, b)) p = absurd (b p)
    IsEnding-call received c s (inr (a, b)) p = absurd (a p)

    IsEnding-close :
        (d : Direction) (failed : Bool) (s : Copying)
        → IsEnding s
        → IsEnding (close_channel d failed s)
    unfolding close_channel
    IsEnding-close sent failed s (inl past) = inl past
    IsEnding-close received failed s (inl past) = inl past
    IsEnding-close sent failed s (inr (a, b)) = inr (a, λ e. absurd (cc))
    IsEnding-close received failed s (inr (a, b)) = inr (λ e. absurd (cc), b)

    closes-left :
        (d : Direction) (failed : Bool) (s : Copying)
        → (copier d s).phase ≡ returned failed
        → left (close_channel d failed s) < left s
    unfolding close_channel
    closes-left sent failed s p = rw p (omega arith)
    closes-left received failed s p = rw p (omega arith)

    Step-left :
        {s t : Copying}
        → Reach allows target name s
        → IsEnding s
        → Step allows target name s t
        → (left t < left s) × IsEnding t
    unfolding select finish
    Step-left {s} reach e (calls d c p can ok) =
        (calls-left d c s p (source_stops d reach e p) can ok, IsEnding-call d c s e p)
    Step-left {s} reach e (closes d failed p) =
        (closes-left d failed s p, IsEnding-close d failed s e)
    Step-left {s} reach e (selected d p q) = (rw p (omega arith), inl (λ x. absurd (cc)))
    Step-left {s} reach e (sent_closed p q) = (rw p (omega arith), inl (λ x. absurd (cc)))
    Step-left {s} reach e (received_closed p q) = (rw p (omega arith), inl (λ x. absurd (cc)))

    ends_in :
        (n : ℕ) (s : Copying)
        → left s < n
        → Reach allows target name s
        → IsEnding s
        → Finishes allows target name s
    ends_in zero s h r e = absurd (omega arith)
    ends_in (suc n) s h r e = elim (moves r e) [
      | inl p ↦ is_there p
      | inr m ↦
          goes_on m (λ u stu.
            let (less, e') = Step-left r e stu in ends_in n u (omega arith) (next r stu) e')
    ]

    -- If `io.Copy` writes what it has read in order, no empty text, and returns the error of a `Read`
    -- that fails: from a state past the `select`, or one in which `io.Copy` has returned in both
    -- goroutines, `relay` gets to its end however the three take turns, or a copy is held up in a
    -- `Write`. What `relay` closes first ends the copy that still runs, and no channel is waited for
    -- in vain, whichever was closed first.
    pub copies_end :
        (s : Copying) → Reach allows target name s → IsEnding s → Finishes allows target name s
    copies_end s r e = ends_in (suc (left s)) s (omega arith) r e
