-- ===== src/Relay/Copies/Finish.antt =====
-- What the copies come to, beside the account of them in `finish_copy`.
use rsync_proxy.Base.{
  ◌%◌, ◌^◌, ◌≡◌, refl, sym, ap, subst, ◌∙◌, ◌⊎◌, inl, inr, Bool, true, false, List, [], ◌∷◌, ◌++◌,
  Memᴰ, append_assoc, Bytes, length,
}
use rsync_proxy.Relay.Effects.{logged, finishes, count_completed, count_module}
use rsync_proxy.Relay.Script.{Session, done, tell, tell_all, ◌>>◌, ◌>>=◌}
use rsync_proxy.Relay.{Setting, finish_copy}
use rsync_proxy.Relay.Copies.{
  Call, all_read, all_written, Direction, sent, received, copying, closed, Main, selects,
  awaits_sent, awaits_received, finished, Copying, copier, call, close_channel, closing, select,
  finish, Step, calls, closes, selected, sent_closed, received_closed, Reach, start, next,
}
use rsync_proxy.Relay.Copies.Counts.{IsCopy, Reach-IsCounted}
use rsync_proxy.Relay.Copies.Losses.{HasEnded, Reach-Logs}
use rsync_proxy.Routing.{Target}

-- What `relay` has done, by where it is; `d` is the direction whose channel the `select` took.
abbrev IsAt : Target → Bytes → Main → Copying → Type 0
IsAt target name selects s = s.effects ≡ []
IsAt target name awaits_sent s = (d : Direction) × (s.effects ≡ closing d)
IsAt target name awaits_received s =
    ((d : Direction) × (s.effects ≡ closing d)) × (s.from_client.phase ≡ closed)
IsAt target name finished s =
    (d : Direction) × (s.effects
      ≡ closing d
        ++ count_completed s.info.sent_bytes s.info.received_bytes
          ∷ count_module name target.upstream s.info.sent_bytes s.info.received_bytes
          ∷ logged (finishes name s.info.sent_bytes s.info.received_bytes)
          ∷ [])
    × (s.from_client.phase ≡ closed)
    × (s.from_upstream.phase ≡ closed)

module _ (allows : List Call → Bool) (target : Target) (name : Bytes) where
  -- What has been done outlasts a call, which only an open copier makes.
  IsAt-call :
      (d : Direction) (c : Call) (s : Copying) (m : Main)
      → (copier d s).phase ≡ copying
      → IsAt target name m s
      → IsAt target name m (call d c s)
  unfolding call
  IsAt-call sent c s selects p h = h
  IsAt-call received c s selects p h = h
  IsAt-call sent c s awaits_sent p h = h
  IsAt-call received c s awaits_sent p h = h
  IsAt-call sent c s awaits_received p h = h
  IsAt-call received c s awaits_received p h = absurd (cc)
  IsAt-call sent c s finished p (d, e, up, down) = absurd (cc)
  IsAt-call received c s finished p (d, e, up, down) = absurd (cc)

  IsAt-close :
      (d : Direction) (failed : Bool) (s : Copying) (m : Main)
      → IsAt target name m s
      → IsAt target name m (close_channel d failed s)
  unfolding close_channel
  IsAt-close sent failed s selects h = h
  IsAt-close received failed s selects h = h
  IsAt-close sent failed s awaits_sent h = h
  IsAt-close received failed s awaits_sent h = h
  IsAt-close sent failed s awaits_received h = h
  IsAt-close received failed s awaits_received h = (h.0, refl)
  IsAt-close sent failed s finished (d, e, up, down) = (d, e, up, refl)
  IsAt-close received failed s finished (d, e, up, down) = (d, e, refl, down)

  main-call : (d : Direction) (c : Call) (s : Copying) → (call d c s).main ≡ s.main
  unfolding call
  main-call sent c s = refl
  main-call received c s = refl

  main-close : (d : Direction) (f : Bool) (s : Copying) → (close_channel d f s).main ≡ s.main
  unfolding close_channel
  main-close sent f s = refl
  main-close received f s = refl

  IsAt-finish :
      (s : Copying)
      → s.from_upstream.phase ≡ closed
      → IsAt target name awaits_received s
      → IsAt target name finished (finish target name s)
  unfolding finish
  IsAt-finish s down ((d, e), up) = (d, rw e refl, up, down)

  Step-IsAt :
      {s t : Copying}
      → Step allows target name s t
      → IsAt target name s.main s
      → IsAt target name t.main t
  unfolding select finish
  Step-IsAt {s} (calls d c p can ok) h =
      subst (λ m. IsAt target name m (call d c s)) (sym (main-call d c s))
        (IsAt-call d c s s.main p h)
  Step-IsAt {s} (closes d failed p) h =
      subst (λ m. IsAt target name m (close_channel d failed s)) (sym (main-close d failed s))
        (IsAt-close d failed s s.main h)
  Step-IsAt {s} (selected d p q) h = let e = subst (λ m. IsAt target name m s) p h in (d, rw e refl)
  Step-IsAt {s} (sent_closed p q) h = (subst (λ m. IsAt target name m s) p h, q)
  Step-IsAt {s} (received_closed p q) h = IsAt-finish s q (subst (λ m. IsAt target name m s) p h)

  pub Reach-IsAt : {s : Copying} → Reach allows target name s → IsAt target name s.main s
  Reach-IsAt (start info a b) = refl
  Reach-IsAt (next r st) = Step-IsAt st (Reach-IsAt r)

-- `relay` where both copies end, with what they found.
abbrev pub with_copies : Direction → Copying → Setting → Setting
with_copies d s w = record w {
  one_ends = true;
  both_end = true;
  received_first = (elim d [ sent ↦ true | received ↦ false ]);
  sent_bytes = s.info.sent_bytes;
  received_bytes = s.info.received_bytes;
}

finish_copy-does :
    (w : Setting) (target : Target) (name : Bytes) (d : Direction) (s : Copying) (t : Session)
    → finish_copy (with_copies d s w) target name t ≡ (
      done tt,
      record t {
        effects =
            t.effects
            ++ (closing d
                ++ count_completed s.info.sent_bytes s.info.received_bytes
                  ∷ count_module name target.upstream s.info.sent_bytes s.info.received_bytes
                  ∷ logged (finishes name s.info.sent_bytes s.info.received_bytes)
                  ∷ []);
      },
    )
unfolding finish_copy tell_all tell ◌>>◌ ◌>>=◌
finish_copy-does w target name sent s t = simp append_assoc
finish_copy-does w target name received s t = simp append_assoc

module _ (allows : List Call → Bool) (target : Target) (name : Bytes) where
  -- What was read of a direction was written, or its error is logged.
  delivered :
      (d : Direction) {s : Copying}
      → IsCopy allows
      → Reach allows target name s
      → (copier d s).phase ≡ closed
      → (all_read (copier d s).calls ≡ all_written (copier d s).calls) ⊎ Memᴰ d s.copy_errors
  delivered d {s} copy r e =
      let ended = Reach-Logs allows target name d r in
      let (h, how) = subst (HasEnded d s.copy_errors (copier d s).calls) e ended in
      elim how [
        | inr is_logged ↦ inr is_logged
        | inl last ↦ elim (Reach-IsCounted allows target name d r).allowed [
          | inl none_made ↦ absurd (cc)
          | inr ok ↦ inl (rw last (copy.whole h (subst (λ c. allows c ≡ true) last ok)))
        ]
      ]

  -- What `finish_copy` does is what was done.
  accounts :
      (w : Setting) (t : Session) (s : Copying)
      → IsAt target name finished s
      → (d : Direction) × (finish_copy (with_copies d s w) target name t
          ≡ (done tt, record t { effects = t.effects ++ s.effects }))
  accounts w t s (d, did, up, down) = (
    d,
    finish_copy-does w target name d s t
        ∙ ap (λ es. (done tt, record t { effects = t.effects ++ es })) (sym did),
  )

  end_of :
      (e : Direction) (s : Copying)
      → IsCopy allows
      → Reach allows target name s
      → IsAt target name finished s
      → ((copier e s).phase ≡ closed)
        × ((all_read (copier e s).calls ≡ all_written (copier e s).calls) ⊎ Memᴰ e s.copy_errors)
  end_of sent s copy r (d, did, up, down) = (down, delivered sent copy r down)
  end_of received s copy r (d, did, up, down) = (up, delivered received copy r up)

  -- If `io.Copy` writes what it has read in order and returns without an error only when all of it
  -- is written: when `relay` has finished, both copies have ended; what `relay` has done since their
  -- start is what `finish_copy` does in a setting with the direction that the `select` took and the
  -- two counters as they are now, which are the numbers of bytes that were read, modulo 2 ^ 64; and
  -- for each direction all bytes that were read were written, or a failed copy is logged for it.
  pub copies_finish :
      (w : Setting) (t : Session) {s : Copying}
      → IsCopy allows
      → Reach allows target name s
      → s.main ≡ finished
      → ((d : Direction) × (finish_copy (with_copies d s w) target name t
            ≡ (done tt, record t { effects = t.effects ++ s.effects })))
        × ((s.info.sent_bytes ≡ length (all_read s.from_upstream.calls) % 2 ^ 64)
            × (s.info.received_bytes ≡ length (all_read s.from_client.calls) % 2 ^ 64))
        × ((d : Direction)
            → ((copier d s).phase ≡ closed)
              × ((all_read (copier d s).calls ≡ all_written (copier d s).calls)
                  ⊎ Memᴰ d s.copy_errors))
  copies_finish w t {s} copy r e =
      let at_end = subst (λ m. IsAt target name m s) e (Reach-IsAt allows target name r) in
      (
        accounts w t s at_end,
        (
          (Reach-IsCounted allows target name sent r).count,
          (Reach-IsCounted allows target name received r).count,
        ),
        λ d. end_of d s copy r at_end,
      )
