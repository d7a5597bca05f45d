-- ===== src/Tests/CopyRuns.antt =====
-- Runs of the two copies, with an `io.Copy` that writes each piece before it reads the next, and the
-- theorems at them.
use rsync_proxy.Base.{
  ◌%◌, ◌^◌, ◌<◌, ◌≡◌, refl, sym, ◌∙◌, ◌⊎◌, inl, inr, Bool, true, false, ◌&&◌, List, [], ◌∷◌, ◌++◌,
  Memᴰ, append-nil, arith, ltb, Bytes, codes, bytes_beq, bytes_beq_iff, length,
}
use rsync_proxy.Relay.{finish_copy}
use rsync_proxy.Relay.Script.{done}
use rsync_proxy.Relay.Copies.{
  Call, reads, writes, returns, all_read, all_written, Direction, sent, received, closed, Copying,
  copier, call, close_channel, select, passes_sent, finish, start_copying, Step, calls, closes,
  selected, sent_closed, received_closed, Reach, start, next,
}
use rsync_proxy.Relay.Copies.Counts.{IsCopy, count_of, copies_count}
use rsync_proxy.Relay.Copies.Finish.{with_copies, copies_finish}
use rsync_proxy.Relay.Copies.Ends.{CanReturn, IsEnding, Finishes, copies_end}
use rsync_proxy.Routing.{Target}
use rsync_proxy.Relay.Served.{session}
use rsync_proxy.Tests.CounterRuns.{info}
use rsync_proxy.Tests.RelayRuns.{open_setting}

abbrev by_pieces : List Call → Bool
by_pieces [] = true
by_pieces (reads b ∷ h) = by_pieces h && bytes_beq (all_read h) (all_written h)
by_pieces (writes b ∷ h) =
    by_pieces h && (ltb 0 (length b) && bytes_beq (all_read h) (all_written h ++ b))
by_pieces (returns true ∷ h) = by_pieces h
by_pieces (returns false ∷ h) = by_pieces h && bytes_beq (all_read h) (all_written h)

both_true : (a b : Bool) → (a && b) ≡ true → (a ≡ true) × (b ≡ true)
both_true true b e = (refl, e)
both_true false b e = absurd (cc)

by_pieces_in_order :
    (h : List Call) → by_pieces h ≡ true → (rest : Bytes) × (all_read h ≡ all_written h ++ rest)
by_pieces_in_order [] e = ([], refl)
by_pieces_in_order (reads b ∷ h) e =
    let (_, same) = both_true (by_pieces h) _ e in
    (b, rw ((bytes_beq_iff (all_read h) (all_written h)).0 same) refl)
by_pieces_in_order (writes b ∷ h) e =
    let (_, more) = both_true (by_pieces h) _ e in
    let (_, same) = both_true (ltb 0 (length b)) _ more in
    ([], (bytes_beq_iff (all_read h) (all_written h ++ b)).0 same ∙ sym (append-nil _))
by_pieces_in_order (returns true ∷ h) e = by_pieces_in_order h e
by_pieces_in_order (returns false ∷ h) e = by_pieces_in_order h (both_true (by_pieces h) _ e).0

by_pieces-IsCopy : IsCopy by_pieces
by_pieces-IsCopy = record {
  in_order = by_pieces_in_order;
  whole = λ h e. (bytes_beq_iff (all_read h) (all_written h)).0 (both_true (by_pieces h) _ e).1;
}

abbrev target : Target
target = record { upstream = codes "u"; addr = codes "10.0.0.1:873"; use_proxy_protocol = false }

abbrev foo : Bytes
foo = codes "foo"

abbrev Goes : Copying → Copying → Type 0
Goes s t = Step by_pieces target foo s t

-- The upstream sends two bytes, which the client is given, and closes.
abbrev s1 : Copying
s1 = call sent (reads (codes "hi")) (start_copying (info 3))

abbrev s2 : Copying
s2 = call sent (returns false) (call sent (writes (codes "hi")) s1)

abbrev s3 : Copying
s3 = select sent (close_channel sent false s2)

-- The read of the closed connection to the client fails.
abbrev s4 : Copying
s4 = call received (returns true) s3

abbrev s5 : Copying
s5 = finish target foo (passes_sent (close_channel received true s4))

s1-Reach : Reach by_pieces target foo s1
s1-Reach = next (start (info 3) refl refl) (calls sent (reads (codes "hi")) refl refl refl)

s2-Reach : Reach by_pieces target foo s2
unfolding call
s2-Reach =
    next (next s1-Reach (calls sent (writes (codes "hi")) refl refl refl))
      (calls sent (returns false) refl tt refl)

s3-Reach : Reach by_pieces target foo s3
unfolding call close_channel
s3-Reach = next (next s2-Reach (closes sent false refl)) (selected sent refl refl)

s4-Reach : Reach by_pieces target foo s4
unfolding call close_channel select
s4-Reach = next s3-Reach (calls received (returns true) refl tt refl)

s5-Reach : Reach by_pieces target foo s5
unfolding call close_channel select
s5-Reach =
    next (next (next s4-Reach (closes received true refl)) (sent_closed refl refl))
      (received_closed refl refl)

copies_count_example :
    (count_of sent s1 ≡ length (all_read (copier sent s1).calls) % 2 ^ 64)
    × ((rest : Bytes) × (all_read (copier sent s1).calls
          ≡ all_written (copier sent s1).calls ++ rest))
copies_count_example = copies_count by_pieces target foo by_pieces-IsCopy sent s1-Reach

copies_finish_example :
    ((d : Direction) × (finish_copy (with_copies d s5 open_setting) target foo (session [] [] [])
        ≡ (done tt, record (session [] [] []) { effects = s5.effects })))
    × ((s5.info.sent_bytes ≡ length (all_read s5.from_upstream.calls) % 2 ^ 64)
        × (s5.info.received_bytes ≡ length (all_read s5.from_client.calls) % 2 ^ 64))
    × ((d : Direction)
        → ((copier d s5).phase ≡ closed)
          × ((all_read (copier d s5).calls ≡ all_written (copier d s5).calls)
              ⊎ Memᴰ d s5.copy_errors))
unfolding finish
copies_finish_example =
    copies_finish by_pieces target foo open_setting (session [] [] []) by_pieces-IsCopy s5-Reach
      refl

by_pieces_writes : (b : Bytes) (h : List Call) → by_pieces (writes b ∷ h) ≡ true → 0 < length b
by_pieces_writes b h e =
    let (_, more) = both_true (by_pieces h) _ e in
    let (some_text, _) = both_true (ltb 0 (length b)) _ more in ground (arith, some_text)

by_pieces-CanReturn : CanReturn by_pieces
by_pieces-CanReturn = record {
  returns_error = λ h e all. elim e [ inl none_made ↦ rw none_made refl | inr ok ↦ ok ];
  writes_some = by_pieces_writes;
}

-- The client's copy still runs, and its connection is closed.
s3-IsEnding : IsEnding s3
unfolding call close_channel select
s3-IsEnding = inl (λ e. absurd (cc))

copies_end_example : Finishes by_pieces target foo s3
copies_end_example =
    copies_end by_pieces target foo by_pieces-IsCopy by_pieces-CanReturn s3 s3-Reach s3-IsEnding
