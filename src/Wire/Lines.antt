-- ===== src/Wire/Lines.antt =====
-- `readLine` gives a line or a full buffer, and drops no byte.
use rsync_proxy.Base.{
  ℕ, ◌-◌, ◌≤◌, ◌<◌, ◌≡◌, refl, sym, ap, subst, ◌∙◌, ◌≢◌, ◌⊎◌, inl, inr, true, false, List, [], ◌∷◌,
  ◌++◌, append-nil, append_assoc, arith, ◌==◌, Bool-cases, Bytes, length, length-append, drop, take,
  take-append-drop, length-take-le, drop-length_lt,
}
use rsync_proxy.Wire.{Chunk, LineRead, ends_line, unread, read_line_from, read_line}

-- All that the connection still has to say.
abbrev pub bytes_of : List Chunk → Bytes
bytes_of [] = []
bytes_of (chunk ∷ rest) = chunk.bytes ++ bytes_of rest

bytes_of-unread :
    (left : Bytes) (chunk : Chunk) (rest : List Chunk)
    → bytes_of (unread left chunk rest) ≡ left ++ bytes_of rest
bytes_of-unread [] chunk rest = refl
bytes_of-unread (c ∷ s) chunk rest = refl

-- What holds of a read into a buffer of `max` bytes, with `before` to be read in all.
pub record ReadsLine (max : ℕ) (before : Bytes) (r : LineRead) : Type 0 where
  pub nothing_lost : before ≡ r.line ++ bytes_of r.rest
  pub fits : length r.line ≤ max
  pub whole : (r.failed ≡ true) ⊎ ((ends_line r.line ≡ true) ⊎ (length r.line ≡ max))

read_line_from-ReadsLine :
    (max : ℕ) (line : Bytes) (chunks : List Chunk)
    → length line ≤ max
    → ReadsLine max (line ++ bytes_of chunks) (read_line_from max line chunks)
unfolding read_line_from
read_line_from-ReadsLine max line [] h = record { nothing_lost = refl; fits = h; whole = inl refl }
read_line_from-ReadsLine max line (chunk ∷ rest) h = elim (Bool-cases (ends_line line')) [
  | inl ends ↦ rw ends (record {
    nothing_lost = regroup ∙ ap (λ l. line' ++ l) (sym (bytes_of-unread left chunk rest));
    fits = bounded;
    whole = inr (inl ends);
  })
  | inr open_line ↦ elim (Bool-cases (length line' == max)) [
    | inl full ↦
        rw (open_line, full)
          (record {
            nothing_lost = regroup ∙ ap (λ l. line' ++ l) (sym (bytes_of-unread left chunk rest));
            fits = bounded;
            whole = inr (inr (ground arith));
          })
    | inr room ↦ elim (Bool-cases chunk.fails) [
      | inl fails ↦
          rw (open_line, room, fails)
            (record { nothing_lost = all_read (ground arith); fits = bounded; whole = inl refl })
      | inr goes_on ↦
          rw (open_line, room, goes_on)
            (subst (λ b. ReadsLine max b (read_line_from max line' rest))
              (sym (all_read (ground arith))) (read_line_from-ReadsLine max line' rest bounded))
    ]
  ]
]
  where
    taken : Bytes
    taken = take (max - length line) chunk.bytes

    left : Bytes
    left = drop (max - length line) chunk.bytes

    line' : Bytes
    line' = line ++ taken

    bounded : length line' ≤ max
    bounded =
        omega (arith, length-append line taken, length-take-le (max - length line) chunk.bytes)

    regroup : line ++ (chunk.bytes ++ bytes_of rest) ≡ line' ++ (left ++ bytes_of rest)
    regroup =
        ap (λ b. line ++ (b ++ bytes_of rest))
          (sym (take-append-drop (max - length line) chunk.bytes))
        ∙ ap (λ b. line ++ b) (append_assoc taken left (bytes_of rest))
        ∙ sym (append_assoc line taken (left ++ bytes_of rest))

    all_read : length line' ≢ max → line ++ (chunk.bytes ++ bytes_of rest) ≡ line' ++ bytes_of rest
    all_read ne =
        regroup
        ∙ ap (λ l. line' ++ (l ++ bytes_of rest))
            (drop-length_lt (max - length line) chunk.bytes (
              omega
                (arith, length-append line taken, length-take-le (max - length line) chunk.bytes)))

-- None of these reads ends a line that begins with `line`, fills the buffer, or fails.
abbrev pub GoesOn : ℕ → Bytes → List Chunk → Type 0
GoesOn max line [] = Unit
GoesOn max line (chunk ∷ rest) =
    (length (line ++ chunk.bytes) < max)
    × (ends_line (line ++ chunk.bytes) ≡ false)
    × (chunk.fails ≡ false)
    × GoesOn max (line ++ chunk.bytes) rest

-- The last read, with `line` before it: there is nothing more, or what came ends the line or fills
-- the buffer, or else it came with an error.
abbrev pub IsLast : ℕ → Bytes → List Chunk → LineRead → Type 0
IsLast max line [] r = (r.line ≡ line) × (r.failed ≡ true)
IsLast max line (chunk ∷ rest) r =
    (r.line ≡ line ++ take (max - length line) chunk.bytes)
    × (((r.failed ≡ false) × ((ends_line r.line ≡ true) ⊎ (length r.line ≡ max)))
        ⊎ ((r.failed ≡ true)
            × (chunk.fails ≡ true)
            × (ends_line r.line ≡ false)
            × (length r.line ≢ max)))

-- The read that ends the line is the first that can.
abbrev pub Stops : ℕ → Bytes → List Chunk → LineRead → Type 0
Stops max line chunks r =
    (before : List Chunk) × (after : List Chunk) × (chunks ≡ before ++ after)
    × GoesOn max line before
    × IsLast max (line ++ bytes_of before) after r

-- With room left, all of a chunk is taken.
take_all : (n : ℕ) (s : Bytes) → length (take n s) < n → take n s ≡ s
take_all n s h =
    sym (append-nil (take n s))
    ∙ ap (λ (d : Bytes). take n s ++ d) (sym (drop-length_lt n s h))
    ∙ take-append-drop n s

Stops-next :
    (max : ℕ) (line : Bytes) (chunk : Chunk) (rest : List Chunk) (r : LineRead)
    → length (line ++ chunk.bytes) < max
    → ends_line (line ++ chunk.bytes) ≡ false
    → chunk.fails ≡ false
    → Stops max (line ++ chunk.bytes) rest r
    → Stops max line (chunk ∷ rest) r
Stops-next max line chunk rest r room open_line fine (before, after, e, goes_on, last) = (
  chunk ∷ before,
  after,
  ap (λ l. chunk ∷ l) e,
  (room, open_line, fine, goes_on),
  subst (λ l. IsLast max l after r) (append_assoc line chunk.bytes (bytes_of before)) last,
)

Stops-here :
    (max : ℕ) (line : Bytes) (chunk : Chunk) (rest : List Chunk) (r : LineRead)
    → IsLast max line (chunk ∷ rest) r
    → Stops max line (chunk ∷ rest) r
Stops-here max line chunk rest r last = (
  [],
  chunk ∷ rest,
  refl,
  tt,
  subst (λ l. IsLast max l (chunk ∷ rest) r) (sym (append-nil line)) last,
)

reads_on :
    (max : ℕ) (line : Bytes) (chunk : Chunk) (rest : List Chunk)
    → let line' = line ++ take (max - length line) chunk.bytes in
      ends_line line' ≡ false
      → (length line' == max) ≡ false
      → chunk.fails ≡ false
      → read_line_from max line (chunk ∷ rest) ≡ read_line_from max line' rest
unfolding read_line_from
reads_on max line chunk rest open_line room fine = rw (open_line, room, fine) refl

read_line_from-Stops :
    (max : ℕ) (line : Bytes) (chunks : List Chunk)
    → length line ≤ max
    → Stops max line chunks (read_line_from max line chunks)
unfolding read_line_from
read_line_from-Stops max line [] h = ([], [], refl, tt, (sym (append-nil line), refl))
read_line_from-Stops max line (chunk ∷ rest) h =
    let taken = take (max - length line) chunk.bytes in
    let line' = line ++ taken in
    elim (Bool-cases (ends_line line')) [
      | inl ends ↦ Stops-here max line chunk rest _ (rw ends (refl, inl (refl, inl ends)))
      | inr open_line ↦ elim (Bool-cases (length line' == max)) [
        | inl full ↦
            Stops-here max line chunk rest _
              (rw (open_line, full) (refl, inl (refl, inr (ground (arith, full)))))
        | inr room ↦ elim (Bool-cases chunk.fails) [
          | inl fails ↦ Stops-here max line chunk rest _ (
              rw (open_line, room, fails) (refl, inr (refl, refl, open_line, ground (arith, room))))
          | inr fine ↦
              let ne : length line' ≢ max = ground (arith, room) in
              let fits : length taken < max - length line =
                omega (
                  arith,
                  length-append line taken,
                  length-take-le (max - length line) chunk.bytes,
                ) in
              let same = take_all (max - length line) chunk.bytes fits in
              let less : length line' < max =
                omega (
                  arith,
                  length-append line taken,
                  length-take-le (max - length line) chunk.bytes,
                ) in
              subst (λ r. Stops max line (chunk ∷ rest) r)
                (sym (reads_on max line chunk rest open_line room fine))
                (Stops-next max line chunk rest (read_line_from max line' rest)
                  (subst (λ (b : Bytes). length (line ++ b) < max) same less)
                  (subst (λ (b : Bytes). ends_line (line ++ b) ≡ false) same open_line) fine
                  (subst (λ (b : Bytes). Stops max (line ++ b) rest (read_line_from max line' rest))
                    same (read_line_from-Stops max line' rest (omega arith))))
        ]
      ]
    ]

-- Whatever comes in whatever pieces, `readLine` returns at the first read after which the line ends
-- in a line feed or the buffer is full, without an error, or which fails, with an error; where
-- neither comes, it has an error and all bytes. The buffer is not overrun, and what was not read is
-- still to be read.
pub read_line-ReadsLine :
    (max : ℕ) (chunks : List Chunk)
    → ReadsLine max (bytes_of chunks) (read_line max chunks)
      × Stops max [] chunks (read_line max chunks)
unfolding read_line
read_line-ReadsLine max chunks = (
  read_line_from-ReadsLine max [] chunks (omega arith),
  read_line_from-Stops max [] chunks (omega arith),
)
