-- ===== src/Logging/Output.antt =====
-- Where the lines of a logger go.
use rsync_proxy.Base.{
  ℕ, ◌+◌, ◌≡◌, refl, sym, subst, ◌≢◌, ◌⊎◌, inl, inr, true, false, Option, none, some, [], arith,
  Bool-cases, Option-cases, Bytes, bytes_beq, bytes_beq_iff,
}
use rsync_proxy.Logging.{
  l_shortfile, l_time, l_date, new_file_logger, LogError, mkdir_failed, open_failed, FileLogger,
  Disk, discard, to_file, set_file, close_file, LogPackage, f, thrown_away, in_file,
}

-- Lines go to the open file, and nowhere if there is none.
abbrev pub IsSteady : FileLogger → Type 0
IsSteady l = (l.sink ≡ (elim l.file [ none ↦ discard | some h ↦ to_file h ]))

-- After `SetFile(filename)` the logger `m` has the file of that name open, or none for the empty
-- name, and the old file is closed; or there is an error, and the old file is as it was.
abbrev pub IsSwitched : Disk → Bytes → FileLogger → FileLogger → Option LogError → Type 0
IsSwitched disk filename l m err =
    ((err ≡ none)
      × (m.closed ≡ close_file l)
      × (((filename ≡ []) × (m.file ≡ none))
          ⊎ ((h : ℕ) × (disk.open_append filename ≡ some h) × (m.file ≡ some h))))
    ⊎ ((err ≢ none)
        × ((disk.mkdir_all filename ≡ false) ⊎ (disk.open_append filename ≡ none))
        × (m.file ≡ l.file)
        × (m.sink ≡ l.sink)
        × (m.closed ≡ l.closed))

no_error : (e : LogError) → some e ≢ none
no_error e x = absurd (cc)

set_file-keeps :
    (disk : Disk) (filename : Bytes) (l : FileLogger)
    → IsSteady l
    → let (m, err) = set_file disk filename l in
      IsSteady m × (m.filename ≡ filename) × IsSwitched disk filename l m err
unfolding set_file
set_file-keeps disk filename l h = elim (Bool-cases (bytes_beq filename [])) [
  | inl empty ↦
      rw empty (refl, refl, inl (refl, refl, inl ((bytes_beq_iff filename []).0 empty, refl)))
  | inr named ↦ elim (Bool-cases (disk.mkdir_all filename)) [
    | inr no_dir ↦
        rw (named, no_dir) (h, refl, inr (no_error mkdir_failed, inl refl, refl, refl, refl))
    | inl dir ↦ elim (Option-cases (disk.open_append filename)) [
      | inl no_file ↦
          rw (named, dir, no_file) (h, refl, inr (no_error open_failed, inr refl, refl, refl, refl))
      | inr (k, opened) ↦
          rw (named, dir, opened) (refl, refl, inl (refl, refl, inr (k, refl, refl)))
    ]
  ]
]

f-writes :
    (p : LogPackage) (m : FileLogger) (message : Bytes)
    → IsSteady m
    → ((h : ℕ) (line : Bytes) → p.writes h line ≡ true)
    → f p m message
      ≡ (elim m.file [ none ↦ thrown_away | some h ↦ in_file h (p.line m.flags message) ])
unfolding f
f-writes p m message steady takes = rw steady (elim (Option-cases m.file) [
  | inl e ↦ rw e refl
  | inr (h, e) ↦ rw e (rw (takes h (p.line m.flags message)) refl)
])

-- `SetFile` of a logger whose lines go to its open file either takes the file of the new name, or
-- none where that is empty, and closes the old one, or fails, where the directory cannot be made or
-- the file not opened, with the old file, which stays open; in both cases lines go to the open file,
-- and a message, if a file takes what is written to it, becomes a line of that file, or is thrown
-- away where there is none.
pub set_file-IsSteady :
    (disk : Disk) (filename : Bytes) (l : FileLogger) (p : LogPackage) (message : Bytes)
    → IsSteady l
    → ((h : ℕ) (line : Bytes) → p.writes h line ≡ true)
    → let (m, err) = set_file disk filename l in
      IsSteady m
      × (m.filename ≡ filename)
      × (f p m message
          ≡ (elim m.file [ none ↦ thrown_away | some h ↦ in_file h (p.line m.flags message) ]))
      × IsSwitched disk filename l m err
set_file-IsSteady disk filename l p message h takes =
    let (m, err) = set_file disk filename l in
    let (steady, name, same) = set_file-keeps disk filename l h in
    (steady, name, f-writes p m message steady takes, same)

-- What `NewFileLogger(filename)` gives: no logger, where the file cannot be had, or one whose lines go
-- to its open file.
abbrev pub IsMade : Disk → Bytes → Option FileLogger → Type 0
IsMade disk filename none =
    (filename ≢ []) × ((disk.mkdir_all filename ≡ false) ⊎ (disk.open_append filename ≡ none))
IsMade disk filename (some m) =
    IsSteady m
    × (m.filename ≡ filename)
    × (((filename ≡ []) × (m.file ≡ none))
        ⊎ ((h : ℕ) × (disk.mkdir_all filename ≡ true)
            × (disk.open_append filename ≡ some h)
            × (m.file ≡ some h)))

-- The logger before its file is opened.
abbrev unopened : Bytes → FileLogger
unopened filename = record {
  filename = filename;
  flags = l_date + l_time + l_shortfile;
  file = none;
  sink = discard;
  closed = [];
}

no_name :
    (disk : Disk) (filename : Bytes)
    → bytes_beq filename [] ≡ true
    → new_file_logger disk filename ≡ (some (unopened filename), none)
unfolding new_file_logger
no_name disk filename empty = ground arith

no_directory :
    (disk : Disk) (filename : Bytes)
    → bytes_beq filename [] ≡ false
    → disk.mkdir_all filename ≡ false
    → new_file_logger disk filename ≡ (none, none)
unfolding new_file_logger
no_directory disk filename named no_dir = ground arith

not_opened :
    (disk : Disk) (filename : Bytes)
    → bytes_beq filename [] ≡ false
    → disk.open_append filename ≡ none
    → new_file_logger disk filename ≡ (none, none)
unfolding new_file_logger
not_opened disk filename named no_file = ground arith

opened_logger :
    (disk : Disk) (filename : Bytes) (h : ℕ)
    → bytes_beq filename [] ≡ false
    → disk.mkdir_all filename ≡ true
    → disk.open_append filename ≡ some h
    → new_file_logger disk filename
      ≡ (some (record (unopened filename) { file = some h; sink = to_file h }), none)
unfolding new_file_logger
opened_logger disk filename h named dir opened = ground arith

-- `NewFileLogger` never gives an error. It gives a logger, which writes to the open file of its name,
-- or to none where the name is empty, if the directory can be made and the file opened or the name is
-- empty, and otherwise neither a logger nor an error.
pub new_file_logger-IsMade :
    (disk : Disk) (filename : Bytes)
    → let (l, err) = new_file_logger disk filename in (err ≡ none) × IsMade disk filename l
new_file_logger-IsMade disk filename = elim (Bool-cases (bytes_beq filename [])) [
  | inl empty ↦
      subst (λ (v : Option FileLogger × Option LogError). (v.1 ≡ none) × IsMade disk filename v.0)
        (sym (no_name disk filename empty))
        (refl, (refl, refl, inl ((bytes_beq_iff filename []).0 empty, refl)))
  | inr named ↦
      let some_name : filename ≢ [] = ground (arith, named, bytes_beq_iff filename []) in
      let goal : Option FileLogger × Option LogError → Type 0 =
        λ v. (v.1 ≡ none) × IsMade disk filename v.0 in
      elim (Bool-cases (disk.mkdir_all filename)) [
        | inr no_dir ↦
            subst goal (sym (no_directory disk filename named no_dir))
              (refl, (some_name, inl no_dir))
        | inl dir ↦ elim (Option-cases (disk.open_append filename)) [
          | inl no_file ↦
              subst goal (sym (not_opened disk filename named no_file))
                (refl, (some_name, inr no_file))
          | inr (h, opened) ↦
              subst goal (sym (opened_logger disk filename h named dir opened))
                (refl, (refl, refl, inr (h, dir, opened, refl)))
        ]
      ]
]
