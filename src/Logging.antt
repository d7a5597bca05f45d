-- ===== src/Logging.antt =====
-- pkg/logging/file.go and log.go: a logger that writes to a file which can be replaced. The file system is a
-- parameter of each call: what `os.MkdirAll` and `os.OpenFile` answer then. `mu` is held by each
-- method from its start to its end.
pub mod Output
use rsync_proxy.Base.{
  ℕ, ◌+◌, ◌-◌, ◌*◌, ◌/◌, ap, Bool, Option, none, some, List, [], ◌∷◌, if◌then◌else◌, Bytes,
  bytes_beq, All, take,
}

pub data Sink : Type 0 where
  discard : Sink
  to_file : ℕ → Sink

-- `FileLogger`: `file` is `f`, `sink` is the output of `l`. The names of the files that were closed
-- are kept beside it. `flags`
-- are those of `l`.
pub record FileLogger : Type 0 where
  pub filename : Bytes
  pub flags : ℕ
  pub file : Option ℕ
  pub sink : Sink
  pub closed : List ℕ

-- `log.Ldate`, `log.Ltime` and `log.Lshortfile`
abbrev l_date : ℕ
l_date = 1

abbrev l_time : ℕ
l_time = 2

abbrev l_shortfile : ℕ
l_shortfile = 16

pub record Disk : Type 0 where
  pub mkdir_all : Bytes → Bool
  pub open_append : Bytes → Option ℕ

pub data LogError : Type 0 where
  mkdir_failed open_failed : LogError

-- `if l.f != nil { l.f.Close() }`
abbrev pub close_file : FileLogger → List ℕ
close_file l = elim l.file [ none ↦ l.closed | some h ↦ h ∷ l.closed ]

-- `reopen`; its error is `nil` where the second part is `none`.
unfoldable reopen_locked : Disk → FileLogger → FileLogger × Option LogError
reopen_locked disk l =
    if bytes_beq l.filename []
    then (record l { file = none; sink = discard; closed = close_file l }, none)
    else if disk.mkdir_all l.filename
    then (elim (disk.open_append l.filename) [
      | none ↦ (l, some open_failed)
      | some h ↦ (record l { file = some h; sink = to_file h; closed = close_file l }, none)
    ])
    else (l, some mkdir_failed)

-- `Reopen`
unfoldable reopen : Disk → FileLogger → FileLogger × Option LogError
unfolding reopen_locked
reopen disk l = reopen_locked disk l

-- `SetFile`
unfoldable pub set_file : Disk → Bytes → FileLogger → FileLogger × Option LogError
unfolding reopen_locked
set_file disk filename l = reopen_locked disk (record l { filename = filename })

-- `Close`
unfoldable pub close : FileLogger → FileLogger
close l = record l { file = none; closed = close_file l }

-- `NewFileLogger`: the `err` of the inner `if` hides the result of that name, so the error returned
-- is `nil` also where the logger is.
unfoldable pub new_file_logger : Disk → Bytes → Option FileLogger × Option LogError
unfolding reopen_locked
new_file_logger disk filename =
    let l : FileLogger = record {
      filename = filename;
      flags = l_date + l_time + l_shortfile;
      file = none;
      sink = discard;
      closed = [];
    } in
    if bytes_beq filename []
    then (some l, none)
    else (let (opened, err) = reopen_locked disk l in
        (elim err [ none ↦ some opened | some e ↦ none ], none))

-- `SetFlags`
unfoldable set_flags : ℕ → FileLogger → FileLogger
set_flags flag l = record l { flags = flag }

-- Package log: the line of a message, with the prefix that some flags ask for, and whether a file
-- takes it.
pub record LogPackage : Type 0 where
  pub line : ℕ → Bytes → Bytes
  pub writes : ℕ → Bytes → Bool

-- What becomes of a message: it is thrown away, a line of a file, or a message of the standard logger
-- that the output failed.
pub data Logged : Type 0 where
  thrown_away : Logged
  in_file : ℕ → Bytes → Logged
  output_failed : Logged

abbrev output_to : LogPackage → ℕ → Bytes → Sink → Logged
output_to p flags message discard = thrown_away
output_to p flags message (to_file h) =
    if p.writes h (p.line flags message) then in_file h (p.line flags message) else output_failed

-- `F` and `Ln`, of a message that is formatted.
unfoldable pub f : LogPackage → FileLogger → Bytes → Logged
f p l message = output_to p l.flags message l.sink

unfoldable ln : LogPackage → FileLogger → Bytes → Logged
ln p l message = output_to p l.flags message l.sink

-- The `init` of log.go, for the flags of the standard logger: without date and time if the variable
-- JOURNAL_STREAM is set.
unfoldable init_flags : Bool → ℕ → ℕ
init_flags journal flags = if journal then flags / 4 * 4 else flags
