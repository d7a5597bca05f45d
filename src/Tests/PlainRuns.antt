-- ===== src/Tests/PlainRuns.antt =====
-- Runs of the parts of the server and of the client that keep no state.
use rsync_proxy.Logging.{
  new_file_logger, in_file, thrown_away, LogPackage, f, FileLogger, Disk, set_file, to_file,
}
use rsync_proxy.Logging.Output.{
  new_file_logger-IsMade, IsMade, set_file-IsSteady, IsSwitched, IsSteady,
}
use rsync_proxy.Base.{
  ◌≡◌, refl, true, false, none, some, List, [], ◌∷◌, ◌++◌, if◌then◌else◌, Bytes, codes, bytes_beq,
  bytes_eq, pair_eq, nat_eq, lookup, pos,
}
use rsync_proxy.Routing.{UpstreamConfig, build_module_targets}
use rsync_proxy.Client.Size.{format_size_colored, text_of, shown, text_of-format_size_colored}
use rsync_proxy.Metrics.Labels.{prometheus_escape_label_value, read_value, read_value-escape}
use rsync_proxy.Routing.Targets.{lookup-build_module_targets, if_any, targets_of}
use rsync_proxy.Wire.{read_line, Chunk}
use rsync_proxy.Wire.Lines.{read_line-ReadsLine, ReadsLine, Stops, bytes_of}

text_of-format_size_colored_example : text_of (format_size_colored 2_000_500) ≡ shown 2_000_500
text_of-format_size_colored_example = text_of-format_size_colored 2_000_500

read_value-escape_example :
    read_value false (prometheus_escape_label_value (codes "a\"\\b") ++ b'"' ∷ codes ",x")
    ≡ some (codes "a\"\\b", codes ",x")
read_value-escape_example = read_value-escape (codes "a\"\\b") (codes ",x")

abbrev mirror : Bytes → List Bytes → UpstreamConfig
mirror name modules = record {
  name = name;
  target = record { upstream = name; addr = codes "10.0.0.1:873"; use_proxy_protocol = false };
  modules = modules;
  discover_modules = false;
  max_active_conns = pos 2;
  max_queued_conns = pos 0;
}

abbrev mirrors : List UpstreamConfig
mirrors =
    mirror (codes "a") (codes "foo" ∷ codes "bar" ∷ []) ∷ mirror (codes "b") (codes "foo" ∷ []) ∷ []

lookup-build_module_targets_example :
    lookup (codes "foo") (build_module_targets mirrors) ≡ if_any (targets_of (codes "foo") mirrors)
lookup-build_module_targets_example = lookup-build_module_targets (codes "foo") mirrors

abbrev pieces : List Chunk
pieces =
    record { bytes = codes "@RSYNCD: "; fails = false }
    ∷ record { bytes = codes "31.0\n"; fails = false }
    ∷ []

read_line-ReadsLine_example :
    ReadsLine 256 (bytes_of pieces) (read_line 256 pieces)
    × Stops 256 [] pieces (read_line 256 pieces)
read_line-ReadsLine_example = read_line-ReadsLine 256 pieces

-- A disk on which only `/var/log/a` can be opened.
abbrev one_file : Disk
one_file = record {
  mkdir_all = λ name. true;
  open_append = λ name. if bytes_beq name (codes "/var/log/a") then some 7 else none;
}

abbrev logger : FileLogger
logger = record {
  filename = codes "/var/log/b";
  flags = 0;
  file = some 3;
  sink = to_file 3;
  closed = [];
}

-- A line is the message, and the files take it.
abbrev plain_log : LogPackage
plain_log = record { line = λ flags message. message ++ codes "\n"; writes = λ h line. true }

set_file-IsSteady_example :
    let (m, err) = set_file one_file (codes "/var/log/a") logger in
    IsSteady m
    × (m.filename ≡ codes "/var/log/a")
    × (f plain_log m (codes "hello") ≡ (elim m.file [
      | none ↦ thrown_away
      | some h ↦ in_file h (plain_log.line m.flags (codes "hello"))
    ]))
    × IsSwitched one_file (codes "/var/log/a") logger m err
set_file-IsSteady_example =
    set_file-IsSteady one_file (codes "/var/log/a") logger plain_log (codes "hello") refl
      (λ h line. refl)

new_file_logger-IsMade_example :
    let (l, err) = new_file_logger one_file (codes "/nowhere") in
    (err ≡ none) × IsMade one_file (codes "/nowhere") l
new_file_logger-IsMade_example = new_file_logger-IsMade one_file (codes "/nowhere")
