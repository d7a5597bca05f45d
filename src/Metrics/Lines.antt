-- ===== src/Metrics/Lines.antt =====
-- The page as a client reads it, line by line.
use rsync_proxy.Metrics.Texts.{
  is_line_lem, append-IsLine, after_literal, decimal-IsLine, decimal_ℤ-IsLine, SampleIsLine,
  FamilyIsLines, queue_samples-IsLine, upstream_samples-IsLine, key_samples-IsLine,
  conn_samples-IsLine, single-IsLine,
}
use rsync_proxy.Base.{
  ℕ, ◌≡◌, refl, sym, ap, ◌∙◌, List, [], ◌∷◌, ◌++◌, append-nil, arith, decimal, decimal_ℤ, Bytes,
  codes, All, All-append, ℤ, sort_by, bytes_eq, pair_eq, nat_eq,
}
use rsync_proxy.Counters.{ConnInfo, ModuleCounters, get_upstream_counters}
use rsync_proxy.Discovery.{lines_from}
use rsync_proxy.Discovery.Fields.{IsLine, text, lines_from-text}
use rsync_proxy.Metrics.Page.{
  Family, Scrape, queue_families, connection_families, total_families, families, family_lines,
  sample_lines, page_lines, write_prometheus_metrics,
}
use rsync_proxy.Metrics.Samples.{
  Sample, queue_samples, upstream_samples, key_samples, conn_samples, by_name, group_samples,
  module_samples, list_connection_info, duration, connection_counts, by_key,
}
use rsync_proxy.Queue.{Queue, queued_len, get_max, get_max_queued}

queue_families-IsLines : (x : Scrape) → All FamilyIsLines (queue_families x)
unfolding queue_families
queue_families-IsLines x =
    let ups = sort_by by_name x.server.upstreams in
    let natural : (f : Queue → ℕ)
        → All SampleIsLine (queue_samples (λ q. decimal (f q)) x.server ups) =
      λ f. queue_samples-IsLine (λ q. decimal (f q)) x.server ups (λ q. decimal-IsLine (f q)) in
    let whole : (f : Queue → ℤ)
        → All SampleIsLine (queue_samples (λ q. decimal_ℤ (f q)) x.server ups) =
      λ f. queue_samples-IsLine (λ q. decimal_ℤ (f q)) x.server ups (λ q. decimal_ℤ-IsLine (f q)) in
    let named : (f : Bytes → ℕ)
        → All SampleIsLine (upstream_samples (λ name. decimal (f name)) ups) =
      λ f.
        upstream_samples-IsLine (λ name. decimal (f name)) ups (λ name. decimal-IsLine (f name)) in
    (
      (refl, (natural queued_len)),
      (
        (refl, (whole get_max)),
        (
          (refl, (whole get_max_queued)),
          (
            (refl, (named (λ name. (get_upstream_counters name x.counters).queue_full))),
            ((refl, named (λ name. (get_upstream_counters name x.counters).dial_error)), tt),
          ),
        ),
      ),
    )

connection_families-IsLines :
    (x : Scrape)
    → ((d : ℕ) → IsLine (x.format_seconds d))
    → All FamilyIsLines (connection_families x)
unfolding connection_families group_samples
connection_families-IsLines x seconds =
    let conns = list_connection_info x.counters in
    let each : (f : ConnInfo → ℕ)
        → All SampleIsLine (conn_samples (λ info. decimal (f info)) conns) =
      λ f. conn_samples-IsLine (λ info. decimal (f info)) conns (λ info. decimal-IsLine (f info)) in
    (
      (refl, single-IsLine x.counters.unknown_module_count),
      (
        (refl, ((tt, decimal_ℤ-IsLine x.counters.active_conn_count), tt)),
        (
          (refl, key_samples-IsLine (λ n. n) (sort_by by_key (connection_counts conns []))),
          (
            (refl, each (λ info. info.sent_bytes)),
            (
              (refl, each (λ info. info.received_bytes)),
              (
                (refl, each (λ info. info.connected_at)),
                ((refl, conn_samples-IsLine _ conns (λ info. seconds (duration x.now info))), tt),
              ),
            ),
          ),
        ),
      ),
    )

total_families-IsLines : (x : Scrape) → All FamilyIsLines (total_families x)
unfolding total_families module_samples
total_families-IsLines x =
    let c = x.counters in
    let each : (f : ModuleCounters → ℕ)
        → All SampleIsLine (key_samples f (sort_by by_key c.module_counters)) =
      λ f. key_samples-IsLine f (sort_by by_key c.module_counters) in
    (
      (refl, single-IsLine c.accepted_conn_count),
      (
        (refl, single-IsLine c.completed_conn_count),
        (
          (refl, single-IsLine c.sent_bytes_total),
          (
            (refl, single-IsLine c.recv_bytes_total),
            (
              (refl, each (λ m. m.completed)),
              ((refl, each (λ m. m.sent_bytes)), ((refl, each (λ m. m.recv_bytes)), tt)),
            ),
          ),
        ),
      ),
    )

sample_lines-IsLine :
    (name : Bytes) (samples : List Sample)
    → IsLine name
    → All SampleIsLine samples
    → All IsLine (sample_lines name samples)
sample_lines-IsLine name [] h k = tt
sample_lines-IsLine name (s ∷ rest) h k = (
  append-IsLine name _ h
      (append-IsLine s.labels _ k.0.0 (after_literal (codes " ") s.value refl k.0.1)),
  sample_lines-IsLine name rest h k.1,
)

family_lines-IsLine : (f : Family) → FamilyIsLines f → All IsLine (family_lines f)
family_lines-IsLine f (test, samples) =
    let name : IsLine f.name = is_line_lem f.name (ground arith) in
    let help : IsLine f.help = is_line_lem f.help (ground arith) in
    let kind : IsLine f.kind = is_line_lem f.kind (ground arith) in
    (
      after_literal (codes "# HELP ") _ refl
          (append-IsLine f.name _ name (after_literal (codes " ") f.help refl help)),
      (
        after_literal (codes "# TYPE ") _ refl
            (append-IsLine f.name _ name (after_literal (codes " ") f.kind refl kind)),
        sample_lines-IsLine f.name f.samples name samples,
      ),
    )

page_lines-IsLine : (fs : List Family) → All FamilyIsLines fs → All IsLine (page_lines fs)
page_lines-IsLine [] h = tt
page_lines-IsLine (f ∷ fs) (h, hs) =
    All-append IsLine (family_lines f) (page_lines fs) (family_lines-IsLine f h)
      (page_lines-IsLine fs hs)

families-IsLines :
    (x : Scrape) → ((d : ℕ) → IsLine (x.format_seconds d)) → All FamilyIsLines (families x)
unfolding families
families-IsLines x seconds =
    All-append FamilyIsLines (queue_families x) (connection_families x ++ total_families x)
      (queue_families-IsLines x)
      (All-append FamilyIsLines (connection_families x) (total_families x)
        (connection_families-IsLines x seconds) (total_families-IsLines x))

-- Who splits the page at its line feeds gets the help and type of each family and one line for each
-- of its samples, in their order, whatever bytes the names of modules and upstreams hold, if the
-- text of a duration has no line feed.
pub lines-write_prometheus_metrics :
    (x : Scrape)
    → ((d : ℕ) → IsLine (x.format_seconds d))
    → lines_from [] (write_prometheus_metrics x) ≡ page_lines (families x)
unfolding write_prometheus_metrics lines_from
lines-write_prometheus_metrics x seconds =
    ap (lines_from []) (sym (append-nil (text (page_lines (families x)))))
    ∙ lines_from-text (page_lines (families x)) []
        (page_lines-IsLine (families x) (families-IsLines x seconds))
    ∙ append-nil (page_lines (families x))
