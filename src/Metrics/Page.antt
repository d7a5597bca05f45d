-- ===== src/Metrics/Page.antt =====
-- `writePrometheusMetrics`: the page as its families of samples, and as text.
use rsync_proxy.Metrics.Samples.{
  Sample, by_name, queue_samples, upstream_samples, list_connection_info, conn_samples, duration,
  single, group_samples, module_samples,
}
use rsync_proxy.Base.{
  ℕ, List, [], ◌∷◌, ◌++◌, decimal, decimal_ℤ, Bytes, codes, sort_by, bytes_eq, pair_eq, nat_eq,
}
use rsync_proxy.Counters.{Counters, get_upstream_counters}
use rsync_proxy.Queue.{queued_len, get_max, get_max_queued}
use rsync_proxy.Server.{Server}
use rsync_proxy.Discovery.Fields.{text}

pub record Family : Type 0 where
  pub name : Bytes
  pub help : Bytes
  pub kind : Bytes
  pub samples : List Sample

-- What a scrape reads; `now` is in nanoseconds, and `format_seconds` is `%.3f` of the seconds of a
-- duration in nanoseconds.
pub record Scrape : Type 0 where
  pub server : Server
  pub counters : Counters
  pub now : ℕ
  pub format_seconds : ℕ → Bytes

abbrev gauge : Bytes
gauge = codes "gauge"

abbrev counter : Bytes
counter = codes "counter"

-- Of the queues and the upstreams.
unfoldable pub queue_families : Scrape → List Family
queue_families x =
    let ups = sort_by by_name x.server.upstreams in
    let c = x.counters in
    record {
      name = codes "rsync_proxy_queued_connections";
      help = codes "Current queued rsync proxy connections per upstream.";
      kind = gauge;
      samples = queue_samples (λ q. decimal (queued_len q)) x.server ups;
    }
    ∷ record {
      name = codes "rsync_proxy_queue_active_max";
      help = codes "Configured max active connections per upstream.";
      kind = gauge;
      samples = queue_samples (λ q. decimal_ℤ (get_max q)) x.server ups;
    }
    ∷ record {
      name = codes "rsync_proxy_queue_queued_max";
      help = codes "Configured max queued connections per upstream.";
      kind = gauge;
      samples = queue_samples (λ q. decimal_ℤ (get_max_queued q)) x.server ups;
    }
    ∷ record {
      name = codes "rsync_proxy_queue_full_rejected_total";
      help = codes "Total connections rejected due to queue full per upstream.";
      kind = counter;
      samples = upstream_samples (λ name. decimal (get_upstream_counters name c).queue_full) ups;
    }
    ∷ record {
      name = codes "rsync_proxy_upstream_dial_errors_total";
      help = codes "Total upstream dial failures per upstream.";
      kind = counter;
      samples = upstream_samples (λ name. decimal (get_upstream_counters name c).dial_error) ups;
    }
    ∷ []

-- Of the connections there are.
unfoldable pub connection_families : Scrape → List Family
connection_families x =
    let c = x.counters in
    let conns = list_connection_info x.counters in
    record {
      name = codes "rsync_proxy_unknown_module_requests_total";
      help = codes "Total requests for unknown modules.";
      kind = counter;
      samples = single c.unknown_module_count;
    }
    ∷ record {
      name = codes "rsync_proxy_active_connections";
      help = codes "Current active rsync proxy connections.";
      kind = gauge;
      samples = record { labels = []; value = decimal_ℤ c.active_conn_count } ∷ [];
    }
    ∷ record {
      name = codes "rsync_proxy_active_connections_by_module";
      help = codes "Current active rsync proxy connections by module and upstream.";
      kind = gauge;
      samples = group_samples conns;
    }
    ∷ record {
      name = codes "rsync_proxy_connection_sent_bytes";
      help = codes "Bytes sent to clients for active connections.";
      kind = gauge;
      samples = conn_samples (λ info. decimal info.sent_bytes) conns;
    }
    ∷ record {
      name = codes "rsync_proxy_connection_received_bytes";
      help = codes "Bytes received from clients for active connections.";
      kind = gauge;
      samples = conn_samples (λ info. decimal info.received_bytes) conns;
    }
    ∷ record {
      name = codes "rsync_proxy_connection_connected_timestamp_seconds";
      help = codes "Unix timestamp when active connections were established.";
      kind = gauge;
      samples = conn_samples (λ info. decimal info.connected_at) conns;
    }
    ∷ record {
      name = codes "rsync_proxy_connection_duration_seconds";
      help = codes "Current duration of active connections.";
      kind = gauge;
      samples = conn_samples (λ info. x.format_seconds (duration x.now info)) conns;
    }
    ∷ []

-- Of all since the start.
unfoldable pub total_families : Scrape → List Family
total_families x =
    let c = x.counters in
    record {
      name = codes "rsync_proxy_accepted_connections_total";
      help = codes "Total accepted connections since start.";
      kind = counter;
      samples = single c.accepted_conn_count;
    }
    ∷ record {
      name = codes "rsync_proxy_completed_connections_total";
      help = codes "Total completed connections since start.";
      kind = counter;
      samples = single c.completed_conn_count;
    }
    ∷ record {
      name = codes "rsync_proxy_sent_bytes_total";
      help = codes "Total bytes sent to clients since start.";
      kind = counter;
      samples = single c.sent_bytes_total;
    }
    ∷ record {
      name = codes "rsync_proxy_received_bytes_total";
      help = codes "Total bytes received from clients since start.";
      kind = counter;
      samples = single c.recv_bytes_total;
    }
    ∷ record {
      name = codes "rsync_proxy_module_completed_connections_total";
      help = codes "Total completed connections by module and upstream.";
      kind = counter;
      samples = module_samples (λ m. m.completed) c;
    }
    ∷ record {
      name = codes "rsync_proxy_module_sent_bytes_total";
      help = codes "Total bytes sent to clients by module and upstream.";
      kind = counter;
      samples = module_samples (λ m. m.sent_bytes) c;
    }
    ∷ record {
      name = codes "rsync_proxy_module_received_bytes_total";
      help = codes "Total bytes received from clients by module and upstream.";
      kind = counter;
      samples = module_samples (λ m. m.recv_bytes) c;
    }
    ∷ []

unfoldable pub families : Scrape → List Family
unfolding queue_families connection_families total_families
families x = queue_families x ++ (connection_families x ++ total_families x)

-- The lines of a family: help, type, and one for each sample.
abbrev sample_line : Bytes → Sample → Bytes
sample_line name s = name ++ (s.labels ++ (codes " " ++ s.value))

abbrev pub sample_lines : Bytes → List Sample → List Bytes
sample_lines name [] = []
sample_lines name (s ∷ rest) = sample_line name s ∷ sample_lines name rest

abbrev pub family_lines : Family → List Bytes
family_lines f =
    (codes "# HELP " ++ (f.name ++ (codes " " ++ f.help)))
    ∷ (codes "# TYPE " ++ (f.name ++ (codes " " ++ f.kind)))
    ∷ sample_lines f.name f.samples

abbrev pub page_lines : List Family → List Bytes
page_lines [] = []
page_lines (f ∷ fs) = family_lines f ++ page_lines fs

-- `writePrometheusMetrics`: what it writes.
unfoldable pub write_prometheus_metrics : Scrape → Bytes
unfolding families
write_prometheus_metrics x = text (page_lines (families x))
