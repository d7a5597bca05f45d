-- ===== src/Tests/HttpRuns.antt =====
-- Requests and commands at concrete states.
use rsync_proxy.Listeners.{Sockets, Net, Listening, listen, close_listeners, tcp_failed}
use rsync_proxy.Http.{Outside, decoded, serve}
use rsync_proxy.Http.Messages.{snapshot, Request, Body, empty, message, modules, status_of, text_of}
use rsync_proxy.Base.{
  ◌≡◌, refl, true, false, none, some, List, [], ◌∷◌, ◌++◌, map, arith, ltb, ◌==◌, if◌then◌else◌,
  decimal, Bytes, codes, bytes_beq, length, Distinct, sort_by, Ascends, sort_strings, bytes_eq,
  pair_eq, nat_eq, lookup, pos,
}
use mathlib.Core.List.{Perm}
use rsync_proxy.Client.Commands.{
  Json, Terminal, upstream_modules_command, send_connections_request, row_cells, header,
  table_failed,
}
use rsync_proxy.Client.Start.{IsFine, root_command, root_command-IsFine}
use rsync_proxy.Client.Daemon.{daemon, row, rows, upstream_modules-prints, connections-prints}
use rsync_proxy.Counters.{ConnInfo, Counters, no_counters}
use rsync_proxy.Counters.Totals.{Event, record_all}
use rsync_proxy.Discovery.{found, lines_from}
use rsync_proxy.Discovery.Fields.{text}
use rsync_proxy.Http.Answers.{DoneBy, Asked, serve-DoneBy}
use rsync_proxy.Listeners.Balance.{Balanced, listen-Balanced, listen_leaks}
use rsync_proxy.Metrics.Groups.{group_samples_lem, how_many, grown, labels_of}
use rsync_proxy.Metrics.Lines.{lines-write_prometheus_metrics}
use rsync_proxy.Metrics.Page.{Scrape, families, page_lines, write_prometheus_metrics}
use rsync_proxy.Metrics.Samples.{
  connection_counts, module_samples, group_samples, list_connection_info, infos,
}
use rsync_proxy.Relay.Effects.{count_module}
use rsync_proxy.Routing.{UpstreamConfig}
use rsync_proxy.Server.{Server}
use rsync_proxy.Tests.ServerRuns.{calm, with_limit, fresh}

abbrev pub outside : Outside
outside = record {
  hostname = none;
  config_file = decoded (with_limit (pos 3));
  world = calm;
  discover = λ u. found (codes "bar" ∷ []);
  describe = λ e. codes "timeout";
  now = 1_700_000_060_000_000_000;
  format_seconds = λ d. codes "60.000";
  runtime_metrics = record { status_code = 200; body = text_of [] };
}

abbrev pub reload_request : Request
reload_request = record { method = codes "POST"; path = codes "/reload"; query = [] }

serve-DoneBy_example :
    DoneBy outside reload_request fresh (serve outside no_counters fresh reload_request)
serve-DoneBy_example = serve-DoneBy outside no_counters fresh reload_request

abbrev asked : List Asked
asked =
    record {
      outside = record outside {
        config_file = decoded (record (with_limit (pos 1)) { upstreams = [] });
      };
      counters = no_counters;
      request = reload_request;
    }
    ∷ record { outside = outside; counters = no_counters; request = reload_request }
    ∷ []

-- A list of names as lines, which is enough for names without line feeds.
abbrev wire : Body → Bytes
wire (modules names) = text names
wire (message s) = s
wire (text_of s) = s
wire (status_of n conns) = decimal n
wire empty = []

abbrev information : ConnInfo
information = record {
  index = 4;
  local_addr = codes "10.0.0.9:873";
  remote_addr = codes "203.0.113.7:50000";
  connected_at = 1_700_000_000;
  module_name = codes "foo";
  upstream = codes "u";
  sent_bytes = 10;
  received_bytes = 20;
}

abbrev one_connection : Counters
one_connection = record no_counters { conn_info = (4, information) ∷ [] }

abbrev pub json : Json
json = record {
  wire = wire;
  decode_modules = λ s. some (lines_from [] s);
  decode_status = λ s. some (1, row (snapshot information) ∷ []);
}

abbrev upstream : UpstreamConfig
upstream = record {
  name = codes "u";
  target = record { upstream = codes "u"; addr = codes "10.0.0.1:873"; use_proxy_protocol = false };
  modules = codes "foo" ∷ codes "bar" ∷ [];
  discover_modules = false;
  max_active_conns = pos 0;
  max_queued_conns = pos 0;
}

abbrev pub with_upstream : Server
with_upstream = record fresh { upstreams = upstream ∷ [] }

upstream_modules-prints_example :
    upstream_modules_command
      (λ s. none)
      (λ u. found [])
      json
      (daemon outside no_counters with_upstream)
      (codes "u")
      false
      false
    ≡ record {
      stdout = text (sort_strings (sort_strings upstream.modules));
      stderr = [];
      error = none;
    }
unfolding lines_from sort_strings
upstream_modules-prints_example =
    upstream_modules-prints outside no_counters with_upstream json (λ s. none) (λ u. found [])
      (codes "u") false false upstream (sort_strings upstream.modules) (λ e. cc) refl refl refl refl

-- A table as its cells.
abbrev cells : List (List Bytes) → Bytes
cells [] = []
cells (r ∷ rs) = text r ++ cells rs

abbrev pub terminal : Terminal
terminal = record {
  render = λ head body. (cells body, false);
  date_time = decimal;
  coloured = λ s. [];
}

connections-prints_example :
    let conns = list_connection_info one_connection in
    (send_connections_request json terminal (daemon outside one_connection fresh) ≡ (
      if length conns == 0
      then record { stdout = codes "No active connections\n"; stderr = []; error = none }
      else record {
        stdout = (terminal.render header (map (row_cells terminal) (rows one_connection))).0;
        stderr = [];
        error =
            if (terminal.render header (map (row_cells terminal) (rows one_connection))).1
            then some table_failed
            else none;
      }))
    × Perm conns (infos one_connection.conn_info)
    × Ascends (λ a b. ltb a.index b.index) conns
unfolding list_connection_info sort_by
connections-prints_example = connections-prints outside one_connection fresh json terminal refl

abbrev scrape : Scrape
scrape = record {
  server = with_upstream;
  counters = one_connection;
  now = 1_700_000_060_000_000_000;
  format_seconds = λ d. codes "60.000";
}

lines-write_prometheus_metrics_example :
    lines_from [] (write_prometheus_metrics scrape) ≡ page_lines (families scrape)
lines-write_prometheus_metrics_example =
    lines-write_prometheus_metrics scrape (λ d. (refl, (refl, (refl, (refl, (refl, (refl, tt)))))))

abbrev two_transfers : List Event
two_transfers =
    (information, count_module (codes "foo") (codes "u") 10 20)
    ∷ (information, count_module (codes "foo") (codes "v\"") 1 2)
    ∷ []

group_samples_lem_example :
    Distinct (labels_of (module_samples (λ m. m.completed) (record_all two_transfers no_counters)))
    × Distinct (labels_of (group_samples (information ∷ information ∷ [])))
    × (lookup (codes "foo", codes "u") (connection_counts (information ∷ information ∷ []) [])
        ≡ grown (how_many (codes "foo", codes "u") (information ∷ information ∷ [])) none)
group_samples_lem_example =
    group_samples_lem (λ m. m.completed) two_transfers (information ∷ information ∷ [])
      (codes "foo", codes "u")

abbrev idle : Listening
idle = record {
  server = record fresh { listen_addr = codes "/run/p.sock"; http_listen_addr = codes ":9528" };
  tcp = none;
  tls = none;
  http = none;
  sockets = record { opened = 0 ∷ []; next = 3; removed = [] };
}

-- The address of the second listener is taken.
abbrev busy_net : Net
busy_net = record {
  listens = λ k addr. bytes_beq addr (codes "/run/p.sock");
  chmods = λ addr. true;
  addr_of = λ addr. addr;
}

listen-Balanced_example :
    Balanced (0 ∷ []) (listen busy_net idle)
    × (((k : Sockets) (addr : Bytes) → busy_net.listens k addr ≡ true)
        → (listen busy_net idle).1 ≡ none)
listen-Balanced_example = listen-Balanced busy_net idle (λ addr. refl) (omega arith, tt)

abbrev strict_net : Net
strict_net = record { listens = λ k addr. true; chmods = λ addr. false; addr_of = λ addr. addr }

listen_leaks_example :
    ((listen strict_net idle).1 ≡ some tcp_failed)
    × ((close_listeners (listen strict_net idle).0).sockets.opened ≡ 3 ∷ 0 ∷ [])
listen_leaks_example = listen_leaks strict_net idle (omega arith, tt) refl refl refl refl refl refl

root_command-IsFine_example :
    IsFine idle (root_command false (decoded (with_limit (pos 1))) calm busy_net idle)
root_command-IsFine_example =
    root_command-IsFine (decoded (with_limit (pos 1))) calm busy_net idle (λ addr. refl)
      (omega arith, tt)
