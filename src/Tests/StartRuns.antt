-- ===== src/Tests/StartRuns.antt =====
-- A server that is started with TLS, and then asked for a reload.
use rsync_proxy.Base.{
  ℕ, ◌≤◌, ◌<◌, ◌≡◌, refl, ◌⊎◌, true, false, none, some, List, [], ◌∷◌, codes, sort_strings,
  bytes_eq, pair_eq, nat_eq, lookup, pos,
}
use rsync_proxy.Client.Reloading.{after_seconds, reload_tells}
use rsync_proxy.Client.Commands.{http_post}
use rsync_proxy.Client.Daemon.{daemon}
use rsync_proxy.Client.Program.{Surroundings, default_flags, Exit, main, Command}
use rsync_proxy.Client.Running.{running-IsReady}
use rsync_proxy.Client.Start.{Started, runs, root_command}
use rsync_proxy.Counters.{no_counters}
use rsync_proxy.Http.{decoded, serve, read_config_from_file}
use rsync_proxy.Http.Answers.{Asked, IsLoaded, serve_all}
use rsync_proxy.Listeners.{Net, Listening, listen, listen_tls, listen_http, listen_tcp_or_unix}
use rsync_proxy.Logging.{set_file}
use rsync_proxy.Discovery.{found}
use rsync_proxy.Server.Load.{served}
use rsync_proxy.Server.Queues.{HasQueues}
use rsync_proxy.Server.{
  World, check_tls, collect_upstreams, discover_configured_modules, open_logs, install, load_config,
}
use rsync_proxy.Server.Settings.{Config}
use rsync_proxy.Server.Certificate.{get_tls_certificate}
use rsync_proxy.Tests.HttpRuns.{outside, reload_request, json, terminal}
use rsync_proxy.Tests.ServerRuns.{calm, fresh, with_limit}

abbrev certified_world : World
certified_world = record calm { load_x509_key_pair = λ cert key. some 7 }

abbrev tls_config : Config
tls_config = record (with_limit (pos 1)) {
  proxy = record (with_limit (pos 1)).proxy {
    listen_tls = codes ":874";
    tls_cert_file = codes "cert.pem";
    tls_key_file = codes "key.pem";
  };
}

abbrev open_net : Net
open_net = record { listens = λ k addr. true; chmods = λ addr. true; addr_of = λ addr. addr }

abbrev stopped : Listening
stopped = record {
  server = fresh;
  tcp = none;
  tls = none;
  http = none;
  sockets = record { opened = []; next = 0; removed = [] };
}

-- A reload to a configuration without TLS, which is refused.
abbrev asked : List Asked
asked = record { outside = outside; counters = no_counters; request = reload_request } ∷ []

abbrev running : Started → Listening
running (runs y) = y
running s = stopped

abbrev started : Started
started = root_command false (decoded tls_config) certified_world open_net stopped

does_run : started ≡ runs (running started)
unfolding root_command read_config_from_file load_config check_tls collect_upstreams lookup
    sort_strings discover_configured_modules open_logs set_file install listen listen_tls
    listen_http listen_tcp_or_unix
does_run = refl

running-IsReady_example :
    let s = serve_all asked (running started).server in
    HasQueues s × ((s.tls_listener ≡ false) ⊎ ((cert : ℕ) × (get_tls_certificate s ≡ some cert)))
running-IsReady_example =
    running-IsReady (decoded tls_config) certified_world open_net stopped (running started) asked
      refl does_run

-- A program whose socket is that of a daemon that answers after two seconds.
abbrev at_home : Surroundings
at_home = record {
  build = record {
    git_commit = [];
    build_date = [];
    version = codes "0.0.0";
    go_version = [];
    compiler = [];
    goos = codes "linux";
    goarch = codes "amd64";
  };
  encode = λ pretty info. some info.version;
  dial = λ network addr. after_seconds 2 (daemon outside no_counters fresh);
  json = json;
  terminal = terminal;
  parse_url = λ s. none;
  discover = λ u. found [];
  config_file = λ path. decoded tls_config;
  world = certified_world;
  net = open_net;
  run = λ x. none;
  describe = λ e. codes "error";
}

reload_tells_example :
    let t = (serve outside no_counters fresh (http_post (codes "/reload"))).1 in
    (e : Exit) × (main at_home stopped default_flags Command.reload ≡ some e)
    × (((2 < 10)
          × (((e.code ≡ 0) × IsLoaded outside.config_file outside.world fresh t)
              ⊎ ((e.code ≡ 1) × (served t ≡ served fresh))))
        ⊎ ((10 ≤ 2)
            × (e.code ≡ 1)
            × (IsLoaded outside.config_file outside.world fresh t ⊎ (served t ≡ served fresh))))
reload_tells_example =
    reload_tells at_home stopped default_flags outside no_counters fresh 2 (λ family. refl)
