-- ===== src/Tests/ServerRuns.antt =====
-- Loads of configurations.
use rsync_proxy.Server.{
  open_logs, discover_configured_modules, Server, World, LoadError, load_config, check_tls,
  collect_upstreams, install, update_upstream_queues, queue_for,
}
use rsync_proxy.Logging.{set_file, FileLogger, Disk, discard}
use rsync_proxy.Server.Settings.{Config, Upstream, ProxySettings}
use rsync_proxy.Base.{
  sort_strings, ◌≡◌, refl, true, false, Option, none, [], ◌∷◌, codes, ℤ, lookup, insert, pos,
  bytes_eq,
}
use rsync_proxy.Queue
use rsync_proxy.Routing.{resolve_upstreams, build_module_targets}

abbrev no_disk : Disk
no_disk = record { mkdir_all = λ name. true; open_append = λ name. none }

abbrev pub calm : World
calm = record {
  load_x509_key_pair = λ cert key. none;
  resolve_unix_addr = λ addr. true;
  resolve_tcp_addr = λ addr. true;
  discover = λ u. none;
  access_disk = no_disk;
  error_disk = no_disk;
}

abbrev quiet_logger : FileLogger
quiet_logger = record { filename = []; flags = 19; file = none; sink = discard; closed = [] }

abbrev pub fresh : Server
fresh = record {
  listen_addr = [];
  tls_listen_addr = [];
  http_listen_addr = [];
  tcp_listener = false;
  tls_listener = false;
  http_listener = false;
  motd = [];
  access_log = quiet_logger;
  error_log = quiet_logger;
  modules = [];
  upstreams = [];
  tls_certificate = none;
  upstream_queues = [];
  queues = record { cell = λ p. Queue.new (pos 0) (pos 0); next_pointer = 0 };
}

abbrev settings : ProxySettings
settings = record {
  listen = codes ":873";
  listen_tls = [];
  listen_http = [];
  motd = codes "hello";
  access_log = [];
  error_log = [];
  tls_cert_file = [];
  tls_key_file = [];
}

abbrev mirror_upstream : ℤ → Upstream
mirror_upstream limit = record {
  address = codes "10.0.0.1:873";
  modules = codes "foo" ∷ [];
  discover_modules = false;
  use_proxy_protocol = false;
  max_active_conns = limit;
  max_queued_conns = pos 5;
}

abbrev pub with_limit : ℤ → Config
with_limit limit = record { proxy = settings; upstreams = (codes "u", mirror_upstream limit) ∷ [] }

abbrev first_load : Server × Option LoadError
unfolding load_config check_tls collect_upstreams install update_upstream_queues queue_for
    resolve_upstreams build_module_targets lookup insert
first_load = load_config calm (with_limit (pos 1)) true fresh

pub loads : (load_config calm (with_limit (pos 1)) true fresh).1 ≡ none
unfolding load_config check_tls collect_upstreams lookup sort_strings discover_configured_modules
    open_logs set_file
loads = refl
