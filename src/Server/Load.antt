-- ===== src/Server/Load.antt =====
-- What a load of a configuration does to the server.
use rsync_proxy.Base.{ℕ, ◌≡◌, Bool, Option, some, List, arith, Bytes, bytes_eq}
use rsync_proxy.Routing.{UpstreamConfig, ModuleMap}
use rsync_proxy.Server.{Server, World, LoadError, QueueHeap, open_logs, set_addresses, load_config}
use rsync_proxy.Server.Settings.{Config}

-- What clients are served by.
abbrev pub served :
    Server → Bytes × ModuleMap × List UpstreamConfig × List (Bytes × ℕ) × QueueHeap × Option ℕ
served s = (s.motd, s.modules, s.upstreams, s.upstream_queues, s.queues, s.tls_certificate)

pub open_logs-served : (w : World) (c : Config) (s : Server) → served (open_logs w c s).0 ≡ served s
unfolding open_logs
open_logs-served w c s = ground arith

-- A load that fails changes nothing that clients are served by.
pub load_config-failed :
    (w : World) (c : Config) (open_log : Bool) (s : Server) (e : LoadError)
    → (load_config w c open_log s).1 ≡ some e
    → served (load_config w c open_log s).0 ≡ served s
unfolding load_config
load_config-failed w c open_log s e h = ground (arith, open_logs-served w c (set_addresses c s))
