-- ===== src/Server.antt =====
-- pkg/server/server.go and config.go: the state of the server and the loading of a configuration.
-- `reloadLock` is held while the state is changed, so a load is one function on the state.
pub mod Settings
pub mod Load
pub mod Queues
pub mod Reload
pub mod Certificate
use rsync_proxy.Server.Settings.{Upstream, ProxySettings, Config}
use rsync_proxy.Base.{
  ℕ, ◌+◌, ◌-◌, ◌*◌, ◌/◌, ap, Bool, true, false, not, ◌&&◌, ◌||◌, Option, none, some, List, [], ◌∷◌,
  map, ◌==◌, if◌then◌else◌, Bytes, codes, bytes_beq, has_prefix, sort_strings, ℤ, bytes_eq, lookup,
  insert,
}
use rsync_proxy.Logging.{FileLogger, Disk, LogError, set_file}
use rsync_proxy.Queue.{Queue, set_max}
use rsync_proxy.Queue
use rsync_proxy.Routing.{
  Target, UpstreamConfig, ModuleMap, or_nil, resolve_upstreams, build_module_targets,
}

-- `*queue.Queue` values: what each pointer holds, and the next new one.
pub record QueueHeap : Type 0 where
  pub cell : ℕ → Queue
  pub next_pointer : ℕ

-- The part of `Server` that loading a configuration reads and writes. A certificate is a number.
pub record Server : Type 0 where
  pub listen_addr : Bytes
  pub tls_listen_addr : Bytes
  pub http_listen_addr : Bytes
  pub tcp_listener : Bool
  pub tls_listener : Bool
  pub http_listener : Bool
  pub motd : Bytes
  pub access_log : FileLogger
  pub error_log : FileLogger
  pub modules : ModuleMap
  pub upstreams : List UpstreamConfig
  pub tls_certificate : Option ℕ
  pub upstream_queues : List (Bytes × ℕ)
  pub queues : QueueHeap

pub data LoadError : Type 0 where
  no_upstream tls_enabled_on_reload tls_disabled_on_reload tls_files_missing bad_certificate :
      LoadError
  access_log_failed error_log_failed nil_upstream : LoadError
  no_modules bad_address discovery_failed : Bytes → LoadError

pub data Checked {ℓ} (A : Type ℓ) : Type ℓ where
  good : A → Checked A
  bad : LoadError → Checked A

-- What the load asks of the system: the certificate of two files, whether an address resolves, the
-- modules that an upstream lists (`discoverModulesFromUpstream`), and the files of the two logs.
pub record World : Type 0 where
  pub load_x509_key_pair : Bytes → Bytes → Option ℕ
  pub resolve_unix_addr : Bytes → Bool
  pub resolve_tcp_addr : Bytes → Bool
  pub discover : UpstreamConfig → Option (List Bytes)
  pub access_disk : Disk
  pub error_disk : Disk

-- `validateTCPOrUnixAddr`
abbrev pub validate_tcp_or_unix_addr : World → Bytes → Bool
validate_tcp_or_unix_addr w addr =
    if has_prefix addr (codes "/") then w.resolve_unix_addr addr else w.resolve_tcp_addr addr

abbrev is_set : Bytes → Bool
is_set s = not (bytes_beq s [])

-- The checks of `loadConfig` before the upstreams are read, and the certificate.
unfoldable pub check_tls : World → Config → Server → Checked (Option ℕ)
check_tls w c s =
    if bytes_list_empty c.upstreams
    then bad no_upstream
    else if started && (not s.tls_listener && is_set c.proxy.listen_tls)
    then bad tls_enabled_on_reload
    else if started && (s.tls_listener && not (is_set c.proxy.listen_tls))
    then bad tls_disabled_on_reload
    else if not (is_set c.proxy.listen_tls)
    then good none
    else if not (is_set c.proxy.tls_cert_file) || not (is_set c.proxy.tls_key_file)
    then bad tls_files_missing
    else (elim (w.load_x509_key_pair c.proxy.tls_cert_file c.proxy.tls_key_file) [
      | none ↦ bad bad_certificate
      | some cert ↦ good (some cert)
    ])
  where
    started : Bool
    started = s.tcp_listener || (s.http_listener || s.tls_listener)

    bytes_list_empty : List (Bytes × Upstream) → Bool
    bytes_list_empty [] = true
    bytes_list_empty (x ∷ xs) = false

abbrev names_empty : List Bytes → Bool
names_empty [] = true
names_empty (x ∷ xs) = false

-- `upstreamConfig{...}` of one entry of the map.
abbrev pub upstream_config : Bytes → Upstream → UpstreamConfig
upstream_config name v = record {
  name = name;
  target = record { upstream = name; addr = v.address; use_proxy_protocol = v.use_proxy_protocol };
  modules = v.modules;
  discover_modules = v.discover_modules;
  max_active_conns = v.max_active_conns;
  max_queued_conns = v.max_queued_conns;
}

abbrev pub cons_config :
    UpstreamConfig → Checked (List UpstreamConfig) → Checked (List UpstreamConfig)
cons_config u (good us) = good (u ∷ us)
cons_config u (bad e) = bad e

-- The loop over the sorted names.
unfoldable pub collect_upstreams :
    World → List (Bytes × Upstream) → List Bytes → Checked (List UpstreamConfig)
collect_upstreams w ups [] = good []
collect_upstreams w ups (name ∷ names) =
    let rest = collect_upstreams w ups names in
    elim (lookup name ups) [
      | none ↦ bad nil_upstream
      | some v ↦
          if names_empty v.modules && not v.discover_modules
          then bad (no_modules name)
          else if validate_tcp_or_unix_addr w v.address
          then cons_config (upstream_config name v) rest
          else bad (bad_address name)
    ]

abbrev pub keys : List (Bytes × Upstream) → List Bytes
keys [] = []
keys ((k, v) ∷ m) = k ∷ keys m

-- `discoverConfiguredModules`
unfoldable pub discover_configured_modules :
    World → List UpstreamConfig → List (Bytes × List Bytes) → Checked (List (Bytes × List Bytes))
discover_configured_modules w [] discovered = good discovered
discover_configured_modules w (u ∷ us) discovered =
    if u.discover_modules
    then (elim (w.discover u) [
      | none ↦ bad (discovery_failed u.name)
      | some modules ↦ discover_configured_modules w us (insert u.name modules discovered)
    ])
    else discover_configured_modules w us discovered

-- A queue with its new limits: the one there is, or a new one.
unfoldable pub queue_for : UpstreamConfig → Option ℕ → QueueHeap → ℕ × QueueHeap
unfolding set_max Queue.new
queue_for u (some p) heap = (
  p,
  record heap {
    cell = λ j.
        if j == p then set_max u.max_active_conns u.max_queued_conns (heap.cell p) else heap.cell j;
  },
)
queue_for u none heap = (
  heap.next_pointer,
  record {
    cell = λ j.
        if j == heap.next_pointer
        then Queue.new u.max_active_conns u.max_queued_conns
        else heap.cell j;
    next_pointer = heap.next_pointer + 1;
  },
)

-- The loop of `updateUpstreamQueuesLocked`; `old` is `s.upstreamQueues`.
unfoldable pub update_upstream_queues :
    List (Bytes × ℕ)
    → List UpstreamConfig
    → List (Bytes × ℕ)
    → QueueHeap
    → List (Bytes × ℕ) × QueueHeap
update_upstream_queues old [] queues heap = (queues, heap)
update_upstream_queues old (u ∷ us) queues heap =
    let (p, heap') = queue_for u (lookup u.name old) heap in
    update_upstream_queues old us (insert u.name p queues) heap'

abbrev or_else : Bytes → Bytes → Bytes
or_else s other = if bytes_beq s [] then other else s

-- The addresses are set once; a later load leaves them.
abbrev pub set_addresses : Config → Server → Server
set_addresses c s = record s {
  listen_addr = or_else s.listen_addr c.proxy.listen;
  tls_listen_addr = or_else s.tls_listen_addr c.proxy.listen_tls;
  http_listen_addr = or_else s.http_listen_addr c.proxy.listen_http;
}

-- The last part of `loadConfig`, which puts the new configuration in force.
unfoldable pub install : Config → Option ℕ → List UpstreamConfig → Server → Server
install c cert resolved s =
    let (queues, heap) = update_upstream_queues s.upstream_queues resolved [] s.queues in
    record s {
      motd = c.proxy.motd;
      modules = build_module_targets resolved;
      upstreams = resolved;
      upstream_queues = queues;
      queues = heap;
      tls_certificate = cert;
    }

-- The log files, with `openLog`; the first failure ends the load.
unfoldable pub open_logs : World → Config → Server → Server × Option LoadError
open_logs w c s =
    let (access, access_err) = set_file w.access_disk c.proxy.access_log s.access_log in
    let opened = record s { access_log = access } in
    let (errors, error_err) = set_file w.error_disk c.proxy.error_log s.error_log in
    elim access_err [
      | some e ↦ (opened, some access_log_failed)
      | none ↦ (
        record opened { error_log = errors },
        elim error_err [ none ↦ none | some e ↦ some error_log_failed ],
      )
    ]

abbrev finish :
    World → Config → Bool → Option ℕ → List UpstreamConfig → Server → Server × Option LoadError
finish w c open_log cert resolved s =
    let (logged, err) =
      if open_log then open_logs w c (set_addresses c s) else (set_addresses c s, none) in
    elim err [ some e ↦ (logged, some e) | none ↦ (install c cert resolved logged, none) ]

-- `loadConfig`: the state after it, and its error.
unfoldable pub load_config : World → Config → Bool → Server → Server × Option LoadError
load_config w c open_log s = elim (check_tls w c s) [
  | bad e ↦ (s, some e)
  | good cert ↦ elim (collect_upstreams w c.upstreams (sort_strings (keys c.upstreams))) [
    | bad e ↦ (s, some e)
    | good us ↦ elim (if open_log then discover_configured_modules w us [] else good []) [
      | bad e ↦ (s, some e)
      | good discovered ↦ finish w c open_log cert (resolve_upstreams us discovered) s
    ]
  ]
]
