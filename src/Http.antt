-- ===== src/Http.antt =====
-- pkg/server/server.go: the handlers of `runHTTPServer`. A body is given by what it says; JSON, TOML
-- and the transport are not part of the program.
pub mod Messages
pub mod Answers
pub mod Shared
use rsync_proxy.Http.Messages.{
  Values, Request, Snapshot, snapshot, Body, Response, empty, message, modules, status_of, text_of,
}
use rsync_proxy.Base.{
  ℕ, ◌+◌, ◌-◌, ◌*◌, ◌/◌, ap, Bool, true, false, not, ◌||◌, Option, none, some, List, [], ◌∷◌, ◌++◌,
  map, if◌then◌else◌, decimal, decimal_ℤ, Bytes, codes, bytes_beq, has_prefix, length, ℤ, bytes_eq,
  pair_eq, nat_eq, lookup,
}
use rsync_proxy.Counters.{Counters, ConnInfo}
use rsync_proxy.Discovery.{Found, DiscoverError}
use rsync_proxy.Discovery.Upstreams.{
  Listed, listed, unknown_upstream, discovery_failed, list_upstream_modules,
}
use rsync_proxy.Metrics.Page.{Scrape, write_prometheus_metrics}
use rsync_proxy.Metrics.Samples.{list_connection_info}
use rsync_proxy.Routing.{UpstreamConfig}
use rsync_proxy.Server.{Server, World, LoadError, load_config}
use rsync_proxy.Server.Settings.{Config}

-- What the file of the configuration is found to be, and what its load asks of the system.
pub data ConfigFile : Type 0 where
  not_opened : ConfigFile
  not_decoded : ConfigFile
  decoded : Config → ConfigFile

pub data ReadError : Type 0 where
  open_failed decode_failed : ReadError
  load_failed : LoadError → ReadError

-- What the handlers find outside of the state: `Hostname`, the file of the configuration, what an
-- upstream lists, the text of an error of that, the time in nanoseconds, the format of durations,
-- and the page of the Go runtime.
pub record Outside : Type 0 where
  pub hostname : Option Bytes
  pub config_file : ConfigFile
  pub world : World
  pub discover : UpstreamConfig → Found
  pub describe : DiscoverError → Bytes
  pub now : ℕ
  pub format_seconds : ℕ → Bytes
  pub runtime_metrics : Response

abbrev pub load_result : Server × Option LoadError → Server × Option ReadError
load_result (s, none) = (s, none)
load_result (s, some e) = (s, some (load_failed e))

-- `ReadConfig` of a file that was opened, and `ReadConfigFromFile`.
unfoldable pub read_config_from_file :
    ConfigFile → World → Bool → Server → Server × Option ReadError
read_config_from_file not_opened w open_log s = (s, some open_failed)
read_config_from_file not_decoded w open_log s = (s, some decode_failed)
read_config_from_file (decoded c) w open_log s = load_result (load_config w c open_log s)

-- `Values.Get`
unfoldable pub get : Bytes → Values → Bytes
get key query = elim (lookup key query) [ none ↦ [] | some vs ↦ elim vs [ [] ↦ [] | v ∷ rest ↦ v ] ]

-- `strconv.ParseBool`
unfoldable pub parse_bool : Bytes → Option Bool
parse_bool s =
    if any_of (codes "1" ∷ codes "t" ∷ codes "T" ∷ codes "TRUE" ∷ codes "true" ∷ codes "True" ∷ [])
    then some true
    else if any_of
        (codes "0" ∷ codes "f" ∷ codes "F" ∷ codes "FALSE" ∷ codes "false" ∷ codes "False" ∷ [])
    then some false
    else none
  where
    any_of : List Bytes → Bool
    any_of [] = false
    any_of (x ∷ xs) = bytes_beq s x || any_of xs

-- `strings.Contains(s, part)`
unfoldable contains : Bytes → Bytes → Bool
contains part [] = has_prefix [] part
contains part (c ∷ s) = has_prefix (c ∷ s) part || contains part s

-- The text of the errors of `ListUpstreamModules`.
abbrev unknown_text : Bytes → Bytes
unknown_text name = codes "unknown upstream: " ++ name

abbrev failed_text : UpstreamConfig → Bytes → Bytes
failed_text u why =
    codes "discover modules from upstream "
    ++ (u.name ++ (codes " (" ++ (u.target.addr ++ (codes "): " ++ why))))

-- `err.Error()` decides between the codes.
unfoldable pub error_answer : Bytes → Response
unfolding contains
error_answer why = record {
  status_code = if contains (codes "unknown upstream") why then 404 else 500;
  body = message why;
}

abbrev pub listed_answer : (DiscoverError → Bytes) → Listed → Response
listed_answer describe (listed names) = record { status_code = 200; body = modules names }
listed_answer describe (unknown_upstream name) = error_answer (unknown_text name)
listed_answer describe (discovery_failed u e) = error_answer (failed_text u (describe e))

-- `forceDiscover`: the first value of the key, where it has one.
unfoldable pub force_discover_of : Values → Option Bool
unfolding parse_bool
force_discover_of query = elim (lookup (codes "force_discover") query) [
  | none ↦ some false
  | some vs ↦ elim vs [ [] ↦ some false | v ∷ rest ↦ parse_bool v ]
]

abbrev bad_request : Bytes → Response
bad_request why = record { status_code = 400; body = message why }

abbrev not_allowed : Response
not_allowed = record { status_code = 405; body = empty }

abbrev is_get : Request → Bool
is_get r = bytes_beq r.method (codes "GET")

-- The handler of /upstream-modules
unfoldable pub upstream_modules : Outside → Server → Request → Response
unfolding get force_discover_of list_upstream_modules error_answer
upstream_modules o s r =
    let name = get (codes "name") r.query in
    if not (is_get r)
    then not_allowed
    else if bytes_beq name []
    then bad_request (codes "missing upstream name")
    else (elim (force_discover_of r.query) [
      | none ↦ bad_request (codes "invalid force_discover value")
      | some force ↦
          listed_answer o.describe (list_upstream_modules o.discover name force s.upstreams)
    ])

abbrev pub reload_answer : Option ReadError → Response
reload_answer (some e) = record {
  status_code = 500;
  body = message (codes "Failed to reload config");
}
reload_answer none = record { status_code = 200; body = message (codes "Successfully reloaded") }

-- The handler of /reload
unfoldable pub reload : Outside → Server → Request → Response × Server
unfolding read_config_from_file
reload o s r =
    let (t, err) = read_config_from_file o.config_file o.world true s in
    if not (bytes_beq r.method (codes "POST")) then (not_allowed, s) else (reload_answer err, t)

-- The handler of /status
unfoldable pub status : Counters → Request → Response
status c r =
    let conns = list_connection_info c in
    if not (is_get r)
    then not_allowed
    else record { status_code = 200; body = status_of (length conns) (map snapshot conns) }

abbrev or_unknown : Option Bytes → Bytes
or_unknown none = codes "(unknown)"
or_unknown (some h) = h

-- The handler of /telegraf; the time is cut off to seconds.
-- `GetActiveConnectionCount`
abbrev get_active_connection_count : Counters → ℤ
get_active_connection_count c = c.active_conn_count

unfoldable telegraf : Outside → Counters → Request → Response
telegraf o c r =
    let host = or_unknown o.hostname in
    if not (is_get r) then not_allowed else record {
      status_code = 200;
      body = text_of (
          codes "rsync-proxy,host="
          ++ (host
              ++ (codes " count="
                  ++ (decimal_ℤ (get_active_connection_count c)
                      ++ (codes " "
                          ++ (decimal (o.now / 1_000_000_000 * 1_000_000_000) ++ codes "\n"))))));
    }

abbrev text_in : Body → Bytes
text_in (text_of s) = s
text_in b = []

-- The handler of /metrics: the page of the runtime, and its own after it.
unfoldable metrics : Outside → Server → Counters → Request → Response
metrics o s c r = if not (is_get r) then not_allowed else record {
  status_code = o.runtime_metrics.status_code;
  body = text_of (
      text_in o.runtime_metrics.body
      ++ write_prometheus_metrics
          (record { server = s; counters = c; now = o.now; format_seconds = o.format_seconds }));
}

-- `http.NotFound`, for a path without a handler.
abbrev not_found : Response
not_found = record { status_code = 404; body = text_of (codes "404 page not found\n") }

-- The `ServeMux` of `runHTTPServer`: the answer, and the state after it.
unfoldable pub serve : Outside → Counters → Server → Request → Response × Server
unfolding upstream_modules reload status telegraf metrics
serve o c s r =
    if bytes_beq r.path (codes "/upstream-modules")
    then (upstream_modules o s r, s)
    else if bytes_beq r.path (codes "/reload")
    then reload o s r
    else if bytes_beq r.path (codes "/status")
    then (status c r, s)
    else if bytes_beq r.path (codes "/telegraf")
    then (telegraf o c r, s)
    else if bytes_beq r.path (codes "/metrics")
    then (metrics o s c r, s)
    else (not_found, s)
