-- ===== src/Client/Daemon.antt =====
-- A command and the daemon together: what the one prints of the other's state.
use rsync_proxy.Http.{
  Outside, serve, upstream_modules, status, listed_answer, get, force_discover_of, parse_bool,
}
use rsync_proxy.Http.Messages.{Snapshot, snapshot, modules, status_of}
use rsync_proxy.Base.{
  ◌≡◌, refl, sym, ap, ◌∙◌, ◌≢◌, inl, inr, Bool, true, false, Option, none, some, List, [], ◌∷◌, map,
  arith, ltb, ◌==◌, if◌then◌else◌, Bool-cases, Bytes, codes, bytes_beq, bytes_beq_iff, has_prefix,
  length, sort_by-Perm, Ascends, sort_by-Ascends, sort_strings, bytes_eq, pair_eq, nat_eq, lookup,
}
use mathlib.Core.Option.{some-injective}
use mathlib.Core.List.{Perm}
use rsync_proxy.Client.Commands.{
  Json, Terminal, Row, Url, Ask, http_get, modules_query, send_upstream_modules_request,
  send_connections_request, upstream_modules_command, row_cells, header, table_failed,
}
use rsync_proxy.Counters.{Counters}
use rsync_proxy.Discovery.{Found, found}
use rsync_proxy.Discovery.Fields.{text}
use rsync_proxy.Discovery.Upstreams.{found_of, listed, list_upstream_modules}
use rsync_proxy.Metrics.Samples.{list_connection_info, infos}
use rsync_proxy.Routing.{UpstreamConfig}
use rsync_proxy.Server.{Server}

-- The requests of a command are answered by the daemon in this state.
abbrev pub daemon : Outside → Counters → Server → Ask
daemon o c s r = some (serve o c s r).0

serve-modules :
    (o : Outside) (c : Counters) (s : Server) (name : Bytes) (force : Bool)
    → bytes_beq name [] ≡ false
    → (serve o c s (http_get (codes "/upstream-modules") (modules_query name force))).0
      ≡ listed_answer o.describe (list_upstream_modules o.discover name force s.upstreams)
unfolding serve upstream_modules lookup get force_discover_of parse_bool
serve-modules o c s name false h = rw h refl
serve-modules o c s name true h = rw h refl

-- The first upstream of a name.
abbrev first_named : Bytes → List UpstreamConfig → Option UpstreamConfig
first_named name [] = none
first_named name (u ∷ us) = if bytes_beq u.name name then some u else first_named name us

-- Its modules: those that it was loaded with, in order, or, with the flag, those that it is now found
-- to have.
abbrev IsListOf : Outside → UpstreamConfig → Bool → List Bytes → Type 0
IsListOf o u false names = names ≡ sort_strings u.modules
IsListOf o u true names = o.discover u ≡ found names

list-first_named :
    (o : Outside) (u : UpstreamConfig) (name : Bytes) (force : Bool) (names : List Bytes)
    → (us : List UpstreamConfig) → first_named name us ≡ some u
    → IsListOf o u force names
    → list_upstream_modules o.discover name force us ≡ listed names
unfolding list_upstream_modules
list-first_named o u name force names [] e h = absurd cc
list-first_named o u name force names (v ∷ us) e h = elim (Bool-cases (bytes_beq v.name name)) [
  | inl hit ↦ rw hit (here force h (some-injective v u (sym (taken hit) ∙ e)))
  | inr miss ↦ rw miss (list-first_named o u name force names us (sym (passed miss) ∙ e) h)
]
  where
    taken : bytes_beq v.name name ≡ true → first_named name (v ∷ us) ≡ some v
    taken hit = rw hit refl

    passed : bytes_beq v.name name ≡ false → first_named name (v ∷ us) ≡ first_named name us
    passed miss = rw miss refl

    here :
        (force : Bool)
        → IsListOf o u force names
        → v ≡ u
        → (if force then found_of v (o.discover v) else listed (sort_strings v.modules))
          ≡ listed names
    here false h is = ap listed (ap (λ (w : UpstreamConfig). sort_strings w.modules) is ∙ sym h)
    here true h is = ap (λ (w : UpstreamConfig). found_of w (o.discover w)) is ∙ ap (found_of u) h

-- The command upstream-modules, for a name that is no URL and that an upstream has: the modules of
-- the first such upstream come out in order, each on its line, and nothing else, if JSON gives the
-- names back. Without the flag these are the modules it was loaded with; with it, those it lists now.
pub upstream_modules-prints :
    (o : Outside) (c : Counters) (s : Server) (json : Json) (parse : Bytes → Option Url)
    (discover : UpstreamConfig → Found) (name : Bytes) (proxy force : Bool) (u : UpstreamConfig)
    (names : List Bytes)
    → name ≢ []
    → has_prefix name (codes "rsync://") ≡ false
    → first_named name s.upstreams ≡ some u
    → IsListOf o u force names
    → json.decode_modules (json.wire (modules names)) ≡ some names
    → upstream_modules_command parse discover json (daemon o c s) name proxy force
      ≡ record { stdout = text (sort_strings names); stderr = []; error = none }
unfolding upstream_modules_command send_upstream_modules_request
upstream_modules-prints o c s json parse discover name proxy force u names set plain first is back =
    let some_name : bytes_beq name [] ≡ false = ground (arith, bytes_beq_iff name []) in
    let lists = list-first_named o u name force names s.upstreams first is in
    rw (some_name, plain, serve-modules o c s name force some_name, lists, back) refl

-- A connection as the client reads it.
abbrev pub row : Snapshot → Row
row info = record {
  index = info.index;
  remote_addr = info.remote_addr;
  module_name = info.module_name;
  upstream = info.upstream;
  connected_at = info.connected_at;
  received_bytes = info.received_bytes;
  sent_bytes = info.sent_bytes;
}

-- Each connection once, by index.
list_connection_info-Perm : (c : Counters) → Perm (list_connection_info c) (infos c.conn_info)
unfolding list_connection_info
list_connection_info-Perm c = sort_by-Perm _ (infos c.conn_info)

list_connection_info-Ascends :
    (c : Counters) → Ascends (λ a b. ltb a.index b.index) (list_connection_info c)
unfolding list_connection_info
list_connection_info-Ascends c =
    sort_by-Ascends (λ a b. ltb a.index b.index) (λ a b h. ground arith) (λ a b d h k. ground arith)
      (infos c.conn_info)

serve-status :
    (o : Outside) (c : Counters) (s : Server)
    → (serve o c s (http_get (codes "/status") [])).0 ≡ status c (http_get (codes "/status") [])
unfolding serve
serve-status o c s = refl

-- What the client is told of the connections.
abbrev pub rows : Counters → List Row
rows c = map row (map snapshot (list_connection_info c))

-- The command connections: a table with one row for each connection that the daemon has, each once,
-- by index; if there are none, a line that says so. JSON is to give the answer back.
pub connections-prints :
    (o : Outside) (c : Counters) (s : Server) (json : Json) (t : Terminal)
    → let conns = list_connection_info c in
      json.decode_status (json.wire (status_of (length conns) (map snapshot conns)))
        ≡ some (length conns, rows c)
      → (send_connections_request json t (daemon o c s) ≡ (
          if length conns == 0
          then record { stdout = codes "No active connections\n"; stderr = []; error = none }
          else record {
            stdout = (t.render header (map (row_cells t) (rows c))).0;
            stderr = [];
            error =
                if (t.render header (map (row_cells t) (rows c))).1
                then some table_failed
                else none;
          }))
        × Perm conns (infos c.conn_info)
        × Ascends (λ a b. ltb a.index b.index) conns
unfolding send_connections_request status
connections-prints o c s json t back = (
  rw (serve-status o c s, back) refl,
  list_connection_info-Perm c,
  list_connection_info-Ascends c,
)
