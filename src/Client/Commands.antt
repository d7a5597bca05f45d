-- ===== src/Client/Commands.antt =====
-- cmd/cmd.go: what the commands ask of a running daemon, and what they print. JSON, the table and its
-- colours, and the transport are not part of the program.
use rsync_proxy.Base.{
  ℕ, Bool, not, ◌&&◌, Option, none, some, List, [], ◌∷◌, map, ltb, ◌==◌, if◌then◌else◌, decimal,
  Bytes, codes, bytes_beq, has_prefix, sort_strings,
}
use rsync_proxy.Client.Size.{Segment, format_size_colored}
use rsync_proxy.Discovery.{Found, found, failed, DiscoverError}
use rsync_proxy.Discovery.Fields.{text}
use rsync_proxy.Discovery.Upstreams.{discover_modules_with_proxy_protocol}
use rsync_proxy.Http.Messages.{Request, Response, Body, Values}
use rsync_proxy.Routing.{UpstreamConfig}

pub data CmdError : Type 0 where
  no_answer reload_failed no_connections no_modules bad_json table_failed : CmdError
  empty_spec bad_url path_in_url : CmdError
  not_discovered : DiscoverError → CmdError

-- What is written to the two streams, and the error of the command.
pub record Printed : Type 0 where
  pub stdout : Bytes
  pub stderr : Bytes
  pub error : Option CmdError

-- A connection as /status tells it.
pub record Row : Type 0 where
  pub index : ℕ
  pub remote_addr : Bytes
  pub module_name : Bytes
  pub upstream : Bytes
  pub connected_at : ℕ
  pub received_bytes : ℕ
  pub sent_bytes : ℕ

-- The bytes of a body, and the decoding of the two structs.
pub record Json : Type 0 where
  pub wire : Body → Bytes
  pub decode_modules : Bytes → Option (List Bytes)
  pub decode_status : Bytes → Option (ℕ × List Row)

-- The table with its header and whether it fails, a time as text, and a text with its colours.
pub record Terminal : Type 0 where
  pub render : List Bytes → List (List Bytes) → Bytes × Bool
  pub date_time : ℕ → Bytes
  pub coloured : List Segment → Bytes

-- A request of the daemon: nothing, if there is no answer.
abbrev pub Ask : Type 0
Ask = Request → Option Response

abbrev nothing : Option CmdError → Printed
nothing e = record { stdout = []; stderr = []; error = e }

-- `httpGet` and `httpPost`
abbrev pub http_get : Bytes → Values → Request
http_get path query = record { method = codes "GET"; path = path; query = query }

abbrev pub http_post : Bytes → Request
http_post path = record { method = codes "POST"; path = path; query = [] }

-- `SendReloadRequest`
unfoldable pub send_reload_request : Json → Ask → Printed
send_reload_request json ask = elim (ask (http_post (codes "/reload"))) [
  | none ↦ nothing (some no_answer)
  | some resp ↦
      if ltb resp.status_code 300
      then record { stdout = json.wire resp.body; stderr = []; error = none }
      else record { stdout = []; stderr = json.wire resp.body; error = some reload_failed }
]

abbrev pub row_cells : Terminal → Row → List Bytes
row_cells t conn =
    decimal conn.index
    ∷ conn.remote_addr
    ∷ conn.module_name
    ∷ conn.upstream
    ∷ t.date_time conn.connected_at
    ∷ t.coloured (format_size_colored conn.received_bytes)
    ∷ t.coloured (format_size_colored conn.sent_bytes)
    ∷ []

abbrev pub header : List Bytes
header =
    codes "Index"
    ∷ codes "Remote"
    ∷ codes "Module"
    ∷ codes "Upstream"
    ∷ codes "Connected"
    ∷ codes "Received"
    ∷ codes "Sent"
    ∷ []

abbrev print_table : Terminal → ℕ × List Row → Printed
print_table t (count, connections) =
    let (out, fails) = t.render header (map (row_cells t) connections) in
    if count == 0
    then record { stdout = codes "No active connections\n"; stderr = []; error = none }
    else record { stdout = out; stderr = []; error = if fails then some table_failed else none }

-- `SendConnectionsRequest`
unfoldable pub send_connections_request : Json → Terminal → Ask → Printed
unfolding format_size_colored
send_connections_request json t ask = elim (ask (http_get (codes "/status") [])) [
  | none ↦ nothing (some no_answer)
  | some resp ↦
      if not (resp.status_code == 200)
      then record { stdout = []; stderr = json.wire resp.body; error = some no_connections }
      else (elim (json.decode_status (json.wire resp.body)) [
        | none ↦ nothing (some bad_json)
        | some result ↦ print_table t result
      ])
]

-- `url.Values` with `name`, and `force_discover` where it is wanted.
abbrev pub modules_query : Bytes → Bool → Values
modules_query upstream force_discover =
    (codes "name", upstream ∷ [])
    ∷ (if force_discover then (codes "force_discover", codes "true" ∷ []) ∷ [] else [])

-- `SendUpstreamModulesRequest`
unfoldable pub send_upstream_modules_request : Json → Ask → Bytes → Bool → Printed
send_upstream_modules_request json ask upstream force_discover =
    elim (ask (http_get (codes "/upstream-modules") (modules_query upstream force_discover))) [
      | none ↦ nothing (some no_answer)
      | some resp ↦
          if not (resp.status_code == 200)
          then record { stdout = []; stderr = json.wire resp.body; error = some no_modules }
          else (elim (json.decode_modules (json.wire resp.body)) [
            | none ↦ nothing (some bad_json)
            | some names ↦ record { stdout = text (sort_strings names); stderr = []; error = none }
          ])
    ]

-- The parts of a URL that are used.
pub record Url : Type 0 where
  pub host : Bytes
  pub path : Bytes

abbrev print_found : Found → Printed
print_found (found names) = record { stdout = text names; stderr = []; error = none }
print_found (failed e) = nothing (some (not_discovered e))

-- The command upstream-modules; `parse` is `url.Parse`.
unfoldable pub upstream_modules_command :
    (Bytes → Option Url) → (UpstreamConfig → Found) → Json → Ask → Bytes → Bool → Bool → Printed
unfolding send_upstream_modules_request discover_modules_with_proxy_protocol
upstream_modules_command parse discover json ask spec use_proxy_protocol force_discover =
    if bytes_beq spec []
    then nothing (some empty_spec)
    else if has_prefix spec (codes "rsync://")
    then (elim (parse spec) [
      | none ↦ nothing (some bad_url)
      | some parsed ↦
          let discovered = λ (host : Bytes).
            print_found (discover_modules_with_proxy_protocol discover host use_proxy_protocol) in
          if bytes_beq parsed.host []
          then discovered parsed.path
          else if not (bytes_beq parsed.path []) && not (bytes_beq parsed.path (codes "/"))
          then nothing (some path_in_url)
          else discovered parsed.host
    ])
    else send_upstream_modules_request json ask spec force_discover
