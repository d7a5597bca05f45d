-- ===== src/Client/Program.antt =====
-- main.go and cmd/cmd.go: the program: which command runs with which flags, what the process prints,
-- and its exit code. The library for the command line, which parses it and prints help and errors of
-- its own, is left out; JSON, the sockets and the texts of errors are given.
use rsync_proxy.Base.{
  ℕ, Bool, false, Option, none, some, [], ◌++◌, ltb, if◌then◌else◌, Bytes, codes, has_prefix,
}
use rsync_proxy.Http.Messages.{Request, Response}
use rsync_proxy.Client.Commands.{
  CmdError, Printed, Json, Terminal, Ask, Url, send_reload_request, send_connections_request,
  upstream_modules_command,
}
use rsync_proxy.Client.Start.{
  Started, prints_version, load_config_failed, server_listen_failed, runs, root_command,
}
use rsync_proxy.Discovery.{Found}
use rsync_proxy.Http.{ConfigFile, ReadError}
use rsync_proxy.Listeners.{Net, Listening, ListenError}
use rsync_proxy.Listeners.Run.{RunError}
use rsync_proxy.Routing.{UpstreamConfig}
use rsync_proxy.Server.{World}

abbrev default_unix_socket_path : Bytes
default_unix_socket_path = codes "/run/rsync-proxy/rsync-proxy.sock"

abbrev default_config_path : Bytes
default_config_path = codes "/etc/rsync-proxy/config.toml"

-- What the build and the runtime say of themselves.
pub record Build : Type 0 where
  pub git_commit : Bytes
  pub build_date : Bytes
  pub version : Bytes
  pub go_version : Bytes
  pub compiler : Bytes
  pub goos : Bytes
  pub goarch : Bytes

-- `Info` of `printVersion`
pub record Info : Type 0 where
  pub git_commit : Bytes
  pub build_date : Bytes
  pub version : Bytes
  pub go_version : Bytes
  pub compiler : Bytes
  pub platform : Bytes

abbrev info_of : Build → Info
info_of b = record {
  git_commit = b.git_commit;
  build_date = b.build_date;
  version = b.version;
  go_version = b.go_version;
  compiler = b.compiler;
  platform = b.goos ++ (codes "/" ++ b.goarch);
}

-- Why the program ends with the code 1.
pub data ExitError : Type 0 where
  of_command : CmdError → ExitError
  load_config : ReadError → ExitError
  server_listen : ListenError → ExitError
  of_run : RunError → ExitError
  not_encoded : ExitError

-- What the program finds: the build, the encoder of `Info` (indented or not), what is behind each
-- socket by its network, with the seconds until its answer is there, the file of each path, what `Run` returns if it does, and the texts.
pub record Surroundings : Type 0 where
  pub build : Build
  pub encode : Bool → Info → Option Bytes
  pub dial : Bytes → Bytes → Request → Option (ℕ × Response)
  pub json : Json
  pub terminal : Terminal
  pub parse_url : Bytes → Option Url
  pub discover : UpstreamConfig → Found
  pub config_file : Bytes → ConfigFile
  pub world : World
  pub net : Net
  pub run : Listening → Option RunError
  pub describe : ExitError → Bytes

-- `Timeout: time.Second * 10` of an `http.Client`: the exchange with the body of its answer.
abbrev timeout_seconds : ℕ
timeout_seconds = 10

abbrev pub within_timeout : Option (ℕ × Response) → Option Response
within_timeout none = none
within_timeout (some (seconds, answer)) = if ltb seconds timeout_seconds then some answer else none

-- `makeHttpClient`: a client that dials the socket, whatever the host of a request is, and gives up
-- after ten seconds.
unfoldable pub make_http_client : Surroundings → Bytes → Ask
make_http_client o addr =
    let addr_family : Bytes = if has_prefix addr (codes "/") then codes "unix" else codes "tcp" in
    λ r. within_timeout (o.dial addr_family addr r)

-- What a command writes, and its error; `none` for one that does not return.
pub record Result : Type 0 where
  pub stdout : Bytes
  pub stderr : Bytes
  pub error : Option ExitError

abbrev pub result_of : Printed → Result
result_of p = record {
  stdout = p.stdout;
  stderr = p.stderr;
  error = (elim p.error [ none ↦ none | some e ↦ some (of_command e) ]);
}

abbrev fails_with : ExitError → Result
fails_with e = record { stdout = []; stderr = []; error = some e }

-- `printVersion`
unfoldable print_version : Surroundings → Bool → Result
print_version o pretty = elim (o.encode pretty (info_of o.build)) [
  | none ↦ fails_with not_encoded
  | some text ↦ record { stdout = text; stderr = []; error = none }
]

-- The commands of `New` with their own flags.
pub data Command : Type 0 where
  root connections reload : Command
  upstream_modules : Bytes → Bool → Bool → Command
  version : Bool → Command

-- The persistent flags.
pub record Flags : Type 0 where
  pub host : Bytes
  pub config : Bytes
  pub version : Bool

abbrev pub default_flags : Flags
default_flags = record {
  host = default_unix_socket_path;
  config = default_config_path;
  version = false;
}

-- How the root command goes on.
abbrev run_started : Surroundings → Started → Option Result
run_started o prints_version = some (print_version o false)
run_started o (load_config_failed e x) = some (fails_with (load_config e))
run_started o (server_listen_failed e x) = some (fails_with (server_listen e))
run_started o (runs x) = elim (o.run x) [ none ↦ none | some e ↦ some (fails_with (of_run e)) ]

-- `Execute`, by the `RunE` of each command; `x` is the server of `New` before anything is opened.
unfoldable pub execute : Surroundings → Listening → Flags → Command → Option Result
unfolding make_http_client print_version root_command send_connections_request send_reload_request
    upstream_modules_command
execute o x flags root =
    run_started o (root_command flags.version (o.config_file flags.config) o.world o.net x)
execute o x flags connections =
    some (result_of (send_connections_request o.json o.terminal (make_http_client o flags.host)))
execute o x flags reload =
    some (result_of (send_reload_request o.json (make_http_client o flags.host)))
execute o x flags (upstream_modules spec use_proxy_protocol force_discover) = some (
    result_of (
      upstream_modules_command o.parse_url o.discover o.json (make_http_client o flags.host) spec
        use_proxy_protocol force_discover))
execute o x flags (version pretty) = some (print_version o pretty)

-- What the process leaves: its output and its exit code.
pub record Exit : Type 0 where
  pub stdout : Bytes
  pub stderr : Bytes
  pub code : ℕ

abbrev pub exit_of : Surroundings → Result → Exit
exit_of o r = elim r.error [
  | none ↦ record { stdout = r.stdout; stderr = r.stderr; code = 0 }
  | some e ↦ record {
    stdout = r.stdout ++ (o.describe e ++ codes "\n");
    stderr = r.stderr;
    code = 1;
  }
]

-- `main`
unfoldable pub main : Surroundings → Listening → Flags → Command → Option Exit
unfolding execute
main o x flags command = elim (execute o x flags command) [
  | none ↦ none
  | some r ↦ some (exit_of o r)
]
