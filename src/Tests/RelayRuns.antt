-- ===== src/Tests/RelayRuns.antt =====
-- Connections of clients.
use rsync_proxy.Base.{
  ◌^◌, ◌<◌, ◌≡◌, refl, ap, ◌⊎◌, Bool, true, false, List, [], ◌∷◌, ◌++◌, arith, codes, length, All,
  sort_strings, bytes_eq, pair_eq, nat_eq, lookup, insert, pos,
}
use rsync_proxy.Wire.{Chunk, read_line, tcp}
use rsync_proxy.Server.{
  Server, load_config, check_tls, collect_upstreams, discover_configured_modules, open_logs,
  install, update_upstream_queues, queue_for,
}
use rsync_proxy.Logging.{set_file}
use rsync_proxy.Routing.{
  resolve_upstreams, build_module_targets, choose_target_by_client_ip, Target,
}
use rsync_proxy.Relay.Script.{
  ◌>>=◌, ◌>>◌, return, fail, tell, tell_all, finally, write_client, try_write_client, read_client,
  Session, blocked, failed, dial_failed, done,
}
use rsync_proxy.Relay.{
  handshake, serve_request, serve_module, pick_target, serve_target, with_slot, queue_up, connect,
  Setting, QueueEvent, told, minute, relay,
}
use rsync_proxy.Relay.Texts.{after_line_feed}
use rsync_proxy.Queue.Channels.{Status}
use rsync_proxy.Tests.ServerRuns.{calm, with_limit, fresh, loads}
use rsync_proxy.Relay.Effects.{Effect, touches_upstream}
use rsync_proxy.Relay.Slots.{relay-IsBalanced, IsBalanced, slots}
use rsync_proxy.Relay.Grant.{relay_waits_for_grant}
use rsync_proxy.Relay.Ready.{relay-IsOrdinary}
use rsync_proxy.Relay.Served.{IsServed, session, served_effects, relay_serves}
use rsync_proxy.Relay.Outer.{IsOrdinary}

abbrev status : Bool → Bool → Status
status ok full = record { index = pos 0; max = pos 1; ok = ok; full = full }

abbrev configured : Server
configured = (load_config calm (with_limit (pos 1)) true fresh).0

-- The module `foo` is asked for, and the upstream cannot be reached.
abbrev setting : Status → List QueueEvent → Setting
setting first events = record {
  index = 4;
  motd = codes "hello";
  client = tcp (203 ∷ 0 ∷ 113 ∷ 7 ∷ []) 50000;
  client_ip = 203 ∷ 0 ∷ 113 ∷ 7 ∷ [];
  at_lookup = configured;
  at_queue = configured;
  first_status = first;
  events = events;
  queue_max = pos 1;
  dial = λ addr. false;
  upstream_addr = tcp (10 ∷ 0 ∷ 0 ∷ 1 ∷ []) 873;
  ip_string = λ ip. codes "ip";
  one_ends = true;
  both_end = true;
  received_first = true;
  sent_bytes = 10;
  received_bytes = 20;
}

abbrev pub asks_foo : Session
asks_foo = record {
  client_in =
      record { bytes = codes "@RSYNCD: 31.0\n"; fails = false }
      ∷ record { bytes = codes "foo\n"; fails = false }
      ∷ [];
  upstream_in = [];
  client_writes = [];
  upstream_writes = [];
  effects = [];
}

abbrev pub at_once : Setting
at_once = setting (status true false) []

abbrev in_line : Setting
in_line = setting (status false false) (minute ∷ told (status false false) ∷ [])

relay-IsBalanced_example :
    ((relay at_once asks_foo).0 ≡ blocked)
    ⊎ ((es : List Effect) × ((relay at_once asks_foo).1.effects ≡ asks_foo.effects ++ es)
        × IsBalanced (slots es))
relay-IsBalanced_example = relay-IsBalanced at_once asks_foo

relay_waits_for_grant_example :
    (es : List Effect) × ((relay in_line asks_foo).1.effects ≡ asks_foo.effects ++ es)
    × All (λ e. touches_upstream e ≡ false) es
relay_waits_for_grant_example = relay_waits_for_grant in_line asks_foo refl (refl, tt)

pub not_reached : (relay at_once asks_foo).0 ≡ failed dial_failed
unfolding load_config check_tls collect_upstreams lookup sort_strings discover_configured_modules
    open_logs set_file install resolve_upstreams build_module_targets insert update_upstream_queues
    queue_for relay ◌>>=◌ ◌>>◌ return fail tell tell_all finally write_client try_write_client
    read_client read_line handshake serve_request serve_module pick_target
    choose_target_by_client_ip serve_target with_slot queue_up connect
not_reached = refl

counted : All (λ x. length x.1 < 2 ^ 32) configured.modules
unfolding load_config check_tls collect_upstreams lookup sort_strings discover_configured_modules
    open_logs set_file install resolve_upstreams build_module_targets insert update_upstream_queues
    queue_for
counted = (omega arith, tt)

relay-IsOrdinary_example : IsOrdinary dial_failed
relay-IsOrdinary_example =
    relay-IsOrdinary calm (with_limit (pos 1)) true fresh at_once asks_foo dial_failed loads counted
      refl refl not_reached

-- The same with an upstream that answers, and no message.
abbrev pub open_setting : Setting
open_setting = record at_once { motd = []; dial = λ addr. true }

abbrev pub hello : Chunk
hello = record { bytes = codes "@RSYNCD: 31.0\n"; fails = false }

abbrev pub foo_line : Chunk
foo_line = record { bytes = codes "foo\n"; fails = false }

abbrev mirror : Target
mirror = record { upstream = codes "u"; addr = codes "10.0.0.1:873"; use_proxy_protocol = false }

open_setting-IsServed : IsServed open_setting mirror (mirror ∷ []) 0 (codes "foo")
unfolding load_config check_tls collect_upstreams lookup sort_strings discover_configured_modules
    open_logs set_file install resolve_upstreams build_module_targets insert update_upstream_queues
    queue_for pick_target choose_target_by_client_ip
open_setting-IsServed = record {
  listed = refl;
  picked = refl;
  queue = refl;
  wanted = refl;
  granted = refl;
  reachable = refl;
  direct = refl;
  quiet = refl;
  one_ends = refl;
  both_end = refl;
  upstream_first = refl;
}

reads_hello :
    (rest : List Chunk)
    → read_line 256 (hello ∷ rest)
      ≡ record { line = codes "@RSYNCD: 31.0\n"; failed = false; rest = rest }
unfolding read_line
reads_hello rest = refl

reads_foo :
    read_line 256 (foo_line ∷ [])
    ≡ record { line = codes "foo" ++ b'\n' ∷ []; failed = false; rest = [] }
unfolding read_line
reads_foo = refl

nothing_follows : after_line_feed (codes "@RSYNCD: 31.0\n") (codes "@RSYNCD: 31.0\n") ≡ []
unfolding after_line_feed
nothing_follows = refl

relay_serves_example : relay open_setting (session (hello ∷ foo_line ∷ []) (hello ∷ []) []) ≡ (
  done tt,
  session [] [] (served_effects open_setting mirror 0 (codes "foo") (codes "@RSYNCD: 31.0\n")),
)
relay_serves_example =
    relay_serves open_setting mirror (mirror ∷ []) 0 (codes "foo") (codes "@RSYNCD: 31.0\n")
      (codes "@RSYNCD: 31.0\n") (hello ∷ foo_line ∷ []) (foo_line ∷ []) [] (hello ∷ []) []
      open_setting-IsServed (λ e. cc) (reads_hello (foo_line ∷ [])) refl reads_foo (reads_hello [])
      refl nothing_follows

-- The same run.
pub serves : (relay open_setting (session (hello ∷ foo_line ∷ []) (hello ∷ []) [])).0 ≡ done tt
serves =
    ap (λ p. p.0)
      (relay_serves open_setting mirror (mirror ∷ []) 0 (codes "foo") (codes "@RSYNCD: 31.0\n")
        (codes "@RSYNCD: 31.0\n") (hello ∷ foo_line ∷ []) (foo_line ∷ []) [] (hello ∷ []) []
        open_setting-IsServed (λ e. cc) (reads_hello (foo_line ∷ [])) refl reads_foo
        (reads_hello []) refl nothing_follows)
