-- ===== src/Listeners.antt =====
-- pkg/server/server.go and utils.go: the listening sockets of the server, from `Listen` to `Close`, and
-- the loops that accept connections. What the system answers is given.
pub mod Balance
pub mod Run
use rsync_proxy.Base.{
  ℕ, suc, ◌+◌, ◌-◌, ◌/◌, Bool, true, false, not, Option, none, some, List, [], ◌∷◌, ◌==◌,
  if◌then◌else◌, Bytes, codes, bytes_beq, has_prefix, drop,
}
use rsync_proxy.Server.{Server}

-- The open sockets, the next number for one, and the paths that were removed for a Unix socket, the
-- last one first.
pub record Sockets : Type 0 where
  pub opened : List ℕ
  pub next : ℕ
  pub removed : List Bytes

-- Whether `net.Listen` succeeds for an address with these sockets, and `os.Chmod` for one, and what
-- `Addr().String()` says then.
pub record Net : Type 0 where
  pub listens : Sockets → Bytes → Bool
  pub chmods : Bytes → Bool
  pub addr_of : Bytes → Bytes

unfoldable pub drop_socket : ℕ → List ℕ → List ℕ
drop_socket l [] = []
drop_socket l (x ∷ xs) = let rest = drop_socket l xs in if x == l then rest else x ∷ rest

-- `Listener.Close`, where the listener is not nil.
unfoldable pub close_socket : Option ℕ → Sockets → Sockets
unfolding drop_socket
close_socket none k = k
close_socket (some l) k = record k { opened = drop_socket l k.opened }

abbrev pub open_socket : Sockets → Sockets
open_socket k = record k { opened = k.next ∷ k.opened; next = k.next + 1 }

-- `os.Remove`, whose error is dropped.
abbrev pub remove_path : Bytes → Sockets → Sockets
remove_path addr k = record k { removed = addr ∷ k.removed }

-- What `listenTCPOrUnix` returns: a listener, whether there is an error, and the sockets.
pub record Opened : Type 0 where
  pub listener : Option ℕ
  pub failed : Bool
  pub sockets : Sockets

-- `listenTCPOrUnix`: with an error of `os.Chmod` it returns the listener as well.
unfoldable pub listen_tcp_or_unix : Net → Bytes → Sockets → Opened
listen_tcp_or_unix n addr k =
    let freed = remove_path addr k in
    if has_prefix addr (codes "/")
    then (if not (n.listens freed addr)
        then record { listener = none; failed = true; sockets = freed }
        else record {
          listener = some freed.next;
          failed = not (n.chmods addr);
          sockets = open_socket freed;
        })
    else if not (n.listens k addr)
    then record { listener = none; failed = true; sockets = k }
    else record { listener = some k.next; failed = false; sockets = open_socket k }

pub data ListenError : Type 0 where
  tcp_failed tls_failed http_failed : ListenError

-- The server with its three listeners.
pub record Listening : Type 0 where
  pub server : Server
  pub tcp : Option ℕ
  pub tls : Option ℕ
  pub http : Option ℕ
  pub sockets : Sockets

abbrev is_some {ℓ} : {A : Type ℓ} → Option A → Bool
is_some none = false
is_some (some a) = true

-- The last assignments of `Listen`.
abbrev set_listeners : Option ℕ → Option ℕ → Option ℕ → Listening → Listening
set_listeners l1 l_tls l2 x = record x {
  server = record x.server {
    tcp_listener = is_some l1;
    tls_listener = is_some l_tls;
    http_listener = is_some l2;
  };
  tcp = l1;
  tls = l_tls;
  http = l2;
}

-- The HTTP listener; with an error the others are closed.
unfoldable pub listen_http : Net → Option ℕ → Option ℕ → Listening → Listening × Option ListenError
unfolding listen_tcp_or_unix close_socket
listen_http n l1 l_tls x =
    let o = listen_tcp_or_unix n x.server.http_listen_addr x.sockets in
    if o.failed
    then (record x { sockets = close_socket l_tls (close_socket l1 o.sockets) }, some http_failed)
    else (
      set_listeners l1 l_tls o.listener (record x {
        server = record x.server { http_listen_addr = n.addr_of x.server.http_listen_addr };
        sockets = o.sockets;
      }),
      none,
    )

-- The TLS listener, where an address is set for it.
unfoldable pub listen_tls : Net → Option ℕ → Listening → Listening × Option ListenError
unfolding listen_http
listen_tls n l1 x =
    let o = listen_tcp_or_unix n x.server.tls_listen_addr x.sockets in
    if bytes_beq x.server.tls_listen_addr []
    then listen_http n l1 none x
    else if o.failed
    then (record x { sockets = close_socket l1 o.sockets }, some tls_failed)
    else listen_http n l1 o.listener (record x {
      server = record x.server { tls_listen_addr = n.addr_of x.server.tls_listen_addr };
      sockets = o.sockets;
    })

-- `Listen`
unfoldable pub listen : Net → Listening → Listening × Option ListenError
unfolding listen_tls
listen n x =
    let o = listen_tcp_or_unix n x.server.listen_addr x.sockets in
    if o.failed
    then (record x { sockets = o.sockets }, some tcp_failed)
    else listen_tls n o.listener (record x {
      server = record x.server { listen_addr = n.addr_of x.server.listen_addr };
      sockets = o.sockets;
    })

-- `Close`
unfoldable pub close_listeners : Listening → Listening
unfolding close_socket
close_listeners x = record x {
  sockets = close_socket x.http (close_socket x.tls (close_socket x.tcp x.sockets));
}

-- What `Accept` returns: a connection, `net.ErrClosed`, or another error.
pub data Accepted : Type 0 where
  accepted : ℕ → Accepted
  listener_closed : Accepted
  accept_failed : Accepted

-- How `runRsyncServer` ends.
pub data Served : Type 0 where
  still_accepting : Served
  ended : Served
  broken : Served

-- `runRsyncServer`: the connections that are handed to `handleConn`, and how it ends.
unfoldable pub run_rsync_server : List Accepted → List ℕ × Served
run_rsync_server [] = ([], still_accepting)
run_rsync_server (accepted conn ∷ rest) =
    let (conns, end) = run_rsync_server rest in (conn ∷ conns, end)
run_rsync_server (listener_closed ∷ rest) = ([], ended)
run_rsync_server (accept_failed ∷ rest) = ([], broken)
