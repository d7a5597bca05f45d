-- ===== src/Client/Start.antt =====
-- cmd/cmd.go: the root command, which loads the configuration, listens and then runs the server.
use rsync_proxy.Base.{
  ◌≡◌, refl, sym, ap, subst, ◌∙◌, ◌⊎◌, inl, inr, Bool, true, false, Option, none, some, arith,
  if◌then◌else◌, Bytes,
}
use rsync_proxy.Http.{ConfigFile, ReadError, read_config_from_file}
use rsync_proxy.Http.Answers.{read_cases, served-HasQueues, IsLoaded}
use rsync_proxy.Listeners.{
  Net, Listening, ListenError, listen, listen_tls, listen_http, listen_tcp_or_unix, Sockets,
}
use rsync_proxy.Listeners.Balance.{IsFresh, Balanced, listen-Balanced}
use rsync_proxy.Server.{Server, World}
use rsync_proxy.Server.Load.{served}
use rsync_proxy.Server.Queues.{HasQueues, load_config-HasQueues}

-- How the command goes on: it prints the version, fails, or calls `Run`.
pub data Started : Type 0 where
  prints_version : Started
  load_config_failed : ReadError → Listening → Started
  server_listen_failed : ListenError → Listening → Started
  runs : Listening → Started

abbrev pub after_listen : Listening × Option ListenError → Started
after_listen (x, none) = runs x
after_listen (x, some e) = server_listen_failed e x

abbrev pub after_load : Net → Listening → Server × Option ReadError → Started
after_load n x (s, none) = after_listen (listen n (record x { server = s }))
after_load n x (s, some e) = load_config_failed e (record x { server = s })

-- `RunE` of the root command
unfoldable pub root_command : Bool → ConfigFile → World → Net → Listening → Started
unfolding read_config_from_file listen
root_command version f w n x =
    let r = read_config_from_file f w true x.server in
    if version then prints_version else after_load n x r

pub listen-served : (n : Net) (x : Listening) → served (listen n x).0.server ≡ served x.server
unfolding listen listen_tls listen_http
listen-served n x = ground arith

listen-sets :
    (n : Net) (x : Listening)
    → (listen n x).1 ≡ none
    → ((listen n x).0.server.tcp_listener ≡ true) × ((listen n x).0.server.http_listener ≡ true)
unfolding listen listen_tls listen_http listen_tcp_or_unix
listen-sets n x h = ground arith

-- A server that is to run has its listeners and serves a configuration; one that failed has left no
-- socket open.
abbrev pub IsFine : Listening → Started → Type 0
IsFine x prints_version = ⊥
IsFine x (load_config_failed e y) = y.sockets ≡ x.sockets
IsFine x (server_listen_failed e y) = y.sockets.opened ≡ x.sockets.opened
IsFine x (runs y) =
    HasQueues y.server × (y.server.tcp_listener ≡ true) × (y.server.http_listener ≡ true)

module _ (n : Net) (good : (addr : Bytes) → n.chmods addr ≡ true) (x : Listening)
    (fresh : IsFresh x.sockets) where
  after_listen-IsFine :
      (y : Listening) (r : Listening × Option ListenError)
      → y.sockets ≡ x.sockets
      → HasQueues y.server
      → listen n y ≡ r
      → IsFine x (after_listen r)
  after_listen-IsFine y (z, none) same queues e =
      let set = listen-sets n y (ap (λ r. r.1) e) in
      (
        subst (λ r. HasQueues r.0.server) e
            (served-HasQueues y.server (listen n y).0.server (listen-served n y) queues),
        ap (λ r. r.0.server.tcp_listener) (sym e) ∙ set.0,
        ap (λ r. r.0.server.http_listener) (sym e) ∙ set.1,
      )
  after_listen-IsFine y (z, some err) same queues e =
      elim (subst (Balanced y.sockets.opened) e
        (listen-Balanced n y good (subst IsFresh (sym same) fresh)).0) [
          | inl (fine, shut) ↦ absurd cc
          | inr (failed, shut) ↦ shut ∙ ap (λ (k : Sockets). k.opened) same
        ]

  after_load-IsFine :
      (f : ConfigFile) (w : World) (r : Server × Option ReadError)
      → ((e : ReadError) × (r.1 ≡ some e) × (served r.0 ≡ served x.server))
        ⊎ ((r.1 ≡ none) × IsLoaded f w x.server r.0)
      → IsFine x (after_load n x r)
  after_load-IsFine f w (s, some e) h = refl
  after_load-IsFine f w (s, none) (inl (e, clash, same)) = absurd cc
  after_load-IsFine f w (s, none) (inr (fine, (c, is, loaded))) =
      after_listen-IsFine (record x { server = s }) (listen n (record x { server = s })) refl
        (subst HasQueues (ap (λ p. p.0) loaded)
          (load_config-HasQueues w c true x.server (ap (λ p. p.1) loaded)))
        refl

-- If the open sockets have numbers below the next one, and `os.Chmod` does not fail: the root command
-- without its version flag comes to `Run` only with a configuration in which every target of every
-- module has a queue, and with both listeners; where it fails, it leaves open what was open before.
pub root_command-IsFine :
    (f : ConfigFile) (w : World) (n : Net) (x : Listening)
    → ((addr : Bytes) → n.chmods addr ≡ true)
    → IsFresh x.sockets
    → IsFine x (root_command false f w n x)
unfolding root_command
root_command-IsFine f w n x good fresh =
    after_load-IsFine n good x fresh f w (read_config_from_file f w true x.server)
      (read_cases f w x.server)
