-- ===== src/Client/Running.antt =====
-- The server that the root command starts, whatever is asked of it: its queues and its certificate.
use rsync_proxy.Base.{
  ℕ, ◌≡◌, refl, sym, ap, subst, ◌∙◌, ◌⊎◌, inl, inr, true, false, Option, none, some, List, [], ◌∷◌,
  arith, Bool-cases, Option-cases, codes, bytes_beq, bytes_beq_iff,
}
use rsync_proxy.Counters.{Counters}
use rsync_proxy.Client.Start.{runs, after_listen, after_load, root_command, listen-served}
use rsync_proxy.Http.{
  Outside, ConfigFile, not_opened, not_decoded, decoded, ReadError, serve, reload, load_result,
  read_config_from_file,
}
use rsync_proxy.Http.Messages.{Request}
use rsync_proxy.Http.Answers.{
  Asked, serve_all, serve_all-keeps, read_cases, served-HasQueues, serve-elsewhere, serve-reload,
}
use rsync_proxy.Listeners.{
  Net, Listening, ListenError, listen, listen_tls, listen_http, listen_tcp_or_unix,
}
use rsync_proxy.Server.Queues.{HasQueues, load_config-HasQueues}
use rsync_proxy.Server.{Server, World, LoadError, load_config}
use rsync_proxy.Server.Certificate.{
  get_tls_certificate, IsCertified, IsPrepared, load_config-IsPrepared, load_config-IsCertified,
}

listen-address :
    (n : Net) (x : Listening)
    → (listen n x).1 ≡ none
    → (listen n x).0.server.tls_listener ≡ true
    → bytes_beq x.server.tls_listen_addr [] ≡ false
unfolding listen listen_tls listen_http listen_tcp_or_unix
listen-address n x e listens = ground arith

listen-IsCertified :
    (n : Net) (x : Listening)
    → IsPrepared x.server
    → (listen n x).1 ≡ none
    → IsCertified (listen n x).0.server
unfolding get_tls_certificate
listen-IsCertified n x h e listens missing =
    h (listen-address n x e listens) (sym (ap (λ v. v.5) (listen-served n x)) ∙ missing)

read-IsCertified :
    (f : ConfigFile) (w : World) (s : Server)
    → IsCertified s
    → IsCertified (read_config_from_file f w true s).0
unfolding read_config_from_file
read-IsCertified not_opened w s h = h
read-IsCertified not_decoded w s h = h
read-IsCertified (decoded c) w s h =
    from_load (load_config w c true s) (load_config-IsCertified w c true s h)
  where
    from_load : (p : Server × Option LoadError) → IsCertified p.0 → IsCertified (load_result p).0
    from_load (t, none) k = k
    from_load (t, some e) k = k

reload-IsCertified :
    (o : Outside) (s : Server) (r : Request) → IsCertified s → IsCertified (reload o s r).1
unfolding reload
reload-IsCertified o s r h = elim (Bool-cases (bytes_beq r.method (codes "POST"))) [
  | inr other ↦ rw other h
  | inl post ↦ rw post (read-IsCertified o.config_file o.world s h)
]

serve-IsCertified :
    (o : Outside) (c : Counters) (s : Server) (r : Request)
    → IsCertified s
    → IsCertified (serve o c s r).1
serve-IsCertified o c s r h = elim (Bool-cases (bytes_beq r.path (codes "/reload"))) [
  | inl hit ↦
      subst (λ p. IsCertified p.1)
        (sym (serve-reload o c s r ((bytes_beq_iff r.path (codes "/reload")).0 hit)))
        (reload-IsCertified o s r h)
  | inr miss ↦ subst IsCertified (sym (serve-elsewhere o c s r miss)) h
]

serve_all-IsCertified :
    (asked : List Asked) (s : Server) → IsCertified s → IsCertified (serve_all asked s)
unfolding serve_all
serve_all-IsCertified [] s h = h
serve_all-IsCertified (a ∷ rest) s h =
    serve_all-IsCertified rest (serve a.outside a.counters s a.request).1
      (serve-IsCertified a.outside a.counters s a.request h)

-- The command gets to `Run` by a load and a `Listen` without an error.
after_listen_runs :
    (x y : Listening) (r : Listening × Option ListenError)
    → after_listen r ≡ runs y
    → (r.1 ≡ none) × (r.0 ≡ y)
after_listen_runs x y (z, some err) ran = absurd (cc)
after_listen_runs x y (z, none) ran = (refl, cc)

after_load_runs :
    (n : Net) (x y : Listening) (r : Server × Option ReadError)
    → after_load n x r ≡ runs y
    → (r.1 ≡ none)
      × ((listen n (record x { server = r.0 })).1 ≡ none)
      × ((listen n (record x { server = r.0 })).0 ≡ y)
after_load_runs n x y (s, some e) ran = absurd (cc)
after_load_runs n x y (s, none) ran =
    let (listened, there) = after_listen_runs x y (listen n (record x { server = s })) ran in
    (refl, listened, there)

-- What the load leaves.
abbrev HasLoaded : Server → Type 0
HasLoaded s = HasQueues s × IsPrepared s

read-HasLoaded :
    (f : ConfigFile) (w : World) (s : Server)
    → s.tls_listen_addr ≡ []
    → (read_config_from_file f w true s).1 ≡ none
    → HasLoaded (read_config_from_file f w true s).0
read-HasLoaded f w s unset e = elim (read_cases f w s) [
  | inl (x, failed, same) ↦ absurd (cc)
  | inr (fine, (c, is, loaded)) ↦
      let no_error = ap (λ p. p.1) loaded in
      subst HasLoaded (ap (λ p. p.0) loaded) (
        load_config-HasQueues w c true s no_error,
        load_config-IsPrepared w c true s unset no_error,
      )
]

-- When it runs.
runs-IsReady :
    (f : ConfigFile) (w : World) (n : Net) (x y : Listening)
    → x.server.tls_listen_addr ≡ []
    → root_command false f w n x ≡ runs y
    → HasQueues y.server × IsCertified y.server
unfolding root_command
runs-IsReady f w n x y unset ran =
    let r = read_config_from_file f w true x.server in
    let (read, listened, there) = after_load_runs n x y r ran in
    let (queues, prepared) = read-HasLoaded f w x.server unset read in
    let z : Listening = record x { server = r.0 } in
    subst (λ (u : Listening). HasQueues u.server × IsCertified u.server) there
      (
        served-HasQueues z.server (listen n z).0.server (listen-served n z) queues,
        listen-IsCertified n z prepared listened,
      )

-- If the server that the root command starts with has no address for TLS, and the command comes to
-- `Run`: whatever is asked of the server then, reloads that fail or succeed included, every target of
-- every module has a queue, and either there is no TLS listener or `getTLSCertificate` has a
-- certificate for its connections.
pub running-IsReady :
    (f : ConfigFile) (w : World) (n : Net) (x y : Listening) (asked : List Asked)
    → x.server.tls_listen_addr ≡ []
    → root_command false f w n x ≡ runs y
    → let s = serve_all asked y.server in
      HasQueues s × ((s.tls_listener ≡ false) ⊎ ((cert : ℕ) × (get_tls_certificate s ≡ some cert)))
running-IsReady f w n x y asked unset ran =
    let (queues, certified) = runs-IsReady f w n x y unset ran in
    let s = serve_all asked y.server in
    (
      serve_all-keeps asked y.server queues,
      elim (Bool-cases s.tls_listener) [
        | inr off ↦ inl off
        | inl on ↦ elim (Option-cases (get_tls_certificate s)) [
          | inl missing ↦ absurd (serve_all-IsCertified asked y.server certified on missing)
          | inr found ↦ inr found
        ]
      ],
    )
