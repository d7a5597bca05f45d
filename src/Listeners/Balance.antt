-- ===== src/Listeners/Balance.antt =====
-- No socket is left open by mistake.
use rsync_proxy.Base.{
  ℕ, ◌+◌, ◌<◌, ◌≡◌, refl, ◌⊎◌, inl, inr, true, false, Option, none, some, List, [], ◌∷◌, arith,
  Bool-cases, Bytes, codes, bytes_beq, has_prefix, All, All-imp,
}
use rsync_proxy.Listeners.{
  remove_path, Net, Sockets, Listening, ListenError, tcp_failed, tls_failed, http_failed,
  drop_socket, close_socket, open_socket, listen_tcp_or_unix, listen_http, listen_tls, listen,
  close_listeners,
}

-- Sockets have numbers below the next one.
abbrev pub IsFresh : Sockets → Type 0
IsFresh k = All (λ l. l < k.next) k.opened

drop_socket-above : (l : ℕ) (xs : List ℕ) → All (λ x. x < l) xs → drop_socket l xs ≡ xs
unfolding drop_socket
drop_socket-above l [] h = refl
drop_socket-above l (x ∷ xs) h = ground (arith, drop_socket-above l xs h.1)

-- What was opened last is taken out first or second.
drop_first : (l : ℕ) (xs : List ℕ) → All (λ x. x < l) xs → drop_socket l (l ∷ xs) ≡ xs
unfolding drop_socket
drop_first l xs h = ground (arith, drop_socket-above l xs h)

drop_second :
    (l : ℕ) (xs : List ℕ) → All (λ x. x < l) xs → drop_socket l ((l + 1) ∷ l ∷ xs) ≡ (l + 1) ∷ xs
unfolding drop_socket
drop_second l xs h = ground (arith, drop_socket-above l xs h)

drop_third :
    (l : ℕ) (xs : List ℕ)
    → All (λ x. x < l) xs
    → drop_socket l ((l + 1 + 1) ∷ (l + 1) ∷ l ∷ xs) ≡ (l + 1 + 1) ∷ (l + 1) ∷ xs
unfolding drop_socket
drop_third l xs h = ground (arith, drop_socket-above l xs h)

up_one : (l : ℕ) (xs : List ℕ) → All (λ x. x < l) xs → All (λ x. x < l + 1) xs
up_one l xs h = All-imp (λ x. x < l) (λ x. x < l + 1) (λ x b. omega arith) xs h

-- What `Listen` leaves, with `base` open before it.
abbrev pub Balanced : List ℕ → Listening × Option ListenError → Type 0
Balanced base (t, e) =
    ((e ≡ none) × ((close_listeners t).sockets.opened ≡ base))
    ⊎ (((x : ListenError) × (e ≡ some x)) × (t.sockets.opened ≡ base))

module _ (n : Net) (good : (addr : Bytes) → n.chmods addr ≡ true) where
  -- It fails, or there is one more socket; `r` is what was removed by then.
  listen_cases :
      (addr : Bytes) (k : Sockets)
      → ((r : List Bytes) × (listen_tcp_or_unix n addr k
            ≡ record { listener = none; failed = true; sockets = record k { removed = r } }))
        ⊎ ((r : List Bytes) × (listen_tcp_or_unix n addr k ≡ record {
          listener = some k.next;
          failed = false;
          sockets = open_socket (record k { removed = r });
        }))
  unfolding listen_tcp_or_unix
  listen_cases addr k = elim (Bool-cases (has_prefix addr (codes "/"))) [
    | inl unix ↦ elim (Bool-cases (n.listens (remove_path addr k) addr)) [
      | inr fails ↦ inl (addr ∷ k.removed, rw (unix, fails) refl)
      | inl works ↦ inr (addr ∷ k.removed, rw (unix, works, good addr) refl)
    ]
    | inr tcp ↦ elim (Bool-cases (n.listens k addr)) [
      | inr fails ↦ inl (k.removed, rw (tcp, fails) refl)
      | inl works ↦ inr (k.removed, rw (tcp, works) refl)
    ]
  ]

  -- Without the TLS listener, and with it.
  listen_http-one :
      (l : ℕ) (base : List ℕ) (r : List Bytes) (x : Listening)
      → All (λ s. s < l) base
      → x.sockets ≡ record { opened = l ∷ base; next = l + 1; removed = r }
      → Balanced base (listen_http n (some l) none x)
  unfolding listen_http close_socket close_listeners
  listen_http-one l base r x h e = elim (listen_cases x.server.http_listen_addr x.sockets) [
    | inl (s, fails) ↦ rw fails (inr ((http_failed, refl), rw (e, drop_first l base h) refl))
    | inr (s, works) ↦
        rw works
          (inl (refl, rw (e, drop_second l base h, drop_first (l + 1) base (up_one l base h)) refl))
  ]

  listen_http-two :
      (l : ℕ) (base : List ℕ) (r : List Bytes) (x : Listening)
      → All (λ s. s < l) base
      → x.sockets ≡ record { opened = (l + 1) ∷ l ∷ base; next = l + 1 + 1; removed = r }
      → Balanced base (listen_http n (some l) (some (l + 1)) x)
  unfolding listen_http close_socket close_listeners
  listen_http-two l base r x h e =
      let h1 = up_one l base h in
      let h2 = up_one (l + 1) base h1 in
      elim (listen_cases x.server.http_listen_addr x.sockets) [
        | inl (s, fails) ↦ rw fails (
            inr
              ((http_failed, refl), rw (e, drop_second l base h, drop_first (l + 1) base h1) refl))
        | inr (s, works) ↦ rw works (
            inl (
              refl,
              rw
                  (
                    e,
                    drop_third l base h,
                    drop_second (l + 1) base h1,
                    drop_first (l + 1 + 1) base h2,
                  )
                  refl,
            ))
      ]

  listen_tls-Balanced :
      (l : ℕ) (base : List ℕ) (r : List Bytes) (x : Listening)
      → All (λ s. s < l) base
      → x.sockets ≡ record { opened = l ∷ base; next = l + 1; removed = r }
      → Balanced base (listen_tls n (some l) x)
  unfolding listen_tls close_socket
  listen_tls-Balanced l base r x h e = elim (Bool-cases (bytes_beq x.server.tls_listen_addr [])) [
    | inl unset ↦ rw unset (listen_http-one l base r x h e)
    | inr set ↦ rw set (elim (listen_cases x.server.tls_listen_addr x.sockets) [
      | inl (s, fails) ↦ rw fails (inr ((tls_failed, refl), rw (e, drop_first l base h) refl))
      | inr (s, works) ↦
          rw (works, e)
            (listen_http-two l base s
              (record x {
                server = record x.server { tls_listen_addr = n.addr_of x.server.tls_listen_addr };
                sockets = record { opened = (l + 1) ∷ l ∷ base; next = l + 1 + 1; removed = s };
              })
              h refl)
    ])
  ]

  listen_ends : (x : Listening) → IsFresh x.sockets → Balanced x.sockets.opened (listen n x)
  unfolding listen
  listen_ends x h = elim (listen_cases x.server.listen_addr x.sockets) [
    | inl (s, fails) ↦ rw fails (inr ((tcp_failed, refl), refl))
    | inr (s, works) ↦ rw works (
        listen_tls-Balanced x.sockets.next x.sockets.opened s
          (record x {
            server = record x.server { listen_addr = n.addr_of x.server.listen_addr };
            sockets = open_socket (record x.sockets { removed = s });
          })
          h refl)
  ]

module _ (n : Net) (works : (k : Sockets) (addr : Bytes) → n.listens k addr ≡ true)
    (good : (addr : Bytes) → n.chmods addr ≡ true) where
  listen_works : (addr : Bytes) (k : Sockets) → (listen_tcp_or_unix n addr k).failed ≡ false
  unfolding listen_tcp_or_unix
  listen_works addr k = ground (arith, works k addr, works (remove_path addr k) addr, good addr)

  listen_http_works : (l1 l_tls : Option ℕ) (x : Listening) → (listen_http n l1 l_tls x).1 ≡ none
  unfolding listen_http
  listen_http_works l1 l_tls x = rw (listen_works x.server.http_listen_addr x.sockets) refl

  listen_tls_works : (l1 : Option ℕ) (x : Listening) → (listen_tls n l1 x).1 ≡ none
  unfolding listen_tls
  listen_tls_works l1 x =
      let o = listen_tcp_or_unix n x.server.tls_listen_addr x.sockets in
      elim (Bool-cases (bytes_beq x.server.tls_listen_addr [])) [
        | inl unset ↦ rw unset (listen_http_works l1 none x)
        | inr set ↦
            rw (set, listen_works x.server.tls_listen_addr x.sockets)
              (listen_http_works l1 o.listener (record x {
                server = record x.server { tls_listen_addr = n.addr_of x.server.tls_listen_addr };
                sockets = o.sockets;
              }))
      ]

  -- When every address can be listened on, `Listen` has no error.
  listen_succeeds : (x : Listening) → (listen n x).1 ≡ none
  unfolding listen
  listen_succeeds x =
      let o = listen_tcp_or_unix n x.server.listen_addr x.sockets in
      rw (listen_works x.server.listen_addr x.sockets) (
        listen_tls_works o.listener (record x {
          server = record x.server { listen_addr = n.addr_of x.server.listen_addr };
          sockets = o.sockets;
        }))

-- If the sockets that are open have numbers below the next one, and `os.Chmod` does not fail: after
-- `Listen` without an error, `Close` leaves open what was open before; after one with an error,
-- nothing but that is open. When every address can always be
-- listened on, there is no error.
pub listen-Balanced :
    (n : Net) (x : Listening)
    → ((addr : Bytes) → n.chmods addr ≡ true)
    → IsFresh x.sockets
    → Balanced x.sockets.opened (listen n x)
      × (((k : Sockets) (addr : Bytes) → n.listens k addr ≡ true) → (listen n x).1 ≡ none)
listen-Balanced n x good h = (listen_ends n good x h, λ works. listen_succeeds n works good x)

-- When the first address is a Unix socket that, once its path is removed, can be listened on, but of which `os.Chmod` fails,
-- and the server has no listener yet, `Listen` fails, and the `Close` after it leaves that socket
-- open beside those that were open before.
pub listen_leaks :
    (n : Net) (x : Listening)
    → IsFresh x.sockets
    → x.tcp ≡ none
    → x.tls ≡ none
    → x.http ≡ none
    → has_prefix x.server.listen_addr (codes "/") ≡ true
    → n.listens (remove_path x.server.listen_addr x.sockets) x.server.listen_addr ≡ true
    → n.chmods x.server.listen_addr ≡ false
    → ((listen n x).1 ≡ some tcp_failed)
      × ((close_listeners (listen n x).0).sockets.opened ≡ x.sockets.next ∷ x.sockets.opened)
unfolding listen listen_tcp_or_unix close_socket close_listeners
listen_leaks n x h no_tcp no_tls no_http unix works fails =
    (rw (unix, works, fails) refl, rw (unix, works, fails) (rw (no_tcp, no_tls, no_http) refl))
