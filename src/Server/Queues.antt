-- ===== src/Server/Queues.antt =====
-- Every target that the server routes to has its queue.
use rsync_proxy.Base.{
  sort_strings, Bool, All-mem, bytes_beq_iff, ◌∙◌, bytes_beq, lookup-insert, subst, sym, insert,
  All, Bool-cases, Option, Option-cases, none, if◌then◌else◌, ℕ, ◌≡◌, refl, ap, ◌⊎◌, inl, inr, true,
  some, List, [], ◌∷◌, Memᴰ, arith, Bytes, bytes_eq, lookup,
}
use mathlib.Core.List.Memᴰ as MemD
use rsync_proxy.Routing.{Target, UpstreamConfig, resolve_upstreams}
use rsync_proxy.Routing.Targets.{targets_of, listed, if_any, lookup-build_module_targets}
use rsync_proxy.Server.Load.{served, open_logs-served}
use rsync_proxy.Server.{
  keys, Server, World, LoadError, QueueHeap, Checked, good, bad, check_tls, collect_upstreams,
  discover_configured_modules, open_logs, install, set_addresses, load_config, queue_for,
  update_upstream_queues, upstream_config, cons_config, validate_tcp_or_unix_addr,
}
use rsync_proxy.Server.Settings.{Config, Upstream}

-- Every upstream that `loadConfig` reads names itself in its target.
abbrev NamesItself : UpstreamConfig → Type 0
NamesItself u = u.target.upstream ≡ u.name

good-injective {ℓ} : {A : Type ℓ} (a b : A) → good a ≡ good b → a ≡ b
good-injective a b e = cc

cons_config-good :
    (u : UpstreamConfig) (m : Checked (List UpstreamConfig)) (us : List UpstreamConfig)
    → cons_config u m ≡ good us
    → (vs : List UpstreamConfig) × (m ≡ good vs) × (us ≡ u ∷ vs)
cons_config-good u (good vs) us h = (vs, refl, ground arith)
cons_config-good u (bad e) us h = cc

collect_missing :
    (w : World) (ups : List (Bytes × Upstream)) (name : Bytes) (names : List Bytes)
    (us : List UpstreamConfig)
    → lookup name ups ≡ none
    → collect_upstreams w ups (name ∷ names) ≡ good us
    → ⊥
unfolding collect_upstreams
collect_missing w ups name names us e h = ground arith

collect_entry :
    (w : World) (ups : List (Bytes × Upstream)) (name : Bytes) (names : List Bytes)
    (us : List UpstreamConfig) (v : Upstream)
    → lookup name ups ≡ some v
    → collect_upstreams w ups (name ∷ names) ≡ good us
    → (validate_tcp_or_unix_addr w v.address ≡ true)
      × (cons_config (upstream_config name v) (collect_upstreams w ups names) ≡ good us)
unfolding collect_upstreams
collect_entry w ups name names us v e h = ground arith

pub collect-step :
    (w : World) (ups : List (Bytes × Upstream)) (name : Bytes) (names : List Bytes)
    (us : List UpstreamConfig)
    → collect_upstreams w ups (name ∷ names) ≡ good us
    → (v : Upstream) × (vs : List UpstreamConfig) × (lookup name ups ≡ some v)
      × (validate_tcp_or_unix_addr w v.address ≡ true)
      × (collect_upstreams w ups names ≡ good vs)
      × (us ≡ upstream_config name v ∷ vs)
collect-step w ups name names us h = elim (Option-cases (lookup name ups)) [
  | inl missing ↦ absurd (collect_missing w ups name names us missing h)
  | inr (v, found) ↦
      let (valid, rest) = collect_entry w ups name names us v found h in
      let (vs, later, us_is) = cons_config-good (upstream_config name v) _ us rest in
      (v, vs, found, valid, later, us_is)
]

lookup-insert_any :
    (k j : Bytes) (p : ℕ) (queues : List (Bytes × ℕ))
    → (j ≡ k) ⊎ ((q : ℕ) × (lookup k queues ≡ some q))
    → (q : ℕ) × (lookup k (insert j p queues) ≡ some q)
lookup-insert_any k j p queues (inl e) =
    (p, ground (arith, lookup-insert j k p queues, bytes_beq_iff j k))
lookup-insert_any k j p queues (inr (q, e)) = elim (Bool-cases (bytes_beq j k)) [
  | inl hit ↦ (p, ground (arith, lookup-insert j k p queues))
  | inr miss ↦ (q, ground (arith, lookup-insert j k p queues))
]

pub lookup-update :
    (old : List (Bytes × ℕ)) (us : List UpstreamConfig) (queues : List (Bytes × ℕ))
    (heap : QueueHeap) (k : Bytes)
    → ((p : ℕ) × (lookup k queues ≡ some p)) ⊎ ((u : UpstreamConfig) × Memᴰ u us × (u.name ≡ k))
    → (p : ℕ) × (lookup k (update_upstream_queues old us queues heap).0 ≡ some p)
unfolding update_upstream_queues
lookup-update old [] queues heap k (inl h) = h
lookup-update old [] queues heap k (inr (u, m, e)) = absurd (MemD.not-nil m)
lookup-update old (u ∷ us) queues heap k h =
    let made = queue_for u (lookup u.name old) heap in
    lookup-update old us (insert u.name made.0 queues) made.1 k (step h)
  where
    step :
        ((p : ℕ) × (lookup k queues ≡ some p))
          ⊎ ((v : UpstreamConfig) × Memᴰ v (u ∷ us) × (v.name ≡ k))
        → ((p : ℕ) × (lookup k (insert u.name (queue_for u (lookup u.name old) heap).0 queues)
              ≡ some p))
          ⊎ ((v : UpstreamConfig) × Memᴰ v us × (v.name ≡ k))
    step (inl there) = inl (lookup-insert_any k u.name _ queues (inr there))
    step (inr (v, m, e)) = elim (MemD.cases_cons m) [
      | inl same ↦ inl (
          lookup-insert_any k u.name _ queues
            (inl (sym (ap (λ (x : UpstreamConfig). x.name) same) ∙ e)))
      | inr later ↦ inr (v, later, e)
    ]

collect-NamesItself :
    (w : World) (ups : List (Bytes × Upstream)) (names : List Bytes) (us : List UpstreamConfig)
    → collect_upstreams w ups names ≡ good us
    → All NamesItself us
unfolding collect_upstreams
collect-NamesItself w ups [] us h = subst (All NamesItself) (good-injective [] us h) tt
collect-NamesItself w ups (name ∷ names) us h =
    let (v, vs, found, valid, later, us_is) = collect-step w ups name names us h in
    subst (All NamesItself) (sym us_is) (refl, collect-NamesItself w ups names vs later)

resolve-NamesItself :
    (us : List UpstreamConfig) (d : List (Bytes × List Bytes))
    → All NamesItself us
    → All NamesItself (resolve_upstreams us d)
unfolding resolve_upstreams
resolve-NamesItself [] d h = tt
resolve-NamesItself (u ∷ us) d h = (h.0, resolve-NamesItself us d h.1)

listed-mem :
    (name : Bytes) (t s : Target) (names : List Bytes) → Memᴰ t (listed name s names) → t ≡ s
listed-mem name t s [] m = absurd (MemD.not-nil m)
listed-mem name t s (n ∷ names) m = elim (Bool-cases (bytes_beq n name)) [
  | inl hit ↦ elim (MemD.cases_cons (rw hit at m)) [
    | inl e ↦ e
    | inr later ↦ listed-mem name t s names later
  ]
  | inr miss ↦ listed-mem name t s names (rw miss at m)
]

targets_of-mem :
    (name : Bytes) (t : Target) (us : List UpstreamConfig)
    → Memᴰ t (targets_of name us)
    → (u : UpstreamConfig) × Memᴰ u us × (t ≡ u.target)
targets_of-mem name t [] m = absurd (MemD.not-nil m)
targets_of-mem name t (u ∷ us) m = elim (MemD.append_cases (listed name u.target u.modules) m) [
  | inl here ↦ (u, Memᴰ.head refl, listed-mem name t u.target u.modules here)
  | inr later ↦ let (v, at_v, e) = targets_of-mem name t us later in (v, Memᴰ.tail at_v, e)
]

-- Whatever a client asks for, each target that it may be sent to has a queue.
abbrev pub HasQueues : Server → Type 0
HasQueues s =
    (name : Bytes) (ts : List Target) (t : Target)
    → lookup name s.modules ≡ some ts
    → Memᴰ t ts
    → (p : ℕ) × (lookup t.upstream s.upstream_queues ≡ some p)

if_any-some : (xs ts : List Target) → if_any xs ≡ some ts → ts ≡ xs
if_any-some [] ts h = cc
if_any-some (x ∷ xs) ts h = cc

install-HasQueues :
    (c : Config) (cert : Option ℕ) (us : List UpstreamConfig) (s : Server)
    → All NamesItself us
    → HasQueues (install c cert us s)
unfolding install
install-HasQueues c cert us s h name ts t found m =
    let known =
      if_any-some (targets_of name us) ts (sym (lookup-build_module_targets name us) ∙ found) in
    let (u, at_u, e) = targets_of-mem name t us (subst (Memᴰ t) known m) in
    let named : t.upstream ≡ u.name =
      ap (λ (x : Target). x.upstream) e ∙ All-mem NamesItself us h at_u in
    lookup-update s.upstream_queues us [] s.queues t.upstream (inr (u, at_u, sym named))

Checked-cases {ℓ} :
    {A : Type ℓ} (m : Checked A) → ((a : A) × (m ≡ good a)) ⊎ ((e : LoadError) × (m ≡ bad e))
Checked-cases (good a) = inl (a, refl)
Checked-cases (bad e) = inr (e, refl)

-- The discovery that a load makes, or leaves out.
abbrev discovery : World → Bool → List UpstreamConfig → Checked (List (Bytes × List Bytes))
discovery w open_log us = if open_log then discover_configured_modules w us [] else good []

module _ (w : World) (c : Config) (open_log : Bool) (s : Server)
    (h : (load_config w c open_log s).1 ≡ none) where
  tls_fails : (e : LoadError) → check_tls w c s ≡ bad e → ⊥
  unfolding load_config
  tls_fails e b = ground arith

  collect_fails :
      (cert : Option ℕ) (e : LoadError)
      → check_tls w c s ≡ good cert
      → collect_upstreams w c.upstreams (sort_strings (keys c.upstreams)) ≡ bad e
      → ⊥
  unfolding load_config
  collect_fails cert e g b = ground arith

  discovery_fails :
      (cert : Option ℕ) (us : List UpstreamConfig) (e : LoadError)
      → check_tls w c s ≡ good cert
      → collect_upstreams w c.upstreams (sort_strings (keys c.upstreams)) ≡ good us
      → discovery w open_log us ≡ bad e
      → ⊥
  unfolding load_config
  discovery_fails cert us e g f b = ground arith

  logged : Server
  logged = if open_log then (open_logs w c (set_addresses c s)).0 else set_addresses c s

  logged-served : served logged ≡ served s
  unfolding logged
  logged-served = ground (arith, open_logs-served w c (set_addresses c s))

  load_installs :
      (cert : Option ℕ) (us : List UpstreamConfig) (d : List (Bytes × List Bytes))
      → check_tls w c s ≡ good cert
      → collect_upstreams w c.upstreams (sort_strings (keys c.upstreams)) ≡ good us
      → discovery w open_log us ≡ good d
      → (load_config w c open_log s).0 ≡ install c cert (resolve_upstreams us d) logged
  unfolding load_config logged
  load_installs cert us d g f e = ground arith

  -- What is in force after a load that reports no error.
  pub load_config-installs :
      (cert : Option ℕ) × (us : List UpstreamConfig) × (d : List (Bytes × List Bytes))
      × (t : Server) × All NamesItself us
      × (collect_upstreams w c.upstreams (sort_strings (keys c.upstreams)) ≡ good us)
      × (served t ≡ served s)
      × ((load_config w c open_log s).0 ≡ install c cert (resolve_upstreams us d) t)
  load_config-installs = elim (Checked-cases (check_tls w c s)) [
    | inr (e, b) ↦ absurd (tls_fails e b)
    | inl (cert, g) ↦
        elim (Checked-cases (collect_upstreams w c.upstreams (sort_strings (keys c.upstreams)))) [
          | inr (e, b) ↦ absurd (collect_fails cert e g b)
          | inl (us, f) ↦ elim (Checked-cases (discovery w open_log us)) [
            | inr (e, b) ↦ absurd (discovery_fails cert us e g f b)
            | inl (d, k) ↦ (
              cert,
              us,
              d,
              logged,
              collect-NamesItself w c.upstreams (sort_strings (keys c.upstreams)) us f,
              f,
              logged-served,
              load_installs cert us d g f k,
            )
          ]
        ]
  ]

-- After a load with no error, in the first start or later, every target of every module has a queue.
pub load_config-HasQueues :
    (w : World) (c : Config) (open_log : Bool) (s : Server)
    → (load_config w c open_log s).1 ≡ none
    → HasQueues (load_config w c open_log s).0
load_config-HasQueues w c open_log s h =
    let (cert, us, d, t, named, _, same, is) = load_config-installs w c open_log s h in
    subst HasQueues (sym is)
      (install-HasQueues c cert (resolve_upstreams us d) t (resolve-NamesItself us d named))
