-- ===== src/Metrics/Samples.antt =====
-- `writePrometheusMetrics`: its samples, their labels and values.
use rsync_proxy.Base.{
  ℕ, ◌+◌, ◌-◌, ◌*◌, Bool, not, none, some, List, [], ◌∷◌, ◌++◌, ltb, if◌then◌else◌, decimal, Bytes,
  codes, bytes_beq, bytes_ltb, sort_by, bytes_eq, pair_eq, nat_eq, lookup, insert,
}
use rsync_proxy.Counters.{ConnInfo, Counters, ModuleCounters, module_key}
use rsync_proxy.Metrics.Labels.{prometheus_escape_label_value, prometheus_labels}
use rsync_proxy.Queue.{Queue}
use rsync_proxy.Routing.{UpstreamConfig}
use rsync_proxy.Server.{Server}

-- A sample by its labels, in their braces, and its value.
pub record Sample : Type 0 where
  pub labels : Bytes
  pub value : Bytes

abbrev pub upstream_label : Bytes → Bytes
upstream_label name = codes "{upstream=\"" ++ (prometheus_escape_label_value name ++ codes "\"}")

abbrev pub key_label : Bytes × Bytes → Bytes
key_label (module_name, upstream) =
    codes "{module=\""
    ++ (prometheus_escape_label_value module_name
        ++ (codes "\",upstream=\"" ++ (prometheus_escape_label_value upstream ++ codes "\"}")))

-- `sort.Slice(upstreams, ...)`
abbrev pub by_name : UpstreamConfig → UpstreamConfig → Bool
by_name a b = bytes_ltb a.name b.name

-- A loop over the upstreams that have a queue.
unfoldable pub queue_samples : (Queue → Bytes) → Server → List UpstreamConfig → List Sample
queue_samples value s [] = []
queue_samples value s (u ∷ us) =
    let rest = queue_samples value s us in
    elim (lookup u.name s.upstream_queues) [
      | none ↦ rest
      | some p ↦ record { labels = upstream_label u.name; value = value (s.queues.cell p) } ∷ rest
    ]

unfoldable pub upstream_samples : (Bytes → Bytes) → List UpstreamConfig → List Sample
upstream_samples value [] = []
upstream_samples value (u ∷ us) =
    record { labels = upstream_label u.name; value = value u.name } ∷ upstream_samples value us

abbrev pub infos : List (ℕ × ConnInfo) → List ConnInfo
infos [] = []
infos ((i, info) ∷ m) = info ∷ infos m

-- `ListConnectionInfo`
unfoldable pub list_connection_info : Counters → List ConnInfo
list_connection_info c =
    sort_by (λ (a : ConnInfo) (b : ConnInfo). ltb a.index b.index) (infos c.conn_info)

-- `connectionCounts[key]++` for every connection.
unfoldable pub connection_counts :
    List ConnInfo → List ((Bytes × Bytes) × ℕ) → List ((Bytes × Bytes) × ℕ)
connection_counts [] counts = counts
connection_counts (info ∷ rest) counts =
    let key = module_key info.module_name info.upstream in
    connection_counts rest
      (insert key (elim (lookup key counts) [ none ↦ 1 | some n ↦ n + 1 ]) counts)

abbrev key_ltb : Bytes × Bytes → Bytes × Bytes → Bool
key_ltb (m, u) (m', u') = if not (bytes_beq m m') then bytes_ltb m m' else bytes_ltb u u'

abbrev pub by_key {ℓ} : {A : Type ℓ} → (Bytes × Bytes) × A → (Bytes × Bytes) × A → Bool
by_key (k, a) (j, b) = key_ltb k j

abbrev pub key_samples {ℓ} : {A : Type ℓ} → (A → ℕ) → List ((Bytes × Bytes) × A) → List Sample
key_samples value [] = []
key_samples value ((k, a) ∷ rest) =
    record { labels = key_label k; value = decimal (value a) } ∷ key_samples value rest

abbrev pub conn_samples : (ConnInfo → Bytes) → List ConnInfo → List Sample
conn_samples value [] = []
conn_samples value (info ∷ rest) =
    record {
      labels =
          codes "{" ++ (prometheus_labels info.index info.module_name info.upstream ++ codes "}");
      value = value info;
    }
    ∷ conn_samples value rest

-- `now.Sub(snapshot.ConnectedAt)`, not below 0.
abbrev pub duration : ℕ → ConnInfo → ℕ
duration now info =
    if ltb now (info.connected_at * 1_000_000_000)
    then 0
    else now - info.connected_at * 1_000_000_000

abbrev pub single : ℕ → List Sample
single n = record { labels = []; value = decimal n } ∷ []

-- The samples of the connections by module and upstream.
unfoldable pub group_samples : List ConnInfo → List Sample
unfolding connection_counts
group_samples conns = key_samples (λ n. n) (sort_by by_key (connection_counts conns []))

-- Those of one of the counters of modules and upstreams.
unfoldable pub module_samples : (ModuleCounters → ℕ) → Counters → List Sample
module_samples value c = key_samples value (sort_by by_key c.module_counters)
