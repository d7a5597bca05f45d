-- ===== src/Counters.antt =====
-- pkg/server/server.go: what the server counts, and the connections that it knows of. The atomic
-- numbers wrap at their width; a `sync.Map` is an association list, and a value of it that is
-- loaded and then changed is written back under its key.
pub mod Fields
pub mod Totals
use rsync_proxy.Base.{
  ℕ, ◌+◌, ◌-◌, ◌/◌, ◌%◌, ◌^◌, ap, Option, none, some, List, [], ◌∷◌, ◌==◌, if◌then◌else◌, Bytes, ℤ,
  bytes_eq, lookup, insert, pos, pair_eq, nat_eq,
}
use rsync_proxy.Metrics.Labels.{prometheus_label_value_or_unknown}
use rsync_proxy.Relay.Effects.{
  Effect, conn_stored, conn_deleted, set_module, set_upstream, count_unknown_module,
  count_queue_full, count_dial_error, count_completed, count_module,
}

-- `ConnInfo`; `ConnectedAt` is in seconds, to which it is cut off. The numbers of bytes, which are
-- `atomic.Int64`, are kept modulo 2 ^ 64.
pub record ConnInfo : Type 0 where
  pub index : ℕ
  pub local_addr : Bytes
  pub remote_addr : Bytes
  pub connected_at : ℕ
  pub module_name : Bytes
  pub upstream : Bytes
  pub sent_bytes : ℕ
  pub received_bytes : ℕ

-- `upstreamCounters`
pub record UpstreamCounters : Type 0 where
  pub queue_full : ℕ
  pub dial_error : ℕ

-- `moduleCounters`
pub record ModuleCounters : Type 0 where
  pub completed : ℕ
  pub sent_bytes : ℕ
  pub recv_bytes : ℕ

-- The counters of `Server`; a `moduleUpstreamKey` is a pair.
pub record Counters : Type 0 where
  pub active_conn_count : ℤ
  pub conn_index : ℕ
  pub conn_info : List (ℕ × ConnInfo)
  pub accepted_conn_count : ℕ
  pub completed_conn_count : ℕ
  pub sent_bytes_total : ℕ
  pub recv_bytes_total : ℕ
  pub upstream_counters : List (Bytes × UpstreamCounters)
  pub unknown_module_count : ℕ
  pub module_counters : List ((Bytes × Bytes) × ModuleCounters)

-- What a `Server` of `New` has counted.
abbrev pub no_counters : Counters
no_counters = record {
  active_conn_count = pos 0;
  conn_index = 0;
  conn_info = [];
  accepted_conn_count = 0;
  completed_conn_count = 0;
  sent_bytes_total = 0;
  recv_bytes_total = 0;
  upstream_counters = [];
  unknown_module_count = 0;
  module_counters = [];
}

-- `Add` of an `atomic.Uint64`
abbrev pub add_u64 : ℕ → ℕ → ℕ
add_u64 a b = (a + b) % 2 ^ 64

abbrev pub or_fresh {ℓ} : {A : Type ℓ} → A → Option A → A
or_fresh fresh none = fresh
or_fresh fresh (some a) = a

-- `getUpstreamCounters`; what it stores for a new name is stored by the change that follows.
unfoldable pub get_upstream_counters : Bytes → Counters → UpstreamCounters
get_upstream_counters name c =
    or_fresh (record { queue_full = 0; dial_error = 0 }) (lookup name c.upstream_counters)

-- The key of `getModuleCounters`
abbrev pub module_key : Bytes → Bytes → Bytes × Bytes
module_key module_name upstream =
    (prometheus_label_value_or_unknown module_name, prometheus_label_value_or_unknown upstream)

-- `getModuleCounters`
unfoldable pub get_module_counters : Bytes × Bytes → Counters → ModuleCounters
get_module_counters key c =
    or_fresh (record { completed = 0; sent_bytes = 0; recv_bytes = 0 })
      (lookup key c.module_counters)

abbrev add_queue_full : Bytes → Counters → Counters
add_queue_full name c =
    let u = get_upstream_counters name c in
    record c {
      upstream_counters =
          insert name (record u { queue_full = add_u64 u.queue_full 1 }) c.upstream_counters;
    }

abbrev add_dial_error : Bytes → Counters → Counters
add_dial_error name c =
    let u = get_upstream_counters name c in
    record c {
      upstream_counters =
          insert name (record u { dial_error = add_u64 u.dial_error 1 }) c.upstream_counters;
    }

-- The four additions that `relay` makes to the counters of a module and upstream.
unfoldable pub add_module : Bytes × Bytes → ℕ → ℕ → Counters → Counters
unfolding get_module_counters
add_module key sent received c =
    let m = get_module_counters key c in
    record c {
      module_counters =
          insert key
            (record {
              completed = add_u64 m.completed 1;
              sent_bytes = add_u64 m.sent_bytes sent;
              recv_bytes = add_u64 m.recv_bytes received;
            })
            c.module_counters;
    }

-- A change of the `ConnInfo` of a connection that is known.
abbrev pub change_info : ℕ → (ConnInfo → ConnInfo) → Counters → Counters
change_info index f c = elim (lookup index c.conn_info) [
  | none ↦ c
  | some info ↦ record c { conn_info = insert index (f info) c.conn_info }
]

unfoldable pub remove : ℕ → List (ℕ × ConnInfo) → List (ℕ × ConnInfo)
remove index [] = []
remove index ((j, info) ∷ m) =
    let rest = remove index m in if j == index then rest else (j, info) ∷ rest

-- `SetModule` and `SetUpstream`
abbrev pub set_info_module : Bytes → ConnInfo → ConnInfo
set_info_module name info = record info { module_name = name }

abbrev pub set_info_upstream : Bytes → ConnInfo → ConnInfo
set_info_upstream name info = record info { upstream = name }

-- `countingReader.Read` of the two directions, by the number of bytes read.
abbrev pub read_sent : ℕ → ConnInfo → ConnInfo
read_sent n info = record info { sent_bytes = add_u64 info.sent_bytes n }

abbrev pub read_received : ℕ → ConnInfo → ConnInfo
read_received n info = record info { received_bytes = add_u64 info.received_bytes n }

-- What one effect of the connection of `info` changes, where `info` is its entry when it is new.
unfoldable pub record_effect : ConnInfo → Effect → Counters → Counters
unfolding get_upstream_counters add_module remove
record_effect info (conn_stored index) c = record c { conn_info = insert index info c.conn_info }
record_effect info (conn_deleted index) c = record c { conn_info = remove index c.conn_info }
record_effect info (set_module name) c = change_info info.index (set_info_module name) c
record_effect info (set_upstream name) c = change_info info.index (set_info_upstream name) c
record_effect info count_unknown_module c = record c {
  unknown_module_count = add_u64 c.unknown_module_count 1;
}
record_effect info (count_queue_full name) c = add_queue_full name c
record_effect info (count_dial_error name) c = add_dial_error name c
record_effect info (count_completed sent received) c = record c {
  completed_conn_count = add_u64 c.completed_conn_count 1;
  sent_bytes_total = add_u64 c.sent_bytes_total sent;
  recv_bytes_total = add_u64 c.recv_bytes_total received;
}
record_effect info (count_module module_name upstream sent received) c =
    add_module (module_key module_name upstream) sent received c
record_effect info e c = c

unfoldable pub record_effects : ConnInfo → List Effect → Counters → Counters
unfolding record_effect
record_effects info [] c = c
record_effects info (e ∷ es) c = record_effects info es (record_effect info e c)
