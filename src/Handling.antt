-- ===== src/Handling.antt =====
-- pkg/server/server.go: `handleConn`, from the counts at its start to the deferred one at its end.
pub mod Restores
use rsync_proxy.Base.{ℕ, suc, ◌+◌, ◌-◌, ◌/◌, ◌%◌, ◌^◌, not, [], Bytes, ℤ, ◌+ℤ◌, pos, negsuc}
use rsync_proxy.Counters.{ConnInfo, Counters, add_u64, record_effects}
use rsync_proxy.Relay.{Setting, relay}
use rsync_proxy.Relay.Script.{Session, Outcome, done, failed, blocked}

-- What is known of a connection when it is accepted.
pub record Conn : Type 0 where
  pub local_addr : Bytes
  pub remote_addr : Bytes
  pub connected_at : ℕ

-- The `ConnInfo` that `relay` makes.
abbrev pub new_info : Conn → ℕ → ConnInfo
new_info conn index = record {
  index = index;
  local_addr = conn.local_addr;
  remote_addr = conn.remote_addr;
  connected_at = conn.connected_at;
  module_name = [];
  upstream = [];
  sent_bytes = 0;
  received_bytes = 0;
}

-- `s.connIndex.Add(1)`, of a `uint32`.
abbrev pub next_index : Counters → ℕ
next_index c = (c.conn_index + 1) % 2 ^ 32

unfoldable pub open_conn : Counters → Counters
open_conn c = record c {
  active_conn_count = c.active_conn_count +ℤ pos 1;
  accepted_conn_count = add_u64 c.accepted_conn_count 1;
  conn_index = next_index c;
}

-- The deferred `s.activeConnCount.Add(-1)`, when `relay` has ended in any way, a panic included.
unfoldable pub close_conn : Outcome (Unit {0}) → Counters → Counters
close_conn (done u) c = record c { active_conn_count = c.active_conn_count +ℤ negsuc 0 }
close_conn (failed e) c = record c { active_conn_count = c.active_conn_count +ℤ negsuc 0 }
close_conn blocked c = c

-- The relay of the connection with its new index, and nothing done yet.
abbrev pub run_relay : Setting → Session → Counters → Outcome (Unit {0}) × Session
run_relay w s c = relay (record w { index = next_index c }) (record s { effects = [] })

-- `handleConn`: how `relay` ended, and the counters after it.
unfoldable pub handle_conn : Conn → Setting → Session → Counters → Outcome (Unit {0}) × Counters
unfolding open_conn close_conn
handle_conn conn w s c =
    let r = run_relay w s c in
    (r.0, close_conn r.0 (record_effects (new_info conn (next_index c)) r.1.effects (open_conn c)))
