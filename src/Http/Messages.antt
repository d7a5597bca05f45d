-- ===== src/Http/Messages.antt =====
-- pkg/server/server.go: what the handlers of `runHTTPServer` are asked and what they answer.
use rsync_proxy.Base.{ℕ, List, Bytes}
use rsync_proxy.Counters.{ConnInfo}

-- `Values` of net/url: the values of each key.
abbrev pub Values : Type 0
Values = List (Bytes × List Bytes)

pub record Request : Type 0 where
  pub method : Bytes
  pub path : Bytes
  pub query : Values

-- `connInfoSnapshot`
pub record Snapshot : Type 0 where
  pub index : ℕ
  pub local_addr : Bytes
  pub remote_addr : Bytes
  pub connected_at : ℕ
  pub module_name : Bytes
  pub upstream : Bytes
  pub sent_bytes : ℕ
  pub received_bytes : ℕ

-- `ConnInfo.snapshot`, which `MarshalJSON` encodes.
abbrev pub snapshot : ConnInfo → Snapshot
snapshot c = record {
  index = c.index;
  local_addr = c.local_addr;
  remote_addr = c.remote_addr;
  connected_at = c.connected_at;
  module_name = c.module_name;
  upstream = c.upstream;
  sent_bytes = c.sent_bytes;
  received_bytes = c.received_bytes;
}

-- The structs that the handlers encode, and text.
pub data Body : Type 0 where
  empty : Body
  message : Bytes → Body
  modules : List Bytes → Body
  status_of : ℕ → List Snapshot → Body
  text_of : Bytes → Body

pub record Response : Type 0 where
  pub status_code : ℕ
  pub body : Body
