-- ===== src/Wire/Addresses.antt =====
-- pkg/server/utils.go: addresses of both networks, and the half-closing of a connection. What
-- `net.SplitHostPort` and `net.JoinHostPort` do is given.
use rsync_proxy.Base.{
  ℕ, ◌≡◌, Bool, false, ◌&&◌, Option, none, some, List, [], ◌∷◌, ◌++◌, arith, if◌then◌else◌, Bytes,
  codes, has_prefix,
}
use rsync_proxy.Wire.{Addr, tcp, unix, other}

-- `netAddrToString`; `ip_string` is `net.IP.String`, and `addr_string` the `String` of the others.
unfoldable net_addr_to_string : (Bytes → Bytes) → (Addr → Bytes) → Addr → Bytes
net_addr_to_string ip_string addr_string (tcp ip port) = ip_string ip
net_addr_to_string ip_string addr_string (unix path) = addr_string (unix path)
net_addr_to_string ip_string addr_string (other name) = addr_string (other name)

-- The network and the address that are dialled.
pub record Dialled : Type 0 where
  pub network : Bytes
  pub addr : Bytes

-- `dialContextTCPOrUnix`, by what it calls `DialContext` with.
unfoldable pub dial_context_tcp_or_unix : Bytes → Dialled
dial_context_tcp_or_unix addr =
    if has_prefix addr (codes "/")
    then record { network = codes "unix"; addr = addr }
    else record { network = codes "tcp"; addr = addr }

-- What `net.SplitHostPort` says of an address.
pub data Split : Type 0 where
  host_and_port missing_port malformed : Split

pub record HostPorts : Type 0 where
  pub split_host_port : Bytes → Split
  pub join_host_port : Bytes → Bytes → Bytes

-- `addDefaultTCPPort`
unfoldable pub add_default_tcp_port : HostPorts → Bytes → Bytes → Bytes
add_default_tcp_port h addr default_port =
    if has_prefix addr (codes "/") then addr else (elim (h.split_host_port addr) [
      | host_and_port ↦ addr
      | missing_port ↦ h.join_host_port addr default_port
      | malformed ↦ addr
    ])

-- `discoverModulesFromUpstream` up to its dial.
unfoldable pub discovery_address : HostPorts → Bytes → Dialled
unfolding dial_context_tcp_or_unix add_default_tcp_port
discovery_address h addr = dial_context_tcp_or_unix (add_default_tcp_port h addr (codes "873"))

-- What `net.JoinHostPort` and `net.SplitHostPort` say of themselves: of a host without a port, joined
-- with one, the parts are found again, and it is not the path of a socket.
pub record IsHostPorts (h : HostPorts) : Type 0 where
  pub splits :
      (host port : Bytes)
      → h.split_host_port host ≡ missing_port
      → h.split_host_port (h.join_host_port host port) ≡ host_and_port
  pub stays :
      (host port : Bytes)
      → has_prefix host (codes "/") ≡ false
      → has_prefix (h.join_host_port host port) (codes "/") ≡ false

-- The address that is dialled needs no port any more, and its network is that of the address.
discovery_address_lem :
    (h : HostPorts) (addr : Bytes)
    → IsHostPorts h
    → let d = discovery_address h addr in
      (add_default_tcp_port h d.addr (codes "873") ≡ d.addr)
      × (d.network ≡ (dial_context_tcp_or_unix addr).network)
unfolding discovery_address
discovery_address_lem h addr is =
    ground (arith, is.splits addr (codes "873"), is.stays addr (codes "873"))

-- A connection: whether it is a `*net.TCPConn`, and what its `CloseRead` answers, if it has one.
pub record Closer : Type 0 where
  pub is_tcp : Bool
  pub close_read : Option Bool

pub data CloseCall : Type 0 where
  set_linger : ℕ → CloseCall
  closes_read : CloseCall

-- `closeRead`: the calls of the connection, and whether there is an error.
unfoldable close_read : Closer → Bool → List CloseCall × Bool
close_read conn linger =
    let calls : List CloseCall = if linger && conn.is_tcp then set_linger 0 ∷ [] else [] in
    elim conn.close_read [
      | none ↦ (calls, false)
      | some failed ↦ (calls ++ closes_read ∷ [], failed)
    ]
