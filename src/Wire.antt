-- ===== src/Wire.antt =====
-- pkg/server/utils.go: lines from a connection, addresses, and the header of the PROXY protocol.
pub mod Lines
pub mod Addresses
use rsync_proxy.Base.{
  ℕ, suc, ◌+◌, ◌-◌, ◌*◌, ◌/◌, Bool, true, false, not, ◌&&◌, Option, none, some, List, [], ◌∷◌, ◌++◌,
  ◌==◌, if◌then◌else◌, decimal, Bytes, codes, length, drop, take,
}
use rsync_proxy.Routing.{to4}

-- The words of the protocol, of server.go.
abbrev pub rsyncd_version_prefix : Bytes
rsyncd_version_prefix = codes "@RSYNCD:"

abbrev pub rsyncd_server_version : Bytes
rsyncd_server_version = codes "@RSYNCD: 32.0 sha512 sha256 sha1 md5 md4\n"

abbrev pub rsyncd_exit : Bytes
rsyncd_exit = codes "@RSYNCD: EXIT\n"

-- One answer of `conn.Read` with enough room: bytes, and whether an error comes with them. A
-- deadline that passes is such an error.
pub record Chunk : Type 0 where
  pub bytes : Bytes
  pub fails : Bool

pub record LineRead : Type 0 where
  pub line : Bytes
  pub failed : Bool
  pub rest : List Chunk

-- `n > 0 && buf[n-1] == '\n'`
abbrev pub ends_line : Bytes → Bool
ends_line [] = false
ends_line (c ∷ []) = c == b'\n'
ends_line (c ∷ d ∷ s) = ends_line (d ∷ s)

-- What is left of a chunk that did not fit into the buffer.
abbrev pub unread : Bytes → Chunk → List Chunk → List Chunk
unread [] chunk rest = rest
unread (c ∷ s) chunk rest = record { bytes = c ∷ s; fails = chunk.fails } ∷ rest

abbrev is_nil : Bytes → Bool
is_nil [] = true
is_nil (c ∷ s) = false

-- The loop of `readLine`; `max` is the size of the buffer and `line` what was read. When the
-- connection has no more to say, the read fails.
unfoldable pub read_line_from : ℕ → Bytes → List Chunk → LineRead
read_line_from max line [] = record { line = line; failed = true; rest = [] }
read_line_from max line (chunk ∷ rest) =
    let left = drop (max - length line) chunk.bytes in
    let line' = line ++ take (max - length line) chunk.bytes in
    let more = read_line_from max line' rest in
    if ends_line line'
    then record { line = line'; failed = false; rest = unread left chunk rest }
    else if length line' == max
    then record { line = line'; failed = false; rest = unread left chunk rest }
    else if chunk.fails
    then record { line = line'; failed = true; rest = rest }
    else more

-- `readLine`
unfoldable pub read_line : ℕ → List Chunk → LineRead
unfolding read_line_from
read_line max chunks = read_line_from max [] chunks

-- `net.Addr` by its type: `*net.TCPAddr`, `*net.UnixAddr` or another.
pub data Addr : Type 0 where
  tcp : Bytes → ℕ → Addr
  unix : Bytes → Addr
  other : Bytes → Addr

-- The two type switches of `generateProxyProtocolHeader`: address and port.
abbrev pub endpoint : Addr → Option (Bytes × ℕ)
endpoint (tcp ip port) = some (ip, port)
endpoint (unix path) = some (127 ∷ 0 ∷ 0 ∷ 1 ∷ [], 1)
endpoint (other name) = none

pub data HeaderError : Type 0 where
  invalid_source invalid_destination : HeaderError

pub data Header : Type 0 where
  header : Bytes → Header
  refused : HeaderError → Header

-- `generateProxyProtocolHeader`; `ip_string` is `net.IP.String`.
unfoldable pub generate_proxy_protocol_header : (Bytes → Bytes) → Addr → Addr → Header
generate_proxy_protocol_header ip_string source dest = elim (endpoint source) [
  | none ↦ refused invalid_source
  | some (source_ip, source_port) ↦ elim (endpoint dest) [
    | none ↦ refused invalid_destination
    | some (dest_ip, dest_port) ↦
        let version : Bytes = elim (to4 source_ip) [
          | some v4 ↦ codes "TCP4"
          | none ↦ codes "TCP6"
        ] in
        header (
          codes "PROXY "
          ++ (version
              ++ (codes " "
                  ++ (ip_string source_ip
                      ++ (codes " "
                          ++ (ip_string dest_ip
                              ++ (codes " "
                                  ++ (decimal source_port
                                      ++ (codes " " ++ (decimal dest_port ++ codes "\r\n"))))))))))
  ]
]
