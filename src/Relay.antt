-- ===== src/Relay.antt =====
-- pkg/server/server.go: `relay`, one connection of a client from its first line to its end.
-- The connection's world is given: what both ends send and which writes fail, what the handle of
-- the queue tells and when a minute passes, and the states of the server when its maps are read.
-- What the code does is recorded as effects, in order. `io.Copy` is given by what it counted;
-- Relay.Copies has the copies themselves.
pub mod Texts
pub mod Effects
pub mod Script
pub mod Triples
pub mod Parts
pub mod Outer
pub mod Traces
pub mod Transfers
pub mod Slots
pub mod Grant
pub mod Ready
pub mod Served
pub mod Copies
use rsync_proxy.Relay.Texts.{drop_last, after_line_feed, names_of, lines_of}
use rsync_proxy.Base.{
  decimal_ℤ, ℕ, suc, ◌+◌, ◌-◌, ◌/◌, ◌%◌, ap, Bool, not, Option, none, some, List, [], ◌∷◌, ◌++◌,
  map, ◌==◌, if◌then◌else◌, decimal, Bytes, codes, bytes_beq, has_prefix, sort_strings, length,
  get_elem?, All, drop, ℤ, ◌+ℤ◌, bytes_eq, lookup, pos, negsuc,
}
use rsync_proxy.Queue.Channels.{Status}
use rsync_proxy.Routing.{Target, choose_target_by_client_ip}
use rsync_proxy.Server.{Server}
use rsync_proxy.Wire.{
  rsyncd_version_prefix, rsyncd_server_version, rsyncd_exit, Addr, Header, header, refused,
  generate_proxy_protocol_header,
}
use Effects.{
  Effect, to_client, to_upstream, logged, conn_stored, conn_deleted, set_module, set_upstream,
  acquire_slot, release_slot, dialled, close_client, close_upstream, close_read_client,
  close_read_upstream, clear_deadlines, count_unknown_module, count_queue_full, count_dial_error,
  count_completed, count_module, LogEvent, lists_modules, nonexistent, queue_full, starts_queueing,
  starts, finishes,
}
use Script.{
  RelayError, read_version, unknown_version, send_version, read_module, empty_request, send_motd,
  list_modules, no_queue, send_queue_notice, dial_failed, proxy_header, send_version_up,
  read_version_up, unknown_version_up, send_up_motd, send_module_up, index_panic, M, ◌>>=◌, ◌>>◌,
  return, fail, block, tell, tell_all, finally, write_client, try_write_client, write_upstream,
  read_client, read_upstream,
}

pub data QueueEvent : Type 0 where
  told : Status → QueueEvent
  minute : QueueEvent

-- What the relay finds, other than the bytes of the two connections.
pub record Setting : Type 0 where
  pub index : ℕ
  pub motd : Bytes
  pub client : Addr
  pub client_ip : Bytes
  pub at_lookup : Server
  pub at_queue : Server
  pub first_status : Status
  pub events : List QueueEvent
  pub queue_max : ℤ
  pub dial : Bytes → Bool
  pub upstream_addr : Addr
  pub ip_string : Bytes → Bytes
  -- Whether a copy ends, and whether the other does after what is closed then: no deadline is set
  -- for them, so that they may go on for ever.
  pub one_ends : Bool
  pub both_end : Bool
  pub received_first : Bool
  pub sent_bytes : ℕ
  pub received_bytes : ℕ

-- `listAllModules`
unfoldable pub list_all_modules : Setting → M (Unit {0})
unfolding names_of lines_of
list_all_modules w =
    write_client (lines_of (sort_strings (names_of w.at_lookup.modules)) ++ rsyncd_exit)
      list_modules

abbrev position_message : Status → Bytes
position_message status =
    codes "Your position: "
    ++ (decimal_ℤ (status.index +ℤ pos 1)
        ++ (codes ", Total queued: " ++ (decimal_ℤ status.max ++ codes "\n")))

-- The loop `for !status.Ok`, over what comes.
unfoldable pub wait_turn : Status → List QueueEvent → M (Unit {0})
wait_turn status [] = block
wait_turn status (told next ∷ events) =
    let more = write_client (position_message next) send_queue_notice >> wait_turn next events in
    if next.ok then return tt else more
wait_turn status (minute ∷ events) =
    write_client (position_message status) send_queue_notice >> wait_turn status events

-- The part from `if !status.Ok` to the end of its block.
unfoldable pub queue_up : Setting → Target → Bytes → M (Unit {0})
unfolding wait_turn
queue_up w target module_name = if w.first_status.ok then return tt else (do
  tell (logged (starts_queueing module_name))
  write_client
      ((codes "Upstream "
          ++ (target.upstream
              ++ (codes " has reached the maximum number of "
                  ++ (decimal_ℤ w.queue_max
                      ++ codes " connections. Your request is being queued.\n"))))
        ++ position_message w.first_status)
      send_queue_notice
  wait_turn w.first_status w.events)

-- The counters, after both copies.
abbrev count_copies : Setting → Target → Bytes → M (Unit {0})
count_copies w target module_name = do
  tell (count_completed w.sent_bytes w.received_bytes)
  tell (count_module module_name target.upstream w.sent_bytes w.received_bytes)
  tell (logged (finishes module_name w.sent_bytes w.received_bytes))

-- The `select` waits for a copy to end, and closes what the other one reads; after `<-sentClosed`
-- and `<-receivedClosed` both have ended.
unfoldable pub finish_copy : Setting → Target → Bytes → M (Unit {0})
finish_copy w target module_name =
    if w.one_ends
    then tell_all (
        if w.received_first
        then close_read_upstream ∷ close_client ∷ []
        else close_read_client ∷ close_upstream ∷ [])
      >> (if w.both_end then count_copies w target module_name else block)
    else block

-- `writeProxyProtocolHeader` to the upstream.
abbrev write_proxy_protocol_header : (Bytes → Bytes) → Addr → Addr → M (Unit {0})
write_proxy_protocol_header ip_string source dest =
    elim (generate_proxy_protocol_header ip_string source dest) [
      | header h ↦ write_upstream h proxy_header
      | refused e ↦ fail proxy_header
    ]

unfoldable pub send_proxy_header : Setting → Target → M (Unit {0})
send_proxy_header w target =
    if target.use_proxy_protocol
    then write_proxy_protocol_header w.ip_string w.client w.upstream_addr
    else return tt

unfoldable pub forward_motd : Bytes → M (Unit {0})
forward_motd greeting =
    if bytes_beq greeting [] then return tt else write_client greeting send_up_motd

-- With the connection to the upstream open.
unfoldable pub talk : Setting → Target → Bytes → Bytes → M (Unit {0})
unfolding send_proxy_header forward_motd after_line_feed
talk w target module_name version = do
  send_proxy_header w target
  write_upstream version send_version_up
  answer ← read_upstream read_version_up
  (if has_prefix answer rsyncd_version_prefix
      then (do
        forward_motd (after_line_feed answer answer)
        write_upstream (module_name ++ codes "\n") send_module_up
        tell (logged (starts module_name))
        tell clear_deadlines
        finish_copy w target module_name)
      else fail unknown_version_up)

unfoldable pub connect : Setting → Target → Bytes → Bytes → M (Unit {0})
connect w target module_name version =
    if w.dial target.addr
    then (tell (dialled target.addr)
        >> finally (close_upstream ∷ []) (talk w target module_name version))
    else (tell (count_dial_error target.upstream) >> fail dial_failed)

-- From the first status of the handle on.
unfoldable pub with_slot : Setting → Target → Bytes → Bytes → M (Unit {0})
with_slot w target module_name version =
    if w.first_status.full
    then (do
      tell (count_queue_full target.upstream)
      tell (logged (queue_full module_name))
      try_write_client (codes "Server queue is full for this upstream. Please retry later.\n")
      try_write_client rsyncd_exit)
    else (queue_up w target module_name >> connect w target module_name version)

-- `getTargetsForModule` and `getQueueForUpstream`, each under the reload lock.
abbrev get_targets_for_module : Bytes → Server → Option (List Target)
get_targets_for_module module_name s = lookup module_name s.modules

abbrev get_queue_for_upstream : Bytes → Server → Option ℕ
get_queue_for_upstream name s = lookup name s.upstream_queues

unfoldable pub serve_target : Setting → Target → Bytes → Bytes → M (Unit {0})
serve_target w target module_name version = do
  tell (set_upstream target.upstream)
  (elim (get_queue_for_upstream target.upstream w.at_queue) [
    | none ↦ fail no_queue
    | some p ↦
        tell (acquire_slot p)
        >> finally (release_slot p ∷ []) (with_slot w target module_name version)
  ])

-- `targets[chooseTargetByClientIP(net.ParseIP(ip), len(targets))]`
unfoldable pub pick_target : Setting → List Target → Option Target
pick_target w targets = elim (choose_target_by_client_ip w.client_ip (length targets)) [
  | none ↦ none
  | some i ↦ get_elem? targets i
]

unfoldable pub serve_module : Setting → Bytes → Bytes → M (Unit {0})
serve_module w module_name version = do
  tell (set_module module_name)
  (elim (get_targets_for_module module_name w.at_lookup) [
    | none ↦ do
      tell count_unknown_module
      try_write_client (codes "@ERROR: Unknown module '" ++ (module_name ++ codes "'\n"))
      tell (logged (nonexistent module_name))
    | some targets ↦ elim (pick_target w targets) [
      | none ↦ fail index_panic
      | some target ↦ serve_target w target module_name version
    ]
  ])

send_server_motd : Setting → M (Unit {0})
send_server_motd w =
    if bytes_beq w.motd [] then return tt else write_client (w.motd ++ codes "\n") send_motd

-- The request of the client, once the versions are exchanged.
unfoldable pub serve_request : Setting → Bytes → Bytes → M (Unit {0})
unfolding drop_last send_server_motd
serve_request w version request = if length request == 0 then fail empty_request else (do
  send_server_motd w
  (if length request == 1
      then (tell (logged lists_modules) >> list_all_modules w)
      else serve_module w (drop_last request) version))

unfoldable pub handshake : Setting → M (Unit {0})
handshake w = do
  version ← read_client read_version
  (if has_prefix version rsyncd_version_prefix
      then (do
        write_client rsyncd_server_version send_version
        request ← read_client read_module
        serve_request w version request)
      else fail unknown_version)

-- `relay`
unfoldable pub relay : Setting → M (Unit {0})
relay w =
    tell (conn_stored w.index) >> finally (conn_deleted w.index ∷ close_client ∷ []) (handshake w)
