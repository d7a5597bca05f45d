-- ===== src/Lib.antt =====
-- rsync-proxy is a reverse proxy for rsync daemons. A client connects and names a module; the
-- proxy chooses one of the upstreams that serve it by the client's address, waits for a place in
-- the queue of that upstream, and then passes bytes both ways. A configuration says which
-- upstreams there are and can be loaded again while clients are served. This library models the
-- parts of the program that decide something, each from its Go source, and proves what they
-- promise.
--
-- Queue (pkg/queue/queue.go). `Queue`, its channels and `Acquire`, `Release`, `SetMax`,
-- `broadcastStatus` and `trySend` as functions on states. A send or a close that would block or
-- panic is a fault, a result of the function. `System` adds the `released` flags of the handles,
-- and `Step` what clients and an administrator do to it, in any order: the mutex makes each
-- method one step. Queue.Channels has the channels; Queue.Broadcast, Queue.Admission,
-- Queue.Acquire, Queue.Removal and Queue.Release one method each; Queue.Invariant, Queue.Enter
-- and Queue.History the invariant and that it is kept; Queue.Capacity, Queue.Places,
-- Queue.Receipts and Queue.Service what follows for clients. Queue.Line is what a queue is to
-- its clients, with no channels and no loops, and Queue.Line.Refinement compares the two. The
-- loop that admits clients runs on fuel, one more than the clients that wait, which is enough
-- because each turn takes one of them.
--
-- Routing (pkg/server/server.go). `resolveUpstreams`, `buildModuleTargets` and
-- `chooseTargetByClientIP` with the 32-bit FNV-1a hash written out.
--
-- Server (pkg/server/server.go, pkg/server/config.go). Server.Settings has the structs of a
-- configuration. The state of the server that a configuration touches, and `loadConfig` as one
-- function on it, for the reload lock is held. Server.Certificate has what a load does to the
-- certificate. Certificates, the resolving of addresses, discovery and the disk are given by a
-- `World`. `*queue.Queue` pointers are names in a heap, so that a queue that stays is seen to be
-- the same one. A certificate that is loaded stands for itself as a number.
--
-- Wire (pkg/server/utils.go). `readLine` over the pieces in which bytes come, the header of the
-- PROXY protocol, and in Wire.Addresses the functions on addresses, where the parser of a host
-- and port is given.
--
-- Relay (pkg/server/server.go). `relay`, a connection from its first line to its end, as a
-- script: reads and writes that can fail, errors that end it, `defer`, and a record of its
-- effects in order. Relay.Triples has rules that say what a part of the script can do,
-- Relay.Parts and Relay.Outer apply them to the code, Relay.Traces and Relay.Transfers read the
-- record of effects, and Relay.Slots, Relay.Grant and Relay.Ready draw conclusions for the whole
-- of it; Relay.Served follows one connection in which nothing fails. Relay.Copies has the end of
-- `relay` again, more finely: the two goroutines and the `select` as a step relation over the
-- calls that `io.Copy` makes of its reader and writer; Relay.Copies.Closings has what is closed
-- past the select; Relay.Copies.Finish compares it with `finish_copy` of the script. What the
-- world does during a connection is its `Setting`: the answers of the handle, when minutes pass,
-- which state of the server is read at each of the two locks, whether the upstream answers, and
-- whether the two copies end and what they counted. Whether a write succeeds is a list of
-- answers in the `Session`.
--
-- Counters and Handling (pkg/server/server.go). The counters of the server, in all, by upstream
-- and by module, `ConnInfo`, and what each effect of a connection changes of them; `handleConn`
-- around `relay`. Atomic numbers wrap at their width. Counters.Totals lets any number of
-- connections run side by side by interleaving their effects.
--
-- Discovery (pkg/server/server.go). `discoverModulesFromUpstream` over what the upstream says,
-- with the fields of a line split at Unicode spaces as `strings.Fields` does;
-- `ListUpstreamModules` and `DiscoverModules` are in Discovery.Upstreams.
--
-- Http (pkg/server/server.go). The handlers of `runHTTPServer` as functions from a request and
-- the state to an answer and the state after it. A body is given by the struct that is encoded
-- (Http.Messages). What a handler asks of the system is in `Outside`. Http.Shared has the
-- handler of /upstream-modules in two steps, because its requests share a variable.
--
-- Listeners (pkg/server/server.go, pkg/server/utils.go). `Listen`, `listenTCPOrUnix` and `Close`
-- on the set of open sockets, with the paths that are removed for Unix sockets, and the loop
-- that accepts connections. Listeners.Run has `Run`: its goroutines, the channel of errors with
-- room for one, and the loop over it, as a step relation.
--
-- Metrics (pkg/server/metrics.go). Metrics.Labels and Metrics.Samples have the labels and the
-- samples, Metrics.Page the page that `writePrometheusMetrics` writes, first as families of
-- samples and then as text.
--
-- Client (cmd/cmd.go, main.go). Client.Size prints sizes; Client.Commands has the requests of
-- the commands and what they print, Client.Start the root command up to `Run`, Client.Program
-- all commands and the process around them, with the ten seconds that a client waits for an
-- answer; Client.Running follows the server from the root command through any requests. JSON,
-- the transport and the table are parameters, and Client.Daemon puts a command and the daemon
-- together: where it needs JSON to give a struct back, that is a hypothesis.
--
-- Logging (pkg/logging/file.go, pkg/logging/log.go). The file behind a logger, and what becomes
-- of a message.
--
-- Base has what these share: lists measured by native numbers, bytes and their order, decimal
-- digits, signed integers and association lists for maps. Tests has runs at concrete inputs.
--
-- Go's `int` is an integer without a bound here: it counts clients and limits that are far below
-- 2^63. Hashes and target counts keep their 32 bits. Lines, names and messages are lists of
-- bytes; a map is an association list, and where the source ranges over one it sorts the keys,
-- as the model does.
--
-- The sizes of the copies are atomic 64-bit integers, kept modulo 2^64. Where threads run beside
-- each other (clients of a queue, the copies, the servers, requests), each step is what happens
-- between two points at which another one can be noticed: a method under its mutex, a call of
-- `io.Copy`, a send or a receive on a channel, a read of a shared variable.
--
-- Not modelled: deadlines, beyond a read or write that fails; the text of TOML and JSON and of
-- what is logged; and what the libraries for the command line, for tables and for the runtime's
-- own metrics print.
pub mod Base
pub mod Client
pub mod Counters
pub mod Discovery
pub mod Handling
pub mod Http
pub mod Listeners
pub mod Logging
pub mod Metrics
pub mod Queue
pub mod Relay
pub mod Routing
pub mod Server
pub mod Tests
pub mod Wire
