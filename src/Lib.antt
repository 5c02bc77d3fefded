-- ===== src/Lib.antt =====
-- A verification library for the parts of the Minecraft Bedrock server proxy that decide and keep
-- state. Packets from clients go through the protocol package; a connection becomes a session of
-- the session manager; before a player may join, the access control list is asked; and the load
-- balancer chooses the outbound node that carries the connection.
--
-- Base: names of the libraries and the shared lemmas. Base.Tests has the Boolean tests on numbers,
-- Base.Lists lists measured by them, Base.Int the signed integers, Base.Bits masks as arithmetic,
-- Base.Map a Go map as an association list, Base.Library what the code uses of Go's strings, net
-- and time packages, as a record that the operations take.
-- Protocol: internal/protocol. Protocol.Wire has Go's results, panics and byte orders and the
-- packet ids; Protocol.VarInt writeVarInt and readVarInt; Protocol.Frame isFramedPacket,
-- extractInnerPacket and parseFragment; Protocol.Packets the disconnect, play status and transfer
-- packets and DetectProtocolVersion of protocol.go; Protocol.RakNet the handshake replies of
-- RakNetHandler, and Protocol.Fragments ReassembleFragments and the FragmentAssembler of raknet.go.
-- Session: internal/session. Session.Record is session.go with the methods that write a session,
-- Session.Manager is manager.go: sessions by client address, and what Remove does outside the map
-- as a log of closed connections and of the sessions given to OnSessionEnd. Session.Manager.Steps
-- has the operations as steps; the removals of a cleanup are steps of their own, so that other
-- operations may come between them.
-- Proxy: Proxy.LoadBalancer is internal/proxy/load_balancer.go, with rand.Intn as a parameter;
-- Proxy.LatencyHistory is internal/proxy/outbound_latency_history.go for one history;
-- Proxy.OutboundManager is internal/proxy/outbound_manager.go: the nodes, the pinned node and the
-- measured latencies of a server; Deletion is DeleteOutbound with its cascade. Its child Select has
-- SelectOutboundWithFailover, ForServer has SelectOutboundWithFailoverForServer with bans and
-- pins, on BestNode, which has GetBestNodeForServer; both hand the candidates to the load balancer.
-- Proxy.AutoPing is the part of internal/proxy/proxy.go that chooses the nodes to ping and moves a
-- server or a proxy port to the fastest node, by the operations of Proxy.OutboundManager.
-- Config: Config.ProxyPort is internal/config/proxy_port.go, Config.PortManager the manager of
-- internal/config/proxy_port_manager.go with its file as what Load reads of it;
-- Config.OutboundConfig is the manager of internal/config/proxy_outbound_manager.go.
-- Acl: internal/acl/acl_manager.go with the entries of internal/db/acl_models.go. A repository is
-- a function to its reply (a row, no rows, or a failure), and strings.EqualFold and
-- strings.TrimSpace are parameters.
-- Db: Db.Blacklist is internal/db/blacklist_repository.go over the rows of its table, where
-- SQLite's choice among several rows that match is a parameter; Db.Blacklist.Ban puts it under the
-- access control as the repository of the blacklist.
-- Errors: RetryOperation of internal/errors/errors.go, over an operation that is a function of the
-- attempt.
--
-- Integers: a byte is a number below 256; an int32, uint16 or int64 stands for its bit pattern
-- and wraps as written out; a latency and a duration are signed. A time is a number of
-- nanoseconds (of milliseconds in the latency history) that the caller hands over. The loop of
-- writeVarInt is recursion on the order of the numbers, every other loop is structural, so no
-- function runs on fuel.
--
-- Not modelled: sockets, goroutines and the mutexes (a method that holds its lock is one step),
-- files, the SQL engine, HTTP, JSON, compression and the sing-box core; the login payload's JWTs;
-- the configuration of servers and subscriptions, the dialling and the sing-box cache of the
-- outbound manager, the scheduler of the pings, and the proxies that move packets. Go's sort.Slice,
-- rand.Intn, the comparison of floats and the matching of names against a pattern are fields of
-- Runtime. A range over a Go map goes in the order of the association list; in GetByGroup and
-- GetBySubscriptionID, which return the nodes as they come, its order is a parameter.
pub mod Base
pub mod Acl
pub mod Config
pub mod Db
pub mod Errors
pub mod Protocol
pub mod Proxy
pub mod Session
