-- ===== src/Lib.antt =====
-- A verification of the control plane of hostlink: a controller that agents behind NAT dial, and
-- that opens public TCP ports to targets behind those agents.
--
-- A create request (pkg/controller/forwards.go) claims a public port in the port registry
-- (ports.go). The registry notifies its watchers; each replica then binds the listeners that it
-- lacks (listeners.go), and the activation barrier (bindings.go) tells when all have. A connection
-- that a listener accepts goes to the connection handler (forward_handler.go), which looks the port
-- up, finds the agent in the agent registry (registry.go) or at another replica (peer.go), asks it
-- to open a stream, waits for the stream in the session table (sessions.go), and pipes bytes
-- (pkg/tunnel/splice.go). Requests of the REST API (api.go, fs.go) travel over the agent's
-- connection (registry.go), to the agent's handlers (pkg/agent/agent.go, fs.go). The metrics of the
-- fleet (metrics.go) are scraped the same way. Container events suspend and resume mappings
-- (container_events.go).
--
-- Ports (Keys, Watchers, Memory) is pkg/controller/ports.go with `memPortStore`; Listeners is
-- listeners.go and Order its sorting; Bindings is bindings.go; Forwards is forwards.go;
-- ContainerEvents is container_events.go; ForwardHandler is forward_handler.go; Registry and
-- AgentConn are the two halves of registry.go; Sessions is sessions.go; Tunnel is
-- pkg/tunnel/splice.go; Control is `Control` and `Forward` of pkg/controller/service.go, which feed
-- the events and streams of agents to the parts above; Ports.Redis is `redisPortStore`. An
-- operation keeps its Go name in this spelling, `releaseByAgent` as `release_by_agent`. Rest is
-- pkg/controller/api.go and fs.go (Routing, Uploads, Downloads, Events by what is proved), Metrics
-- is metrics.go, with the agent's side of a scrape (pkg/agent/metrics.go) in Metrics.Exporter;
-- Peers is pkg/controller/peer.go and PeerForward peer_forward.go; AgentFs is pkg/agent/fs.go, and
-- AgentLink is pkg/agent/agent.go with the upload registry of fs.go; AgentLogs and AgentContainers
-- are pkg/agent/containers.go, AgentImages is commands.go there, AgentRequests the dispatch by
-- method of agent.go and commands.go, AgentForward is forward.go, and EventWatch is
-- pkg/agent/events.go. Decimal, HostPort, Strings, Paths and Map are what these files use of Go's
-- standard library and maps; Prelude is shared by all. Tests has concrete inputs.
--
-- State is passed explicitly, and a method under a mutex is one step. Where goroutines interleave
-- (AgentConn, Sessions, AgentLink) a step is one critical section or one channel operation, `Reach`
-- or `Reachable` is every sequence of steps, and the channels are a heap beside the maps; `finish`
-- is the send that follows an unlock. Where a handler reads a store before a network call and
-- writes it after (ContainerEvents), the two states are two arguments. What the network, the
-- operating system, redis, or a peer answers is an argument: a script of results, a function, or a
-- record of operations with its documented laws. A Go map is an association list, so that a theorem
-- for every list holds for every order of iteration.
--
-- Bounds. Numbers of the source with a width wrap where they can reach it: `allocate` counts its
-- port as a uint32, the ids of watchers and requests as a uint64. The loop of `allocate` has the
-- fuel `to - from + 1`, which its theorem shows is enough for both stores; the loop of `boundSet`
-- has one unit per key and takes 100 keys each time; the pages of `SCAN` have any fuel, since redis
-- decides how many there are. Other loops are structural, along the script or the list.
--
-- Not modelled: the redis subscription to changes of the ports, the REST handlers that only check a
-- query, the listing and the inspection of containers, which only project what Docker answers, most
-- texts of errors, timeouts and logs. A path is modelled for Unix. Of the connection, the
-- serialization of gRPC sends; of the directory, expiry and errors of redis.
mod Prelude
pub mod Strings
pub mod Paths
pub mod Decimal
pub mod Ports
pub mod Map
pub mod AgentConn
pub mod Tunnel
pub mod AgentFs
pub mod AgentLink
pub mod AgentLogs
pub mod AgentImages
pub mod PeerForward
pub mod AgentRequests
pub mod AgentContainers
pub mod AgentForward
pub mod EventWatch
pub mod Order
pub mod Sessions
pub mod HostPort
pub mod ContainerEvents
pub mod Forwards
pub mod Registry
pub mod Rest
pub mod Metrics
pub mod Peers
pub mod ForwardHandler
pub mod Control
pub mod Bindings
pub mod Listeners
mod Tests
