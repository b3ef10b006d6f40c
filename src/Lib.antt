-- ===== src/Lib.antt =====
-- go-clarinet, a library for the Clarinet protocol: peers set up connections that a third peer
-- witnesses, and close them.
--
-- The parts of the program, and the files that model them:
--
-- Peer, Connection, Connection/Error, Reputation: the data of v2/peer/peer.go,
-- v2/connection/connection.go and v2/reputation/reputation.go, and the connection and the
-- reputation of starterimpl/inmem/inmem.go. A peer id is nil or a number, since ids are only
-- compared; a connection id is a number for its 128 bits. Errors are data, with the text that
-- `Error()` gives them.
--
-- World: the state of a node and the monad of its operations. A call comes to a value, an error or
-- a panic. The interfaces that the node is given (the peer store, the transport, the application's
-- handlers, the trust function) and the random numbers are an `Env`: functions that may answer
-- anything, over an outside state of any type. World/Rules has the proof rules.
--
-- Inmem/Connections and Inmem/Reputations: the stores of starterimpl/inmem/inmem.go (`Create`,
-- `Accept`, `All`, `Read`, `Update`), over association lists. The callback of an `Update` runs
-- inside it.
--
-- Node: v2/goclarinet.go. Node/Peers has `Connections`, `UpdatePeer` and `RequestPeers`,
-- Node/Witness has `handleWitnessSelection` with `findWitness`, `witnessCandidates`,
-- `requestWitness` and `sendWitnessNotification`, Node/Connect has `Connect` and
-- `requestConnection`, and Node/Close has `CloseConnection` and `requestClose`.
--
-- Handlers: the five adapters of v2/handlers.go, one module for each. The goroutine that the
-- connect handler starts is a `Task` of the state, which `run_task` runs whenever the run says so.
--
-- Process: a run of a node as a list of actions, each an exported operation, a request that comes
-- in, or a started task. Operations are taken one after the other. `Update` holds the lock of its
-- entry, so two operations on one connection are not interleaved.
--
-- Wire: starterimpl/libp2p/serde.go. Wire/Base64 is `b64enc` and `b64dec`, Wire/Split is
-- `strings.Split` and `strings.Join`, Wire/Decimal is `%d` and `strconv.Atoi`, Wire/Parts is
-- `getParts`, `serializeSlice` and `deserializeSlice`, Wire/Messages and Wire/Peers have the two
-- functions of each message, and Wire/Payload is `serialize` and `deserialize`. The texts of UUIDs
-- and of peer ids are parameters, of which `Faithful` says what is relied on. Errors are data
-- without their texts.
--
-- Transport: the transport of starterimpl/libp2p/libp2p.go. Transport/Serve is `readWriteWrapper`
-- and `streamCleanupWrapper`, Transport/Endpoints is `RegisterHandlers`, and Transport/Client is
-- `Send`, `Exchange`, `sendInternal` and `openStream`. The host is a parameter; what is done to a
-- stream is a list of events. Transport/Delivery puts the two sides together. There, streams are
-- taken one by one; Transport/Shared has the request variable that the streams of a protocol share,
-- and their turns.
--
-- PeerStore: the peer store of starterimpl/libp2p/libp2p.go, over the peer store of the host.
--
-- Inmem/Messages: the messages and the message store of starterimpl/inmem/inmem.go, and the keys of
-- v2/crypto/crypto.go.
--
-- Log, Log/Zap: v2/log/log.go and starterimpl/zap/zap.go.
--
-- App, App/Http: the application's handlers and the HTTP interface of main.go, with encoding/json
-- as a parameter; App/Routes is `startHttpServer`, with the value that each route keeps. App/Start
-- is what main.go does before it: the configuration, the logger, the key, the host and `NewNode`.
-- App/Trust is its trust function; there float64 and math are a parameter, of which `IsExact` says
-- what is relied on. App/Start leaves the trust function to the environment that it is given.
-- App/Accepts is a node with libp2p's peer store and the application's handlers.
--
-- App/Cluster: a node of main.go among others. The outside of the node is its own and the states of
-- the other nodes; a call of its transport writes to a stream that leads to the endpoint of the
-- other node, which reads what was written and is then in the state that its handler leaves. A
-- selection that a handler starts is not run there. The calling node is one end of every call, so
-- no two nodes act at the same time. In App/Cluster as in Node, the trust function is a call out,
-- which does not touch the stores; App/Trust says what that of main.go does to the reputations.
--
-- Tests: a sample environment and concrete runs.
--
-- Beside a module stands what is proved of it: Effect for its effect on the connections, Bounds for
-- the number of peers, Agreed, Opens and Course for what operations come to when every call
-- succeeds, RoundTrip and Framing for the wire format, Outcomes for the ends of a stream, and
-- others that are named for what they prove.
--
-- Every loop is over a list, or over the number of peers that a request asks for; only the digits
-- of a number n take fuel, which is n + 1, and n has no more digits than that. Numbers that count
-- (float64 points of a reputation, peers) are unbounded; a float64 holds every whole number up to 2
-- ^ 53.
--
-- The value of a reputation is a fraction of whole numbers, which the source rounds to a float64.
--
-- Not modelled: libp2p itself; two HTTP requests at the same time; the bits of a float64; the
-- output of the logger; the messages with which the start of main.go ends the process; the wiring
-- of main.go's trust function into the node; a `Find` of a peer store that returns a peer beside an
-- error.
mod Base
pub mod Peer
pub mod Log
pub mod Connection
pub mod Reputation
pub mod World
pub mod Inmem
pub mod Node
pub mod Handlers
pub mod Process
pub mod Wire
pub mod Transport
pub mod PeerStore
pub mod App
mod Tests
