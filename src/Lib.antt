-- ===== src/Lib.antt =====
-- The core of fabrica-net, a TCP, KCP and WebSocket network framework for game servers: the buffer
-- pools, the packet codecs on them, the registry of the connected workers, the life of a connection on
-- either side, and the parts that open connections.
--
-- A codec (tcp/frame/codec.go) takes a buffer from a `ringpool.Pool` for each packet that it decodes
-- and hands it to the worker with the function that gives it back. The pool
-- (internal/ringpool/multipool.go) picks a ring by size; a ring (internal/ringpool/pool.go) hands out
-- its slots without a lock. A worker (internal/worker.go) that has shaken hands stands in the worker
-- manager (internal/workermanager.go), by worker id in sharded buckets and, for the whole process, by
-- user id.
--
--   Base       Boolean tests, lists, bit operations and integers, over the native numbers.
--   Conf       conf/conf.go: the configurations.
--   RingPool   internal/ringpool/pool.go: `NewRingBufferPool`, `Alloc`, `Free`. `Own` has clients on it
--              and their histories, `Race` the same code as interleaved atomic accesses.
--   MultiPool  internal/ringpool/multipool.go and default.go: `NewMultiSizeRingPool`, `Alloc`, `Free`.
--   Frame      the length prefix of xnet/service.go's packets, and the codecs on it: `Tcp` is
--              tcp/frame/codec.go, `Kcp` kcp/frame/codec.go, `Ws` websocket/frame/codec.go with
--              websocket/wsconn/conn.go. `Init` is the initialization of their pools.
--   Workers    internal/workermanager.go: `Put`, `Del`, `Worker`, `GetByUID`, `GetByUIDs`, `Walk`.
--   Net        ids of connections (internal/listener.go) and of dialogs (client/option.go).
--   Server     internal/server.go: `Push`, `Multicast`, `Broadcast`, `Disconnect` and `WIDList` on the
--              manager; server/inspector.go: `Wrap`.
--   Options    server/option.go: the options of a server and `NewOptions`.
--   Session    xnet/session.go, the cryptor of xnet/crypto.go and the keys of xnet/ecdh.go.
--   Life       internal/worker.go: `Start`, `handshake`, `read`, `write`.
--   Work       internal/server.go: `work`, the life of one connection on the manager; `acceptLoop`,
--              `Start` and `Stop`. `Together` has many connections at once.
--   Loops      internal/worker.go: `readLoop`, `sendLoop`, `tickLoop`, `Run`, `Tunnel`, `Stop`, and
--              internal/tunnel.go: `Forward`, `csLoop`, `run`, `stop`. `Closing` has `Push` and `Forward`
--              against the closing of their channels.
--   Tunnels    internal/tunnelmanager.go: lookup, `createTunnel`, `stop`; and the push errors of
--              internal/tunnel.go.
--   Tuner      kcp/util/config.go: `Validate`, the settings of a connection, and the tuner.
--   Dialog     internal/dialog.go: `start`, `handshake`, `receiveLoop`, `Send`, `stop`.
--   Client     internal/client.go, and `Dial` of tcp/client/dialer.go, kcp/client/dialer.go and
--              websocket/client/dialer.go.
--   Listen     tcp/server/listener.go, the channel of websocket/server/listener.go and its test of an
--              origin, and kcp/server/listener.go: `Kcp` in sequence, `Smux` the registry of smux
--              sessions as interleaved steps.
--   Ip         internal/util/ip.go.
--
-- A worker is the server's end of a connection and a dialog the client's: both decode into buffers of
-- the pools, open packets with the cipher of their session, and pass them on. A server accepts
-- connections from a listener, and its `work` starts a worker, registers it, runs its loops and ends it;
-- a client gets its connections from a dialer and has a dialog for each.
--
-- Machine words are numbers below a power of two, with the wrap-around written out. Memory is a
-- function from addresses to bytes with the next free address; a slice is an address, a length and a
-- capacity. A `sync.Map` is an association list whose keys carry their type. The loop of `Alloc` runs
-- on `capacity + 1` units of fuel: each round moves `head` on by one, and the window between `tail` and
-- `head` is full after at most `capacity` of them.
-- The interleaved model has no fuel: it is a step relation on atomic accesses.
--
-- What a socket, smux, gorilla, a service, a filter or a cipher answers is a parameter, and a run of the
-- code is then a value with the trace of what it did: the errors, and the buffers, connections and
-- workers in the order in which they are taken and given back. A loop runs over the list of its turns,
-- and has not ended where they run out. `middleware.Chain`, `net.ParseIP` and the other functions on
-- addresses are parameters too. Where goroutines meet, on a ring, on a channel that is closed, in the
-- registry of smux sessions and on the worker manager, the model is a step relation; in `work` the other
-- goroutines are a function on the manager.
--
-- Not modelled: sockets, the HTTP servers, the loops of the KCP listener's goroutines, deadlines, the
-- goroutines of `Run` and of a tunnel beyond their loops, loggers, `Stats`, the ciphers and keys behind
-- xnet/crypto.go and xnet/ecdh.go, the constructors of servers and clients per protocol, and the examples.
mod Base
pub mod Conf
pub mod RingPool
pub mod MultiPool
pub mod Frame
pub mod Workers
pub mod Net
pub mod Server
pub mod Options
pub mod Session
pub mod Life
pub mod Work
pub mod Tunnels
pub mod Tuner
pub mod Dialog
pub mod Client
pub mod Ip
pub mod Listen
pub mod Loops
