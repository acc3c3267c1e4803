-- ===== src/Lib.antt =====
-- A model of net-flux: framed TCP connections with reconnection and a server, the byte streams, the
-- caches, the periodic tasks and the probes they make, the discovery of services and the balancers.
--
-- The parts and where they are modelled:
-- - Base: shared types and lemmas; Base/Bytes the fixed-width integers in bytes and copies between
--   slices, Base/Int Go's signed integers and its conversions, Base/Map the maps of Go as association
--   lists, Base/Text strings as lists of code points with the parts of strings and strconv in use.
-- - Util: pkg/util/md5.go and pkg/util/net.go.
-- - Logger/Rolling: pkg/logger/rolling.go, where a pointer is a number and the timer's goroutine two
--   steps, for a file on its channel and for a tick. Logger/Levels: pkg/logger/logger.go over the
--   packages log and fmt, where a call has the stack of those who made it.
-- - Stream: pkg/network/stream/stream.go. Stream/Defs has what the two implementations share,
--   Stream/BigEndian and Stream/LittleEndian one function for each of their methods. A stream is the
--   position and the buffer; a method returns the stream after the call and its result or error.
-- - Network/Packet: pkg/network/types.go and `parseHeader`. Network/Writer:
--   pkg/network/tcp_writer.go over an `io.Writer` that is a parameter with its documented contract.
--   Network/Reader: pkg/network/tcp_reader.go over the bytes that the connection delivers.
--   Network/Dispatch: pkg/network/misc/proto.go and `OnMessage` of pkg/network/tcp_con.go;
--   `proto.Unmarshal` is a parameter. Network/Client: pkg/network/tcp_cli.go. Network/Conn: the
--   life of a connection in pkg/network/tcp_con.go, where a method returns the connection after the
--   call and its effects on the outside in order; what the network and the event handler answer is
--   an argument. Network/Server: pkg/network/tcp_server.go as steps. Network/Delivery composes the
--   writer of one side with the reader and `OnMessage` of the other.
-- - Cache/Lru and Cache/InMem: pkg/util/cache/lru.go and pkg/util/cache/inmem.go. A list element is a
--   number, an instant is a number that each call is given. Cache/Shared: pkg/util/cache/shared.go,
--   over the commands of Redis in Cache/Redis, which also has the options of
--   pkg/util/redis/redis.go; what Redis and gob do is a parameter.
-- - Dataflow/Scheduler: pkg/dataflow/task/scheduler.go. Dataflow/Prober:
--   pkg/dataflow/task/net_prober.go, where the context, the clock, the requests, the resolver and
--   net/url are a world that is a parameter; its child Report has the metric. Dataflow/Collect: the
--   tasks of pkg/dataflow/task; Dataflow/Channel: pkg/dataflow/core; Dataflow/Lifecycle:
--   pkg/dataflow/dataflow.go and pkg/dataflow/report.go.
-- - Naming/Types: the interface of a discovery client and the messages it deals in.
--   Naming/RpcClient: the lookups of pkg/naming/rpc_client.go, split where other goroutines can
--   come between; its children have the constructor, the configurations over the shared cache, the
--   lookups of several goroutines, and the other requests with the event handler that passes
--   LOOKUP_ACK on. Naming/Nacos:
--   pkg/naming/nacos_client.go and its wrappers of the SDK, which is a parameter. Balancer/Robin
--   and Balancer/Compose: pkg/balancer, over the interface, with the library json as a parameter;
--   Balancer/Unstored puts them on the client over the shared cache.
-- - Disco: examples/disco/server, the event handler of the discovery server and the factory of its clients
--   of Nacos, over the SDK in Naming/Nacos/Clients and the `WritePacket` of its connections; Disco/Kept
--   has what the naming service is relied on for.
--
-- How they interact: the connection's reader takes packets off the socket, which the writer of the
-- other side has framed, and hands each to `OnMessage`; a connection that closes offers itself to
-- the server's loop, which removes it from its table. A LOOKUP_ACK among the messages wakes the
-- lookups that wait for its services; the balancers choose among the instances that a lookup
-- returns, and keep services and choices in the client's configurations, which are entries of the
-- shared cache or of Nacos. The discovery server answers the registrations and the lookups of such
-- clients from Nacos. The tasks of the scheduler probe addresses and send the metrics over the
-- connection.
--
-- Bytes and machine integers are natural numbers, with `% 2 ^ w` where Go truncates. Loops run on
-- fuel where they are not structural: `writeAll` (one more than the bytes to send is enough for a
-- writer within its contract), the reading loop (one more than the bytes that come), and the eviction
-- of the LRU cache (the number of elements). A `none` of these means that the fuel ran out.
--
-- A step is a method, or the part of one that its comment names. Where the source holds a lock
-- through the method nothing can come into the step. `Connect`, an attempt of `reconnect` and
-- `Pick` take no lock, the scheduler's `Stop` gives its lock back before it closes the channel, and
-- `Get` of the cache in memory takes two locks after each other: such a step stands for a call into
-- which no other comes, but for `Get`, whose two steps are there on their own as well. Not
-- modelled: the logger's redirection of the standard output, the generated messages, the functions
-- that only pass arguments on to the libraries of Redis, Nacos, gopsutil and the operating system,
-- the waiting for the connections that a shutdown aborts, goroutines that only wait with a timeout,
-- the contents of log lines and of error texts, and the examples but for the discovery server.
pub mod Base
pub mod Util
pub mod Logger
pub mod Stream
pub mod Network
pub mod Cache
pub mod Dataflow
pub mod Naming
pub mod Balancer
pub mod Disco
