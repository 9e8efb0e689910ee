-- ===== src/Lib.antt =====
-- asabru-engine: a proxy engine in C++. Clients connect to a proxy socket; for each of them a relay
-- thread connects to a target chosen by a load balancer and carries bytes both ways through a handler,
-- which may decode the ClickHouse wire protocol or borrow target connections from a pool.
--
-- The parts, and the files that model them:
-- * src/decoder/ClickHouse_Wire.h and ClickHouse_Wire.cpp, the ClickHouse codec. Wire/Packets has the
--   codes and the packet structs, Wire/Reader the class ClickReadProtoBuffer (ReadByte is `read_byte`,
--   ReadVarint64 `read_varint64`, and so on), Wire/Writer the class ClickWriteProtoBuffer, Wire/Decoder
--   CProtocolPacketDecoder and Wire/Encoder CProtocolPacketEncoder. Wire/Reader/At and
--   Wire/Writer/Appends view a buffer as the bytes behind and before its index; Wire/Varint,
--   Wire/Strings, Wire/Decoder/*, Wire/Encoder/Hello and Wire/Exchange hold the proofs; Wire/Reference
--   reads the format off a list of bytes, and compares the decoders with that. Wire/Lifetime has the
--   destructors, and the memory of decoders and encoders.
-- * src/connection_pool/pool.cpp and include/connection-pool, the connection pool: Pool has the
--   two maps, the proxies and every method (`get_connection`, `release_connection`, `heart_beat`,
--   `move_assign` for the move assignment, `destroy_proxy` for the destructor); Pool/Keys, Pool/Owned,
--   Pool/Lease and Pool/Proxies hold the proofs, Pool/Abstract the pool as two bags of addresses,
--   Pool/Weighed what its connections carry, and Pool/Clients what clients that keep to its proxies can
--   do with it.
-- * src/socket/Socket.cpp, Socket.h and SocketSelect.cpp: Net/Receive has the calls that read and
--   SendLine, Net/Send SendBytes, Net/Blocking RecvBlocking and make_nonblocking, Net/Lifecycle the
--   constructors, the assignment and the destructor around the reference counter, Net/Select SocketSelect;
--   Net/Descriptors has the descriptor table of the process.
-- * src/socket/CServerSocket.cpp, CServerSocket.h and src/config/EngineConstants.h: Server, with its
--   listener thread in `listen_thread_proc` and the tasks of the pool in Server/Tasks; src/libuv-socket:
--   Server/Libuv.
-- * src/socket/CClientSocket.cpp and CClientSocket.h: Client, with Client/Closing for what the two closes
--   of its destructors meet.
-- * src/connection_pool/TcpConnection.h, in Tcp: the client socket as a connection of the pool, and
--   the destructor of a pool of such connections (`destroy_pool`), followed up to its end in Tcp/Shutdown
--   and, from the factory on, in Tcp/Lifetime.
-- * src/socket/SSLSocket.cpp and CClientSSLSocket.cpp: Tls has the set-up of a session, Tls/Client the
--   client's connection, Tls/Reading and Tls/Blocking what is read from a session, Tls/Life
--   all uses of one session up to its destructor.
-- * src/interface/CProxySocket.cpp, CProxySocket.h, CProxyHandler.h and LibuvProxySocket.cpp: Proxy has
--   the relay thread (`upstream` and `downstream` are its two try blocks), Proxy/Sockets its loop on the
--   two sockets themselves (`socket_loop`), Proxy/Leaving when that is left, Proxy/Stream the
--   bytes that go out of it, Proxy/Setup what is set up before it, Proxy/Libuv the second relay thread,
--   Proxy/Variants the set-up of LibuvProxySocket.h and of CApiGatewaySocket.
-- * src/interface/CProtocolSocket.cpp, CProtocolSocket.h and src/protocol-handlers/BaseProtocolHandler.h:
--   Protocol, and Protocol/Serving from Start to the responses;
--   src/protocol-handlers/CHttpProtocolHandler.h, the registration of its handlers:
--   Protocol/Registry.
-- * Engine puts the parts together: a proxy socket that is started and opened, its listener, its tasks
--   and the relay threads (`proxy_thread` is ThreadHandler on the sockets themselves); Engine/Descriptors
--   the descriptors that the clients leave open.
-- * Greeting takes a server's Hello from the packet encoder over a socket to the packet decoder.
-- * Common has the shared names, Boolean tests, list functions, lemmas on bits, and `Checked`.
--
-- How the code is modelled. A byte is a number below 256 and a text a list of bytes; a `uint64_t` is a
-- number below 2 ^ 64, with the wrap of a shift written out, and WriteAll narrows its length to an
-- `int`. An access outside an array is undefined behaviour in C++: it is the result `fault` of
-- `Checked`, and no claim is made of what happens after it. Each call of a method is a function from
-- the object's state to the result and the new state. The varint loops run at most MAX_VARINT_BYTES = 10
-- rounds, as in the source; no other fuel is used. The order in which an `unordered_map` is walked is
-- the parameter `walk`; where a theorem needs it to be a reordering, that is its hypothesis. The
-- connections of the pool, the proxy handler and the reachability of a target are parameters too. What
-- the kernel answers is a finite script: Net/Receive tells by `waits` that a script ended in the middle
-- of a call, and the relay loop runs over a list of rounds and tells whether it left its loop.
--
-- Objects that are shared are explicit: Net/Lifecycle has a store of counters, by address, with the live
-- objects beside it, and histories of operations as a step relation; in Tls a pointer to an object of
-- OpenSSL is unset, live or freed. Where the answers of the kernel, of the resolver or of OpenSSL
-- decide what happens, they are records of such answers.
--
-- How the parts interact: a listener hands client data to a thread routine (Server, Server/Libuv), which
-- the relay of Proxy and Proxy/Libuv is; the pool's connections are client sockets (Tcp); the relay takes
-- an empty result of ReceiveBytes for the end of a stream, which Net/Receive/Bytes is about, and
-- Proxy/Sockets puts SocketSelect, ReceiveBytes and the relay together.
--
-- Outside Net/Send and Proxy/Stream a text that is handed to `send` counts as sent whole, since none of the callers looks
-- at what became of it.
--
-- What is not modelled: logging and printing, socket options but the ones that decide a branch, the
-- choice of the load balancer, the threads of the pool behind the tasks that they are given,
-- HandleData and HandleHttpRequest of CHttpProtocolHandler, whose code is nowhere in the
-- repository, and everything that the build fetches from other repositories.
pub mod Common
pub mod Wire
pub mod Pool
pub mod Net
pub mod Proxy
pub mod Server
pub mod Client
pub mod Tcp
pub mod Tls
pub mod Protocol
pub mod Engine
pub mod Greeting
