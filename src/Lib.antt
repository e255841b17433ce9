-- ===== src/Lib.antt =====
-- rproxy: a TCP reverse proxy. Clients connect to a reactor (src/network); a center passes the events of
-- its parts on (src/pubsub); a load balancer assigns each client's socket to a backend and a proxy server
-- moves the bytes between the two (src/proxy).
--
-- The files, and the code each is about:
--   Base            shared names; Base/Tests and Base/Lists: Boolean tests and lists over the native
--                   numbers; Base/Eq: equality as an interface; Base/Maps: the standard library's
--                   unordered_map and unordered_set as lists; Base/Errors: `Result`, whose failures are the
--                   exceptions that the code throws and `undefined`, for a step that C++ does not define
--                   (a null pointer followed, storage overrun).
--   Network/Addr    InetAddr of src/network/stream_socket.{hpp,cc}.
--   Network/Buffer  ArrayBuffer of src/network/buffer.{hpp,cc}. Spec is the byte queue that it implements.
--   Network/Demultiplex, Network/Channel, Network/Connection
--                   Demultiplex, Channel and TcpConnection of src/network. A call gives what it asks of the
--                   kernel and of the center as a list of effects, in order; the kernel's answers to read
--                   and write are parameters.
--   Network/Server  TcpServer of src/network/tcp_server.{hpp,cc}, with the connections above. The
--                   notifications that its own connections cause are dispatched within the call.
--   Network/Socket  StreamSocket of src/network/stream_socket.{hpp,cc}, on system calls that are a parameter.
--   Network/Queue   LockedQueue and the constructors of LockFreeQueue, src/network/queue.hpp.
--   Network/Loop    EventLoop::loop of src/network/eventloop.cc and Acceptor::accept of
--                   src/network/acceptor.hpp.
--   Pubsub/Ids      the counters of ID in src/pubsub/pub_sub.hpp, as interleaved atomic steps.
--   Pubsub/Instance PubSubCenter::instance of src/pubsub/pub_sub.cc, as interleaved steps of threads.
--   Pubsub/Workers  WorkerGroup of src/pubsub/worker_group.hpp, as a relation of steps over LockedQueue, whose
--                   pop is two of them.
--   Pubsub/Event    the event types and contexts of src/pubsub/pub_type.hpp, src/pubsub/context.hpp,
--                   src/network/nw_ctx.hpp and src/proxy/proxy_ctx.hpp.
--   Pubsub/Center   PubSubCenter of src/pubsub/pub_sub.{hpp,cc}. Spec is the registry that it implements.
--   Network/Group   LoopThreadGroup of src/network/group.hpp.
--   Network/Reactor the loops around TcpServer: EventLoop::loop of src/network/eventloop.cc and
--                   LoopThreadGroup::run of src/network/group.hpp, with what each demultiplexer notifies.
--   Proxy/Loader    LoadBalancer of src/proxy/loader.{hpp,cc}. Queue is the thread of loadbalance, as steps
--                   between the calls of other threads.
--   Proxy/Server    ProxyServer of src/proxy/proxy_server.{hpp,cc}, on a kernel that is a parameter.
--   Proxy/Threads   ProxyServer::zeroCopy, called by several threads that share the pipe: each splice is a
--                   step, and the steps come in any order.
--   Proxy/Packet    Packet of src/proxy/packet.hpp, and what src/proxy/proxy_server.cc does with it where it is
--                   built with MSG_ATTACH.
--   Proxy/Ping      Ping of src/proxy/ping.hpp.
--   Lifetime        the constructors and destructors of Demultiplex, LoopThreadGroup, Acceptor, TcpServer,
--                   ProxyServer and LoadBalancer, at the center; Wiring is how the balancer and the proxy
--                   server subscribe to the TCP server and the balancer.
--   Flow            the TCP server, the balancer and the proxy server together, through one center: the way
--                   of a client's event from src/network/tcp_server.cc to a backend, with the subscriptions
--                   that Lifetime/Wiring makes. Run is the rounds of all threads, in any order. The
--                   application, which makes the parts and connects them, is not in the repository.
--
-- How the code is read. State is a record with the fields of the class, less those that no operation
-- reads; an operation is a function of the state that follows the source line by line, in its order
-- and with its early returns. An exception is `err`, with the state as before the call where the
-- source has not changed it. A call is one step; the locks of the center
-- (src/pubsub/pub_sub.cc) are commented out, so that this is a choice there, and LockedQueue::pop gives its
-- lock back halfway and is two steps in Pubsub/Workers. The steps of threads that interleave are in Pubsub/Ids,
-- Pubsub/Instance, Pubsub/Workers, Proxy/Loader/Queue and Proxy/Threads. Numbers of type size_t wrap
-- at 2^64 where the source adds them, and a buffer is bounded by the largest size that
-- std::vector<char> takes. A file descriptor is a number; -1 is a case of its own where it is tested.
--
-- Bounds. The loops of the source run over a list or a counter, but for some, whose fuel runs out as
-- `endless`. That of ProxyServer::zeroCopy takes the number of bytes received, which is enough where
-- each splice that goes well moves a byte. That of LockFreeQueue::round_up_to_power_of_two takes 64
-- rounds, which is enough for each size that a 64-bit power of two can reach. That of
-- ProxyServer::forward takes one round more than there are bytes, which is enough where each send that
-- goes well takes a byte. The loops of three attempts in
-- LoadBalancer::checkAllBackend take 3, which is enough since each counts `time` down from 3.
--
-- What is left out. StreamSocket::setNonBlocking where demultiplexRegister and establishWith call it; the sockets, epoll and threads themselves, whose answers are parameters; the
-- benchmark of benchmark/ and the build files; the accessors; what a constructor leaves where it throws
-- half-way; the loop ProxyServer::pooling, which joins threads; the template WorkerGroup::submit, which does
-- not compile where it is used; and what is compiled only with Debug.
pub mod Base
pub mod Flow
pub mod Lifetime
pub mod Network
pub mod Proxy
pub mod Pubsub
