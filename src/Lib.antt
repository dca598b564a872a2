-- ===== src/Lib.antt =====
-- A model of sephi, a C++ library of asynchronous endpoints (TCP, UDP, serial ports) over asio and
-- of interprocess primitives over Boost.Interprocess, with theorems about it. Paths are from the
-- root of the repository.
--
-- THE PROGRAM'S PARTS. An endpoint owns an `io_context_` and a runner thread that runs the posted
-- lambdas and the completion handlers, one at a time; the methods of an endpoint run on the threads
-- of its user. The TCP client (include/sephi/net/tcp/client/client.h, src/net/tcp/client/client.cpp)
-- and the serial port (include/sephi/net/serial, src/net/serial) post their writes; the TCP server
-- (include/sephi/net/tcp/server, src/net/tcp/server) keeps a map of sessions, each an object that
-- its handlers own too; the UDP endpoint (include/sephi/net/udp/udp.h, src/net/udp/udp.cpp) has a
-- receive loop. They share include/sephi/net/types. Besides them there are an event for threads
-- (include/sephi/sync/event.h, src/sync/event.cpp) and, between processes, shared memory, a message
-- queue, an event and a named event (include/sephi/ipc, src/ipc).
--
-- WHICH FILE MODELS WHICH PART. A record has the members of the class with the trailing underscore
-- dropped, and each method and handler is a function of the same name.
--   Base                helpers: Boolean tests, lists over the native numbers, runs of inputs
--   Net.Types           types.h and remote.h; error codes, endpoints, what a read leaves in a buffer
--   Net.SendLoop        the laws of a deque whose front is being written, which client, serial port
--                       and session share; Client.Sending and Serial.Delivery are instances of it
--   Net.Channel         an abstract specification of sending: what is accepted, given to
--                       `async_write` and still to give, and whether a write is under way or has
--                       failed; the Refinement modules of client, serial port and session are about it
--   Net.Client          Client: its methods, the lambda that `write` posts (`send_posted`), that of
--                       `close` (`run_task`), and handle_connect, handle_read, handle_write
--   Net.Client.Handlers Client with handlers of the user that call it back; Net.Callbacks has what
--                       this and Net.Serial.Handlers share
--   Net.SerialParams    serial_params.h and .cpp
--   Net.Serial          Serial, likewise, with handle_open and its five `set_option` calls
--   Net.Serial.Handlers Serial with handlers of the user that call it back
--   Net.SessionMap      `sessions_`: find, emplace, erase
--   Net.Session         Session, as far as its own members go
--   Net.Session.Threads  Session::write and Session::handle_write a statement at a time, in any
--                       number of threads
--   Net.Server          Server, and what the handlers of a session do to it
--   Net.Server.Handlers Server with handlers of the user that write to its sessions
--   Net.Server.Unordered  the order in which `sessions_` gives its entries
--   Net.Stream          an interface: one direction of a TCP connection, with laws
--   Net.Link            a client and a server with a connection between the client and one of the
--                       server's sessions, each as it is modelled alone; Net.Link.Echo, where the
--                       packet handler of the server writes back what it is given
--   Net.Udp             Udp, with the loop of handle_read
--   Net.Udp.Handlers    Udp with handlers of the user that call it back
--   Net.Udp.Buffers     the chunks of the caller, which the buffers of write_to and broadcast refer to
--   Net.Udp.Network     UDP endpoints, each as it is modelled alone, on a network that loses,
--                       reorders and repeats datagrams
--   Sync.Event          Event: the shared accesses of `set` and `wait`, as a step relation
--   Ipc.Names           an interface: the named objects of Boost, with laws; Names.Machine has them
--   Ipc.SharedMemory    SharedMemory, over Ipc.Names and the members of a mapped segment
--   Ipc.MessageQueue    MessageQueue, over Ipc.Names and the members of a queue
--   Ipc.Event           the Event of include/sephi/ipc/sync/event.h and src/ipc/sync/event.cpp: `set`
--                       and `wait` as lists of statements, and a machine that runs them
--   Ipc.NamedEvent      NamedEvent, over Ipc.Names; the accesses of `set` and `wait` as steps
-- The modules below a component have its theorems, and Examples its tests and concrete runs. Below
-- the two wrappers of Ipc there are also the laws of the queue (MessageQueue.Laws), the order of
-- messages with priorities (MessageQueue.Priorities) and the programs that the theorems are about
-- (SharedMemory.Program, MessageQueue.Programs).
--
-- HOW THE ENDPOINTS ARE MODELLED. An endpoint is a state with a function `step` over inputs: the
-- calls of the user, the run of the oldest posted handler, and the completion of an operation that
-- is under way, with the result that asio or the system gives it. So a list of inputs is a run in
-- any interleaving of user, runner thread and network; what asio guarantees is that posted handlers
-- run in order on the one runner thread, and that an operation completes once. A call of a method is
-- one step. The operations under way are in the state; a completion names one by its place. The
-- handlers of the user are seen by the calls made to them, in order. That they call back, from
-- inside of the endpoint's own handler, is Net.Client.Handlers, Net.Serial.Handlers,
-- Net.Server.Handlers and Net.Udp.Handlers, which relate this to runs in which they do not. Sockets
-- and ports are named by the number of their creation. An error code is a number, 0 for success. An
-- exception that leaves a handler leaves `io_context_.run()` and the runner thread, which ends the
-- process: the runner is then `terminated`, and nothing follows. `stop` is the destructor. A byte is
-- a number; sizes are natural numbers, except where the code computes with `size_t` in a way that
-- could wrap: `available -= read` of the UDP loop is taken modulo 2^64.
--
-- FUEL. Only the loop of Udp::handle_read has fuel: one more than `available()`. Each turn takes a
-- datagram of at least one byte off the rest, so this is enough where the datagrams that
-- `available()` tells of have bytes; running out is an end of its own, which handle_read_delivers
-- excludes.
--
-- PARAMETERS. asio's sockets, addresses and enumerator values, the two directions of a TCP
-- connection, the sockets of UDP, the kernel's serial driver, Boost's segments, queues and names, and
-- the clock are arguments, with the documented behaviour that a theorem needs as named laws
-- (SocketOps, IsQueue and Kernel, StreamLaws, PortBase, NamesLaws, QueueLaws, Apart); the
-- Examples give each a concrete program.
--
-- NOT MODELLED. include/sephi/ipc/mq/boost/message_queue_mod.hpp is a changed copy of Boost's
-- message queue; the empty subclasses of Boost types in include/sephi/ipc/sync and
-- include/sephi/ipc/container, the allocator and deleter types of SharedMemory, and
-- src/util/random_string.cpp only call or rename libraries; src/net/types/chunk.cpp is not built.
-- The Windows branches are left out: the POSIX ones of Serial::flush and of the destructors in src/ipc
-- are modelled. Elsewhere than in Net.Session.Threads and in the events, a call is one step, so that data
-- races between the user's threads and the runner thread are outside of the model.
pub mod Base
pub mod Ipc
pub mod Net
pub mod Sync
