-- ===== src/Lib.antt =====
-- A heartbeat responder answers datagrams that ask whether a process is alive. The repository has two:
-- the legacy class CCiHBResponser (legacy_compatible/CiHBResponser.cpp), a thread that polls its sockets
-- by itself, and HeartBeatSession (asio_base/HeartBeatSession.cpp), which hands its socket to Boost.Asio.
-- Both answer in one layout: seven fields, integers of four bytes in network order and addresses after
-- their lengths.
--
-- Which file models what:
--   Defs            CIHB_MAX_DATA_SIZE and the enumerations of legacy_compatible/CiHBDefines.h
--   Errors          the names CI_EINTR to CI_EREMOTE of legacy_compatible/legacy_support.cpp
--   Wire            the machine's htonl and memory layout as the record Host; Wire.Response describes the
--                   response independently of the code (encode, decode); Wire.Hosts has two machines
--   Os              the calls of Linux, as a record over a state World, and those on datagram sockets, which
--                   both systems have, as the record Sockets
--   Semaphore       CCiSemaphore of legacy_compatible/legacy_support.cpp; Semaphore.Interface is what a
--                   client sees of it, for both systems
--   Thread          CCiThread2: ThreadProc is thread_proc, its loop proc_loop, RunThreadHere run_thread_here,
--                   _CiThread2Entry thread_entry; what a derived class overrides is the record Virtuals
--   Poll            m_PollFds and m_iPollFdCount with PollFDAdd, PollFDDelete, PollFDEnable, PollFDDisable;
--                   Poll.Table says which list of live entries a table stands for, Poll.Bag
--                   which multiset of sockets
--   Net             CNetworkThread: Run is run, WaitNetworkEvent wait_network_event, ProcessReadEvent
--                   process_read_event; what a derived class overrides is the record NetVirtuals;
--                   Net.ReadSockets is m_ReadSockets, and Net.InStep relates it to the poll table;
--                   Net.Parts names the parts of run
--   Responser       CCiHBResponser, which fills NetVirtuals with its own operations (net_virtuals);
--                   Responser.Common is what both systems share of it, Responser.Message the part of
--                   SendHeartbeatResponse that builds the message; Responser.Runs puts it into Virtuals as
--                   the thread that the legacy program creates (thread_virtuals); Responser.Script is what
--                   the system does in the rounds of that thread until another thread calls EndThread;
--                   Responser.Ledger keeps account of the open descriptors, on both systems
--   Windows         the branches of the same files for Windows: Windows.Calls is Winsock and the rest of the
--                   system, as the record Win, Windows.Semaphore, Windows.Net and Windows.Responser are the
--                   classes over it
--   Session         HeartBeatSession; Session.Boost is what it uses of Boost.Asio, as the record Asio
--   Programs        the programs of examples/: Programs.Legacy, Programs.WithCiUtils and Programs.Complex make
--                   a responser, let it run and destroy it; Programs.AsioBase puts a session on an io_service;
--                   Programs.Platform is the build for a system that the first three share, and the builds
--                   for Linux and Windows
--   Examples        concrete machines, systems and objects, and the theorems at them
--   Prelude         numbers, lists, the state monad M with the predicate Post on its outcomes
--
-- Stateful code is a function M S A = S → Option (A × S) of an explicit state; none is a thrown exception,
-- an access out of bounds or the end of a loop's fuel. Members keep their names without the m_ and the
-- letters of their types. An int is a number of ℤ; where the source converts an unsigned number the
-- conversion is written out (to_int32, % 2 ^ 32). A switch whose cases run into each other is one function
-- for each case, the last called by the one before it. Another thread acts on the object only by
-- EndThread, at a read of m_bExit (read_exit).
--
-- Fuel: proc_loop takes one unit for each call of ThreadProc, of which a run makes at most three more than
-- reads of the exit flag that find it unset. Semaphore.wait takes one for each sem_wait; process_from takes
-- the size of the array, which no index may leave; on Windows it takes one for each element that the
-- iterator stands at, of which the responder's thread gives it the number of its read sockets.
--
-- Not modelled: the copy of CiUtils under examples/Externals, another library, of which the examples
-- call what the records CiThread and CiUtils name; the build files; what the `main` functions print.
-- The parameters Host, Sockets, Os, Win, Wsa, Asio, CiThread and CiUtils stand for the compiler's
-- platform, the operating systems, Boost and CiUtils; the laws of Host, Sockets, Win and Asio are
-- the documented meaning of htonl, ntohl, recvfrom, fd_set and boost::asio::streambuf, and those of
-- Responser.Ledger that of socket, close, closesocket and the calls that open and close nothing.
pub mod Prelude
pub mod Defs
pub mod Errors
pub mod Wire
pub mod Poll
pub mod Thread
pub mod Os
pub mod Semaphore
pub mod Net
pub mod Responser
pub mod Session
pub mod Windows
pub mod Programs
pub mod Examples
