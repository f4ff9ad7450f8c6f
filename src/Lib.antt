-- ===== src/Lib.antt =====
-- Lucky, a multi-threaded network library after the main/sub-Reactor pattern (C++11, Linux).
--
-- A loop (EventLoop) belongs to one thread. Its Epoller waits for events on file descriptors; a Filed
-- stands for one descriptor, holds the events that are asked for and those that came, and dispatches
-- them to callbacks. A Connection owns a Filed, an input and an output Buffer, and binds its handlers
-- to the Filed. Other threads hand a loop callbacks through its queue and wake it by an eventfd. On
-- the base loop an Acceptor takes connections in, and the Server gives each a name and hands it to a
-- loop of the ManagerPool, in turn.
--
-- The files, and the code that they are about:
-- - Base: shared notation, lists, the ways a call can end (Base/Outcome), size_t and int
--   (Base/Machine), the text of a number (Base/Text).
-- - Buffer: include/Buffer.h, src/Buffer.cpp. A record of the vector's bytes and the two indices; one
--   function per member function. Content, Space, Append, Retrieve, Transfer hold the lemmas per
--   operation, Refine the byte queue that a buffer implements.
-- - Filed: include/Filed.h, src/Filed.cpp. Masks is about the event bits, Steady
--   about what a change of them leaves, Dispatch and Readiness about handleEvent.
-- - Epoller: include/Epoller.h, src/Epoller.cpp. Interest joins Filed::enableReading and its siblings
--   to Epoller::update; Consistency, Requests, Runs, Obedience and Newcomer are about epoll_ctl, Wait about
--   epoll_wait, and Kernel is a kernel for the examples.
-- - EventLoop: include/EventLoop.h, src/EventLoop.cpp. Steps is a step relation of a loop and other
--   threads; Wakeup and Pending are invariants of it; Functors is about doPendFunc and loop, Ending
--   about the end of loop.
-- - Connection: include/Connection.h, src/Connection.cpp. Handlers has the part from handleRead on;
--   Stream is the invariant, Rest, Sending and ShortWrites are about sendinLoop, Draining
--   about handleWrite, Graceful about shutdown, Lifecycle about set-up, close and take-down, Binding
--   about the handlers in the connection's Filed, Calls about the calls that wait in its loop.
-- - Manager: include/Manager.h, src/Manager.cpp, with Handshake as the steps of the two threads, and
--   Missed about a loop that ends too early.
-- - ManagerPool: include/ManagerPool.h, src/ManagerPool.cpp. Turns is about getNextLoop, Start about
--   start and the names of the Managers.
-- - Acceptor: include/Acceptor.h, src/Acceptor.cpp, with Listening about its time in the Epoller, and
--   Opening about its socket.
-- - Socket: include/Socket.h, src/Socket.cpp, on a kernel whose calls are arguments, with Options about
--   the four setters, and Memory as a kernel for the examples.
-- - Server: include/Server.h, src/Server.cpp, on a state of all loops and connections. Names is about
--   connections_ and the names in it, Handing about a call that goes to another thread's loop,
--   Accepting and Newborn about newConnection, Removing about removeConnection, Starting about start,
--   Closing about the destructor. Tasks has the calls that wait in the loops, Calls is about
--   what they do to the loops, Events has the
--   handlers that events run, Ready and Hangup are about handleEvent of a connection's Filed, Life
--   about the end of a connection over two loops.
-- - Thread: include/Thread.h, src/Thread.cpp. Handshake is start with the new thread as steps, with or
--   without signals that interrupt sem_wait, Closing is about the destructor, Names about the names. ThreadId: include/ThreadID.h.
-- - TimeStamp: include/TimeStamp.h, src/TimeStamp.cpp, with Texts about the text of a time.
-- - LuckyLog: include/LuckyLog.h, src/LuckyLog.cpp, with Races about several threads whose
--   insertions to cout interleave.
-- - Address: include/Address.h, src/Address.cpp, with Texts about toPort and toIpPort.
-- - EchoServer: testcode/test.cpp, and handleEvent of a connection's Filed with its callbacks. Waiting
--   is a connection between two events, Echoing is about the handlers on one, Handling about
--   handleEvent, Serving about any events, Established about a connection from its set-up on, Accepted
--   about one from newConnection on.
--
-- A call that ends abnormally is an `err` with a Fault: an access outside an object, length_error,
-- bad_function_call, a failed assert, the exit of LOG_FATAL, std::terminate or std::system_error. System calls (readv, write,
-- epoll_ctl, epoll_wait and others) and the functions of the network headers are arguments, and
-- their documented answers are hypotheses. A size_t keeps its wrap at 2^64. Loops are recursion on
-- a list or a count: EventLoop::loop runs over the waits to come. Only the digits of a printed
-- number are made on fuel, one more than the number, and that is enough, since reading them back
-- gives the number. A pointer is a number, a user's callback a function on the state that it may
-- change.
--
-- Not modelled: the log lines of the components, other than LuckyLog's own; the thread id and the
-- clock, which are arguments; the order of memory accesses below the steps of EventLoop/Steps,
-- Manager/Handshake, Thread/Handshake and LuckyLog/Races; what CMake generates.
pub mod Acceptor
pub mod Address
pub mod Base
pub mod Buffer
pub mod Connection
pub mod EchoServer
pub mod Epoller
pub mod EventLoop
pub mod Filed
pub mod LuckyLog
pub mod Manager
pub mod ManagerPool
pub mod Server
pub mod Socket
pub mod Thread
pub mod ThreadId
pub mod TimeStamp
