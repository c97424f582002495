-- ===== src/Lib.antt =====
-- bounce, a reactor network library in C++11: event loops that watch descriptors, timers, and TCP
-- servers and connections with their buffers.
--
-- The parts and the files that model them:
--
-- * bounce/buffer.h, bounce/buffer.cc: Buffer.antt. A buffer is its storage with the two indices;
--   `append`, `make_space`, `read_fd`, `read_as_string`, `retrieve`, and one `peek_int`,
--   `write_int` and `read_int` for the three sizes of integers. Buffer/Inv has the invariant,
--   Buffer/Append what `append` does under it, Buffer/Queue the queue of bytes that a buffer is for
--   its clients.
-- * bounce/channel.h, bounce/channel.cc: Channel.antt. The events that a channel is watched for, as
--   bits, and `handle_channel` over callbacks that change any state.
-- * The class of bounce/poller.h: Poller.antt. What the abstract class promises, as a record of
--   operations with their laws, over which loops are stated; Poller/Watching has the channels of a
--   loop with it.
-- * bounce/poll_poller.h, bounce/poll_poller.cc: PollPoller.antt. The map from descriptors to
--   channels, the array of `::poll`, and the channels at their addresses. PollPoller/Inv has the
--   invariant that joins them, and PollPoller/Implements fills Poller's record.
-- * bounce/tcp_connection.h, bounce/tcp_connection.cc: TcpConnection.antt. A connection with its
--   channel and its two buffers; what it asks of its loop is a list of requests, and `wire` is what
--   the kernel has taken. TcpConnection/Inv has the invariant of the output, TcpConnection/Stream
--   sequences of calls. TcpConnection/Object is the class with all its members, the callbacks set by
--   the program among them, and any sequence of its functions; TcpConnection/Object/Uses takes in
--   those that set its callbacks and its context.
-- * bounce/timer.h, bounce/timer.cc, bounce/timer_queue.h, bounce/timer_queue.cc: TimerQueue.antt. The
--   two multimaps as lists in order, and the callbacks that may add timers while `handle_read` runs
--   over a map. TimerQueue/Inv has the invariant, TimerQueue/Run and TimerQueue/Passes one pass of
--   `handle_read`, TimerQueue/Endless the callbacks that keep it from ending, TimerQueue/Calls the
--   functions in any order, and TimerQueue/Timers one timer.
-- * bounce/event_loop.h, bounce/event_loop.cc: EventLoop.antt. The queue of tasks and the eventfd;
--   EventLoop/Steps has the steps of the loop and of the other threads in any order. EventLoop/Loop
--   is a turn of `loop` over any poller, EventLoop/Construct the constructor, EventLoop/Timers the
--   functions for timers, EventLoop/Timed the loop with its timer queue from the task to the callback,
--   and EventLoop/Calls the functions that any threads call.
-- * bounce/event_loop_thread.h, bounce/event_loop_thread.cc: EventLoopThread.antt. A thread is the
--   function that it runs.
-- * bounce/loop_threadpool.h, bounce/loop_threadpool.cc: LoopThreadPool.antt. The loops of the threads,
--   and the choice of one for each connection. LoopThreadPool/Threads has the threads themselves and
--   the end of the pool, LoopThreadPool/Calls its functions in any order.
-- * bounce/tcp_server.h, bounce/tcp_server.cc: TcpServer.antt. The map of connections, and the tasks
--   that the loops are given, in `posts`; TcpServer/Life has the life of its connections,
--   TcpServer/Calls its functions in any order, and TcpServer/Objects the callbacks that the program
--   sets and the objects of the connections, with what the loops do at the tasks;
--   TcpServer/Objects/Settings is what the program sees of a server as it is set up.
-- * bounce/connector.h, bounce/connector.cc: Connector.antt. The connections that the program opens.
-- * bounce/acceptor.h, bounce/acceptor.cc: Acceptor.antt. The socket on which a server listens.
-- * bounce/socket.h, bounce/socket.cc: Socket.antt. What the kernel knows of a descriptor.
-- * bounce/sockaddr.h, bounce/sockaddr.cc: SockAddress.antt. The fields of the union of addresses.
-- * bounce/logger.h, bounce/logger.cc: Logger.antt. The two loggers and the directory of their file;
--   spdlog is the record Spdlog, with what the library relies on.
-- * The programs of bounce/test: Programs.antt. The programs and tests that use the library, one
--   module for each; Programs/Echo has the echo that most of them are.
--
-- A class whose functions may be called in any order has a module Calls (TcpConnection/Object/Uses,
-- TcpServer/Objects/Settings and Buffer/Queue are like it): `Call` lists its functions, `run_call` and
-- `run_calls` do what they do, and `life` is the constructor and then any calls.
--
-- Prelude.antt passes on the shared names. Prelude/Outcomes has the ends of a call: it returns, exits
-- the program, crashes or terminates it.
--
-- The loop calls `poll` and then `handle_channel` for each channel that it lists; a connection's
-- channel calls its handlers, and those of a timer queue and of the eventfd call `handle_read` and
-- `weakup_callback`. Connections reach the poller through `update_channel`.
--
-- `size_t` wraps around at 2 ^ 64, a `short` is its bit pattern, an integer in a buffer is the bit
-- pattern that its bytes have on a target with the low byte first. Time points are nanoseconds since
-- the epoch, not negative, and their sums do not overflow. What the kernel answers is an argument of
-- the functions that ask it. Memory is never short.
--
-- The fuel of `walk`, the loop of TimerQueue.handle_read over the repeat timers, is one more than the
-- timers that are due where callbacks add no repeat timers; where they do, the loop may not end.
--
-- Not modelled: the log lines of the parts, and what the programs of bounce/test print;
-- bounce/epoll_poller.h, an empty class; the copies of other projects in deps. spdlog, `opendir`, `mkdir`,
-- `inet_pton` and `inet_ntop` are parameters, and what the other calls of the kernel return is an
-- argument.
pub mod Prelude
pub mod Buffer
pub mod Channel
pub mod PollPoller
pub mod TcpConnection
pub mod TimerQueue
pub mod EventLoop
pub mod LoopThreadPool
pub mod TcpServer
pub mod Connector
pub mod SockAddress
pub mod Acceptor
pub mod Logger
pub mod EventLoopThread
pub mod Poller
pub mod Socket
pub mod Programs
