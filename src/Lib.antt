-- ===== src/Lib.antt =====
-- A model of ice, a C++ library of coroutines: schedulers on which coroutines hop between threads,
-- sockets that suspend a coroutine until the system is ready, and a line parser that reads from
-- them.
--
-- The parts and their files. Paths are from the root of the repository.
--
-- - Scheduler: src/ice/include/ice/scheduler.hpp. `System` is the memory of the threads (the head of
--   the list, the `next` links, where each thread stands in `post`, and its place in `process`); `Step`
--   is one atomic operation of a thread that posts, an `acquire` of a thread in `process`, or a round
--   of its loop. Scheduler/Fifo has the queue that this implements.
-- - Context: src/ice/include/ice/context.hpp. `Step` is one step of the thread in `run`, which may call it
--   again, or of a thread that posts, stops or notifies; the list is the queue that Scheduler/Fifo shows it to be.
--   Context/Pool has any number of threads in `run` and the mutex that one of them may have;
--   Context/Wakeup has what the wait may miss, Context/Pool/Notified when it misses nothing, and
--   Context/Stop what a stop may leave behind.
-- - Handle: src/ice/include/ice/handle.hpp. `Handles` has the values of all handle objects and the
--   list of what `C{}` has closed; `step` is any one operation. Handle/Cast has the conversions
--   between the integer types of handles.
-- - Parser: src/ice/include/ice/parser.hpp. `parse` takes one byte; `std::regex` and the handlers
--   are parameters, `W` is the memory of the handlers. Parser/Assembly has the line splitter that is
--   the reference, Parser/Run the loop of `run` over the replies of a stream.
-- - Result: src/ice/include/ice/result.hpp. A union has one of its members alive or none, and a
--   `Store` has several results, so that the operands of an assignment may be one object.
--   Result/Members has the special members that src/ice/include/ice/utility.hpp deletes.
-- - Error: src/ice/include/ice/error.hpp and src/ice/src/ice/error.cpp: codes, categories and the
--   texts of the messages. Error/Throw has what `throw_exception` prints before it aborts.
-- - Terminal: src/ice/include/ice/terminal.hpp and src/ice/src/ice/terminal.cpp: the 16 bits of a
--   format, and the manager with all that it writes to its stream; Terminal/Windows has the attributes
--   of a console instead.
-- - Log: src/ice/include/ice/log.hpp and src/ice/src/ice/log.cpp: `print` with the levels. Log/Front
--   has the overloads of `queue` and the exceptions of a task, Log/Queue the calls of several threads
--   against the logger and its limit, Log/Stop `stop` beside them, Log/Sink the sink and the exceptions
--   in the logger, and Log/Wait one call at the limit, which waits for the logger.
-- - Utility: `scope_exit`, `set_thread_affinity` and `thread_local_storage` of
--   src/ice/include/ice/utility.hpp and src/ice/src/ice/utility.cpp, and `is_current` over nested
--   calls of `run`.
-- - Process: src/ice/src/ice/process.cpp.
-- - Async: `send(stream, buffer)` of src/ice/include/ice/async.hpp.
-- - Net/Endpoint: src/ice/src/ice/net/endpoint.cpp. The functions of the system are parameters.
-- - Net/Event: the Windows `event` of src/ice/include/ice/net/event.hpp as a race of two threads.
--   Net/Event/Registry has the Linux `event` with the loop that resumes it and the table of `epoll`, a
--   parameter with the laws that its documentation gives.
-- - Net/Service: src/ice/src/ice/net/service.cpp for Linux, over what `epoll_wait` gives.
--   Net/Service/Delivery has `post`, `stop` and `interrupt` against the thread in `run`, one step at a
--   time. Net/Service/Windows has both for Windows, and Net/Service/Freebsd `create` for FreeBSD.
-- - Net/Socket: src/ice/src/ice/net/socket.cpp for POSIX systems, and Net/Socket/Windows for Windows.
-- - Net/Tcp: `accept`, `connect`, `recv` and `send` of src/ice/src/ice/net/tcp/socket.cpp for Linux,
--   with the Linux `event` that they await. Net/Tcp/Windows has them for Windows, over the overlapped
--   operations of Net/Overlapped, Net/Tcp/Freebsd for FreeBSD, with its `event`, and Net/Tcp/Listen
--   `listen`.
-- - Net/Options: src/ice/include/ice/net/option.hpp and src/ice/src/ice/net/option.cpp.
--   Net/Options/Socket has the `get` and `set` of a socket over them and the options of the system, a
--   parameter.
-- - Serial: src/serial/src/ice/net/serial.cpp, over the same operations.
-- - Ssh: src/ssh/src/ice/net/ssh/session.cpp. Ssh/Calls has the loops around the calls of libssh2,
--   Ssh/Session the handles, and Ssh/Relay the callbacks and `io`. Ssh/Errors has the messages of
--   src/ssh/src/ice/net/ssh/error.cpp.
--
-- How they interact: a coroutine is a machine that stops at each call of the system (Base/Coroutine),
-- and `run` gives it a list of replies; `Parser.Run`, `Net.Service` and `Net.Tcp` are such machines.
-- Every error code that these return is one of `Error`. The field `process` of
-- `Net.Service.Program` stands for the `process` of Scheduler. What a call of libssh2 or of the system
-- gives is a reply. `Log.print` writes through the manager of Terminal, the thread of the logger runs
-- a Context, and a `schedule` of Scheduler asks the thread-local storage of Utility.
--
-- Bounds and fuel. The loop of `acquire` over the links has fuel: one unit for each schedule of the
-- list is enough. So has the loop for Windows in `process::path`: one unit more than `MAX_PATH` goes
-- into the length of the path is enough where it ends at all. A loop that runs out gives `none`. All
-- other loops are by recursion on a list or stop at each reply of the system.
-- `std::size_t` is 64 bits and `int` 32 bits, with the wrap-around written out where the code can reach
-- it.
--
-- Not modelled: net/types.cpp, which checks sizes of the system's types; the string obfuscation of
-- utility.hpp, a copy of another project; the comparison operators of handles; and the coroutine types
-- of async.hpp, a copy of those of another project. Memory orders are taken to be those under which
-- atomic operations take place one at a time.
pub mod Async
pub mod Base
pub mod Context
pub mod Error
pub mod Handle
pub mod Log
pub mod Net
pub mod Parser
pub mod Process
pub mod Result
pub mod Scheduler
pub mod Serial
pub mod Ssh
pub mod Terminal
pub mod Utility
