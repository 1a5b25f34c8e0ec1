-- ===== src/Lib.antt =====
-- of_core_darwin: the macOS layer below of_core. of_core calls it through functions whose names end
-- in `_impl`; it calls pthread, BSD sockets, `poll` and the C library, and of_core again for handles,
-- queues, the heap and the log. Paths below are from the repository's root.
--
-- Parts and files:
--   * Base: the names shared by all files; C's signed arithmetic (Base.Int: ℤ over the native numbers,
--     / and % toward zero, `to_unsigned w` for the wrap to w bits), bit masks (Base.Bits).
--   * Time: src/time_darwin.c. `make_time` and `local_time` are ofc_time_make_time and
--     ofc_time_local_time over a signed `Tm`, `none` where the latter overflows `int`; Time.Calendar is
--     the proleptic Gregorian calendar they are compared with; Time.Clock has the functions that read clocks, and the file time and DOS
--     conversions over `Formats`, of_core's own packing.
--   * Host: what the other files call. A function of the source is a program in `M A`: a state with
--     the objects of type `A` by address and the trace of calls made. A call's result comes from an
--     oracle that sees the trace so far, so a theorem over every `Host` holds whatever pthread, the
--     system or of_core answer. `none` is an access to memory that is not there.
--   * Socket: src/socket_darwin.c. `Sock` is OFC_SOCKET_IMPL. Socket.Address: make_sockaddr and
--     unmake_sockaddr; Socket.Poll: the event masks and their getters and setters; Socket.Setup:
--     create to set_recv_size; Socket.Transfer: send, recv and the addresses. Socket.Requests takes
--     every operation as one request, for what holds of all of them.
--   * Event: src/event_darwin.c. `DarwinEvent` is DARWIN_EVENT with its signal; Event.Threads is an
--     abstract model, set, reset and wait as steps of any number of threads on one event; Event.Refine
--     relates the operations, by the object and by the calls on the condition variable, to those steps.
--   * Waitset: src/waitset_darwin.c, over a record `Platform` of what it takes from of_core, `poll` and
--     the pipe. Waitset.Scan is the first half of ofc_waitset_wait_impl (empty the pipe, look at each
--     handle), Waitset.Wait the second half and PollEvent, Waitset.Notify the signals and associations.
--     `Waitset.Pipe.Works` is what is relied on of the pipe and of of_core's queues.
--     The build is taken to define OFC_FS_DARWIN. Waitset.Ends makes and releases the pipe,
--     Waitset.Wakeup runs another thread at a moment of a wait, Waitset.Debug is ofc_waitset_debug,
--     Waitset.Storage the memory and the lock that a wait takes and gives back.
--   * Net: src/net_darwin.c. The loops over the list of `getifaddrs`, the addresses that an interface
--     or a lookup fills in, and in Net.Lookup what a lookup asks for; Net.Laws compares them with the
--     list of interfaces that count.
--   * Thread: src/thread_darwin.c. `DarwinThread` is DARWIN_THREAD; `launch` is what the new thread
--     runs. What other threads do in between is a parameter of `create` and `launch`. Thread.Sleep is
--     ofc_sleep_impl, Thread.Variables the four functions on thread variables.
--   * Console: src/console_darwin.c. `Console` is g_fd with what was sent to the system; a buffer is
--     a list of bytes, and a write outside of it is `none`. What `write` returns is a `Kernel`'s answer.
--   * Process: src/process_darwin.c. `exec` is one program that each of the three processes runs, with
--     what `fork` returns in it; `Finish` says how a process leaves it.
--   * Env: src/env_darwin.c, the table of names and the one lookup.
--   * Lock: src/lock_darwin.c, a recursive mutex.
--
-- How they interact: a set event signals its wait set, which writes the event into the pipe; the
-- wait reads it there and maps it to the handle that it speaks for. For a socket it asks for the
-- descriptor and mask that `enable` stored, and stores what `poll` returned where `test` reads it.
--
-- Fuel: `find_year` gets one more than the number of days; `find_month` the eleven steps that the
-- table allows; `purge` and `poll_event` anything above the number of handles in the pipe, which its
-- capacity bounds. That each is enough is part of the theorems. The endless loop of ofc_sleep_impl is
-- followed for a number of rounds.
--
-- Not modelled: log lines (output only), functions with empty bodies (among them
-- ofc_process_set_priority and ofc_net_register_config_impl), and src/backtrace_darwin.c, which is
-- one call of the system.
pub mod Base
pub mod Time
pub mod Host
pub mod Socket
pub mod Event
pub mod Waitset
pub mod Net
pub mod Thread
pub mod Console
pub mod Process
pub mod Env
pub mod Lock
