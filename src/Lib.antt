-- ===== src/Lib.antt =====
-- The port program of wpa_supplicant.ex and its control interface library.
--
-- Erlang starts `wpa_ex` as a port. Commands come on standard input behind two-byte lengths, go to
-- wpa_supplicant over a control socket, and the replies and the events that wpa_supplicant sends by
-- itself go back on standard output in the same framing.
--
-- The program's parts, the files that model them, and how they interact:
--   Port (src/wpa_ex.c): the buffers `erl_buffer` and `wpa_buffer`, with `send_to_erl`,
--     `do_wpa_request`, `try_dispatch`, `process_erl`, `process_wpa` and `main`. The control
--     interface is the record `CtrlApi` of Api (src/wpa_ctrl/wpa_ctrl.h), which the functions take
--     as an argument; Api/Laws, Api/Effects and Api/Closed have what they rely on. Port/Frames has
--     the framing, described through an encoder and an inductive parse. Port/Dispatch, Port/Serving
--     and Port/Delivery are about the stream from Erlang, Port/Output, Port/Forward and Port/Events
--     about what goes back, Port/Bounds, Port/Total and Port/Reach about the buffers and the loops
--     over every run. Port/Account keeps the account of what passes through the program, with
--     Port/Account/Requests, Port/Account/Rounds and Port/Always; Port/Closed carries a property of
--     the system calls to a round; with it Port/Signals compares runs with and without signals, and
--     Port/Asking says where a run waits. Port/Script, Port/Serial, Port/Rounds, Port/EndToEnd and
--     Port/Whole are about complete runs: the rounds of the main loop are scripted as a list, with
--     the kernel's answers to them.
--   Ctrl (src/wpa_ctrl/wpa_ctrl.c): requests, attaching, receiving and polling over a UNIX domain
--     socket. `Ctrl.unix` is the control interface that the port uses. Ctrl/Exchange, Ctrl/Sending,
--     Ctrl/Patience, Ctrl/Attach, Ctrl/Within, Ctrl/Waiting, Ctrl/Quiet, Ctrl/Effects and
--     Ctrl/Closed have the theorems.
--   Session (src/wpa_ctrl/wpa_ctrl.c): opening and closing the connection, with the log of what is
--     acquired and released. Session/Release has the theorems.
--   Program: `main` with `wpa_ctrl_open` over the UNIX domain socket, as the Makefile builds it,
--     with Program/Runs about any run of it.
--   Time and Time/Order (src/wpa_ctrl/os.h): the time helpers.
--   Strings (src/wpa_ctrl/os_unix.c): `os_strlcpy` and `os_rel2abs_path`.
--   Unix (src/wpa_ctrl/os_unix.c): sleeping, the clock with its fallback, the calendar, random
--     bytes and reading a file, over the answers of the C library. Unix/Clock, Unix/Dates and
--     Unix/Files have the theorems.
--   Remote (src/wpa_ctrl/wpa_ctrl.c): the control interface over UDP, with its resources, the
--     cookie ahead of commands and the names that it asks for, and `main` of src/wpa_ex.c over it.
--     Remote/Address is about what opening holds, Remote/Names, Remote/Interface, Remote/Requests and
--     Remote/Asking about its requests, Remote/Control about the port on an open connection, and
--     Remote/Account about the whole program.
--   Pipe (src/wpa_ctrl/wpa_ctrl.c): the control interface over a named pipe. Pipe/Opening,
--     Pipe/Holding and Pipe/Messages have the theorems.
--   Android (src/wpa_ctrl/wpa_ctrl.c): `wpa_ctrl_open` as Android builds it, with the sockets of
--     the reserved namespace, and `wpa_ctrl_cleanup`. Android/Connection, Android/Balance and
--     Android/Cleanup have the theorems.
--   Memory (src/wpa_ctrl/os_unix.c, src/wpa_ctrl/os.h): the allocator that traces its blocks, over
--     the answers of malloc, and the array allocation (Memory/Arrays). The lists of list.h are the
--     parameter `DlList` with the laws `DlListLaws`. Memory/Blocks and Memory/Calls have the
--     lemmas, Memory/Traced, Memory/Reach, Memory/Contents, Memory/Arrays and Memory/Leaks the
--     theorems.
--   Daemon (src/wpa_ctrl/os_unix.c): `os_daemon` and `os_daemonize`, with Daemon/Descriptors.
--   Prefixes (src/wpa_ctrl/wpa_ctrl.h): the fixed prefixes of the messages, as tables.
--   Buffer (src/wpa_ctrl/wpabuf.h): the helpers that put words and data into a `struct wpabuf`,
--     with `wpabuf_put`, which the repository declares only, as a parameter. Buffer/Appending and
--     Buffer/Words have the theorems.
--   Endian (src/wpa_ctrl/common.h): words in byte arrays; Endian/Swap has the swaps and the
--     conversions to the order of the host.
--   Ethernet (src/wpa_ctrl/common.h): the predicates on addresses; Ethernet/Kinds has their theorems.
--   Kernel: what the code asks of the operating system. `World` has a list of answers for each kind
--     of call and the log of effects; a computation is a function from a world to an outcome, which
--     is a value, an exit, or a call that still waits for its answer. Kernel/Post has the
--     postconditions of a run that returns, Kernel/Within what the calls keep to, Kernel/Traffic
--     what has passed in and out of a world, with postconditions for every way to leave a run,
--     Kernel/Signals the world without interrupting signals, Kernel/Asking where a run may wait,
--     and Kernel/Closed what a property needs to hold of every computation.
--   Shared: the helpers that the other modules share. Examples: the theorems, applied.
--
-- Bounds and fuel: bytes and words are native numbers with their wrap-around written out; `long` in
-- the time helpers is an integer without bounds. Buffers are lists of the length of the array. The
-- loop of `process_erl` runs on fuel 1025, which is enough since every round but the last takes two
-- bytes of 2048 at least; the loop of `process_wpa` on one unit for each answer of `select` and one
-- more. The loops that wait for the kernel (`writev`, `send`, `select`, `poll`) recurse on its
-- answers. The clock loop has fuel for the three clocks. `getcwd` is asked four times at most, with
-- buffers of 128 to 1024 bytes. The tries for a named pipe are ten. Sizes of memory wrap at 2 ^ 64.
--
-- Not modelled: the Elixir client (lib), which is written in another language; the debug output,
-- which this build leaves out; the rights of the process on Android (`os_program_init`); the
-- release of the working buffers of `os_rel2abs_path` and `wpa_ctrl_request`; the functions that
-- only forward to the C library; the bytes of a block behind `free`, where any access is an error of
-- the model.
pub mod Android
pub mod Api
pub mod Buffer
pub mod Ctrl
pub mod Daemon
pub mod Endian
pub mod Ethernet
pub mod Examples
pub mod Kernel
pub mod Memory
pub mod Pipe
pub mod Port
pub mod Prefixes
pub mod Program
pub mod Remote
pub mod Session
pub mod Shared
pub mod Strings
pub mod Time
pub mod Unix
