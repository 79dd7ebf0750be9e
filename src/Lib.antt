-- ===== src/Lib.antt =====
-- vmp-rl: a daemon that starts and watches a media server process and answers remote calls on its
-- state. This library models the C code under src/ of the repository.
--
-- The parts and how they interact:
-- - Ipc: the shared-memory segment between the daemon and its child (src/ipcs/ipc_shared.c and
--   src/vmp/vmp_shared.c). The child feeds a watchdog byte and counts connections; the daemon's
--   loop ipc_shared_proc ticks the byte once a second and returns when the child has been silent.
--   Ipc/Segment has the shared data and the child's operations, Ipc/Watch the loop, Ipc/Device the
--   opening and closing; Ipc/Rounds, Ipc/Deadline and Ipc/Counter have the proofs.
-- - Rpc: remote calls over length-prefixed protobuf messages (src/rpc/pbc). Rpc/Wire is the
--   framing, Rpc/Buffer the libevent filter that cuts the stream into messages, Rpc/Callouts the
--   list of methods, Rpc/Server reading, dispatching and answering, Rpc/Client calling and matching
--   responses. Rpc/Connect is the making and ending of clients and services, Rpc/Connect/Closing
--   the end of a connection. Rpc/Session is a connection with the arrival of bytes and its two
--   callbacks as steps; Rpc/Served puts the reader of the service on many connections, Rpc/Told
--   that of the client on one, and Rpc/Duplex lets a client that has made the calls of Rpc/Calls
--   talk to a service. Rpc/Table is the list of methods as a table that forgets their order. Other
--   proofs are in Rpc/Frames, Rpc/Assembly, Rpc/Reading, Rpc/Session/Progress,
--   Rpc/Duplex/Progress, Rpc/Registry, Rpc/Keys, Rpc/Table/Order, Rpc/Dispatch, Rpc/Serving, Rpc/Ids, Rpc/Pending and Rpc/RoundTrip.
-- - Nmon: the statistics files under /proc (src/vmp/vmp_nmon.c). Nmon/Strip squeezes a line in
--   place, Nmon/Scan has the C library's conversions, Nmon/Lines and Nmon/Read the reading of a
--   file into a table of lines, Nmon/Mem, Nmon/Cpu and Nmon/Net the memory, processor and interface
--   figures; their child modules have proofs.
-- - Load: the daemon's tasks (src/load/load_*.c). Load/Task has the life of a task from creation to
--   end, Load/Core the thread that starts and ends the tasks, with the start of the server thread
--   of src/rpc/rpc_svc.c, and Load/Core/Order its proof. Load/Trial is the client of
--   src/rpc/rpc_clnt.c and the test mode, in which the daemon calls another; Load/Trial/Replies
--   runs its callbacks; Load/Trial/Calls and Load/Trial/Daemon have proofs. Load/System is the
--   monitor of the machine (src/load/load_system.c), which takes its readings from the figures of
--   Nmon.
-- - Service: the methods of the daemon and their callers (src/rpc/service-*.c, src/rpc/clnt_*.c and
--   the functions in src/load behind the methods). Service/Handlers has the methods,
--   Service/Register their registration by the tasks, Service/Race the same registration step by
--   step, Service/Stubs the calls; Service/Entries, Service/RoundTrip and Service/Owned have
--   proofs.
-- - Child: the task that starts the media server, watches it and starts it anew
--   (src/load/load_child.c and src/vmp/vmp_process.c). Child/Process has the functions on
--   processes, Child/Thread the thread, which calls the watch of Ipc; Child/Waiting, Child/Alone,
--   Child/Turns and Child/Restarts have proofs.
-- - Startup: the options and the configuration (src/support/module_config.c), the global variables
--   (src/support/globals.c), and load_init and load_done (src/load/load_core.c), in Startup/Config
--   and Startup/Entry.
-- - Base: tests, lists, fixed widths, and runs that may fault.
--
-- Conventions: a pointer that may be null is an Option or a value of its own; reading through a
-- null pointer or past the end of a buffer is the outcome fault. In Load a call ends, crashes where
-- C leaves the behaviour undefined, or is blocked for ever. Numbers are natural numbers with the
-- wrap-around of their C type written out. A function name of the model is that of the C function;
-- a few long C functions are cut into steps, which the comments name.
--
-- Bounds and fuel: the loop of generic_read_cb takes a number of rounds as fuel, and the theorems
-- give one round for each message, or for each byte, of which a message has eight at least. The
-- watch loop runs over a schedule: the list of what the child does in each second; an infinite run
-- is any list of rounds. The loop on fread keeps the 4096 turns of the code, and strip_spaces runs
-- at most once for each byte of its buffer. The loop of the child's thread runs over a list of such
-- schedules, one for each turn, with what the server does before the watch clears the shared data,
-- and ends behind the last.
--
-- Not modelled: main and load_start, which wait while the threads of the daemon run; floating-point
-- arithmetic, whose operations are a parameter; the operating system, libevent, the vpk library and
-- the generated protobuf code, which are parameters with named laws; sockets; the wrappers of
-- threads (src/vmp/vmp_thread.c), which nothing calls; logging, whose part under USE_ZLOG no build
-- file switches on; getopt; the copies of nmon and of the GlusterFS list header; example programs.
-- Between taking and releasing the semaphore an access is one step. The test mode makes its calls
-- before a reply is read. A callback that makes a new call from inside a response is not modelled.
-- A connection of Rpc/Session does not end; Rpc/Connect/Closing says what its end does to the
-- objects of a client.
mod Base
pub mod Ipc
pub mod Rpc
pub mod Nmon
pub mod Load
pub mod Service
pub mod Child
pub mod Startup
