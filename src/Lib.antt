-- ===== src/Lib.antt =====
-- A verification library of iojxd: a wrapper of libev for sockets, timers and child processes,
-- driven from C++ and Lua (src/iojxd.cxx runs a script and then the loop).
--
-- Prelude and Memory hold what the components share: Boolean tests, lists, the C heap as an
-- explicit store, commands that may abort (a failed assert) or fault (an access that C leaves
-- undefined), and total correctness of a run (Memory.Returns). Assertions are on, as in the build.
-- `malloc` hands out addresses that were never in use; it returns NULL when the heap's `room` is
-- used up.
--
-- CycQueue is src/util.cxx's cyclic queue (ixut_cycqueue_*), node by node on the heap: CycQueue
-- has the operations, CycQueue.Ring the shape that they keep, Inspect, Enqueue, Dequeue, Create
-- and Free one operation each, Session and Lifecycle sequences of them against a list. The loop of
-- ixut_cycqueue_free runs on fuel; one round more than there are values is enough. Directory is
-- directory_name of src/util.cxx. Syscall is src/losyscall.cxx (ixut_syscall_name); which macros
-- <sys/syscall.h> defines, and as what number, is a parameter. Ev states what is used of libev, as
-- records of operations with the documented laws; Ev.Model meets them. Timer is src/timer.cxx
-- (ixut_timer_*): one timer with its watcher, times as whole numbers of a fixed unit, the client's
-- callback as a parameter; Timer.fire is what libev does at a due timer, Timer.turn tests first
-- whether the timer is active and due. Timer.Silence has a keepalive timer over any run of its
-- watcher.
--
-- Sock is src/sock.cxx (ixfd_commonsock_*): Sock.State has sockets, connections, queued jobs and
-- the world that holds them, Kernel the results of the system calls, Conn, Write, Read and Tcp the
-- operations and the four watcher callbacks. A connection's queue is CycQueue's, its values the
-- addresses of jobs. What the kernel was told is a trace of events. Client callbacks are a
-- parameter, any action on the world, and so are libev's watchers; what a system call or a malloc
-- of the read buffer returns is an argument of the operation that makes it. The loop of
-- ixfd_commonsock_write_cb takes the list of its write calls' results; it is out of fuel when the
-- list ends before the loop. Access has the accesses to the objects of the world; Sending, Backlog
-- (with Backlog.Mixed, two connections whose writes interleave), Resuming, Reading, Serving,
-- Accepting (with Accepting.Many, any number of connections, and Accepting.Session, two of them
-- from acceptance over their writes), Connecting and Ending have the proofs; Examples and
-- SocketExamples apply them in the world of Sample.
--
-- Child is src/childprocess.cxx (ixut_fork, ixut_childw_*), with libev's test of which watcher a
-- report is for (Child.reported): Child.Watching the life of one
-- watcher, Child.Reuse one watcher for many children, Child.Status the exit status, over the
-- macros of <sys/wait.h>. Termination is src/child_termcb.cxx (ixut_spawn_process, ixc_add_termcb
-- and its handler). What `fork` returns, and the pid and status that libev reports, are arguments.
--
-- Wrapper is the part of src/luafoundx.cxx that decides how long an object of Lua lives:
-- ixlbx_ref_base and the classes on it, over LuaBridge's reference counts, which are an interface
-- (Wrapper.RefCounts; Wrapper.Plain meets it). Wrapper.OneShot has timers and child watchers, with
-- Timer and Child behind an interface of their own; Wrapper.Connection and Wrapper.Server use Sock
-- (Wrapper.Server.Functions has the Lua functions that a server keeps, Wrapper.Server.Orphans a
-- connection that outlives it), Wrapper.Forked is the object that forks, and
-- Wrapper.Connection.Life has the histories of one connection: its operations and callbacks in any
-- order.
--
-- Lua states what is used of the Lua API, by what an operation does to the stack and to the fields
-- of tables (Lua.Model meets it), and has the functions of src/luafound.cxx and src/lbext.hxx on a
-- Lua state. Context is src/context.cxx, ixlu_initstate and src/iojxd.cxx's main; what malloc,
-- luaL_newstate and ev_default_loop return, the script, the loop, and the destructors that lua_gc
-- and lua_close run in the end are parameters; Context.Loop is ixlb_init_loop over libev's default
-- loop, where a pointer to a loop is its number (Context.Loop.Model meets it). Binding has the
-- callbacks that src/luafound.cxx keeps, as references to Lua values on a heap (Reading,
-- Connecting, Keeping, Writing); what a call of Lua does to that heap is a parameter. Executable
-- is ixut_execpath of src/platformed.cxx for Linux, with PATH_MAX and readlink as parameters, and
-- the argument vector of ixlb_exec from its malloc on; what an array holds before is a parameter. A
-- program's output is not part of any model.
--
-- Registration is ixlb_reg_interface of src/luafound.cxx and ixlbx_reg_interface of
-- src/luafoundx.cxx: the tables of functions that a script gets (Registration.Tables), as a chain
-- of commands to LuaBridge's registry of namespaces, which is an interface (Registration.Model
-- meets it).
--
-- Coroutine is ixlu_resume and ixlb_spawn_process_co of src/luafound.cxx: a coroutine that waits
-- for the end of a process, over two states of Lua (the main one and the coroutine's), the
-- termination callbacks of Termination and the context's lookup of Lua. What lua_xmove does and
-- what a call from C++ runs are parameters; Coroutine.Model meets them. Sandbox is src/sandbox.cxx
-- (ixut_reslimit, ixut_setuid, ixut_setgid) over a kernel with the documented laws of setrlimit
-- and setuid; Sandbox.Model meets them.
--
-- Not modelled: in src/luafound.cxx the functions that only pass on a call of libc or libev;
-- ixut_set_socket_nonblock of src/sock.cxx, which sets a flag of a descriptor and ignores the
-- result; ixut_execpath for other systems than Linux; the Lua scripts, which are another language.
pub mod Prelude
pub mod Memory
pub mod CycQueue
pub mod Directory
pub mod Syscall
pub mod Ev
pub mod Timer
pub mod Sock
pub mod Child
pub mod Termination
pub mod Wrapper
pub mod Executable
pub mod Lua
pub mod Context
pub mod Coroutine
pub mod Binding
pub mod Registration
pub mod Sandbox
