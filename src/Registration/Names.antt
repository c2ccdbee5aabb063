-- ===== src/Registration/Names.antt =====
-- Each function under its name.
use Prim.Native.String.{String}
use iojxd.Prelude.{◌≡◌, ◌∙◌, ap, refl, Option, some, List, [], ◌∷◌}
use iojxd.Registration.{
  Registry, run, Function, ixlb_get_cur_ctx, ixc_enable_termcb, ixc_disable_termcb,
  ixlb_spawn_process, ixfd_conn_ctx_fd, ixlb_sock_create, ixfd_commonsock_free,
  ixfd_commonsock_tcp_createnbind, ixlb_sock_connect, ixfd_commonsock_tcp_listen,
  ixfd_commonsock_set_bufread_len, ixlb_sock_write, ixlb_sock_set_read_callback, ixut_timer_create,
  ixut_timer_free, ixlb_timer_start, ixut_timer_stop, ixut_timer_again, ixut_timer_setimeout,
  ixut_timer_tick, ixlb_fork, ixlb_getpid, ixlb_init_loop, ixlb_run, ixlb_break_loop, ixlb_exec,
  ixlb_freopen, ixlb_get_stdin, ixlb_get_stderr, ixlb_get_stdout, ixlb_fflush, ixlb_wexitstatus,
  ixlb_wtermsig, ixlb_wifexited, ixlb_wifsignaled, ixlb_wifstopped, ixlb_wstopsig,
  ixut_child_exitstatus_status_raw, ixut_child_exitstatus_status, ixut_child_exitstatus_exit_cause,
  ixut_child_exitstatus_term_sig, ixut_childw_create, ixut_childw_free, ixlb_childw_start,
  ixut_childw_getpid, ixut_childw_getstatus, ixut_reslimit, ixut_reslimit_d, ixut_setuid,
  ixut_setgid, ixut_execpath, ixut_syscall_name, ixlb_spawn_process_co, ixlbx_timer_start,
  ixlbx_fork_pid, ixlbx_child_watcher_start, ixlbx_child_watcher_get_status, ixlbx_tcp_base_start,
  ixlbx_tcp_base_on_read, ixlbx_tcp_base_on_accept, ixlbx_tcp_base_on_close, ixlbx_tcp_base_close,
  ixlbx_socket_context_write, ixlbx_socket_context_close, ixlbx_socket_context_is_active,
  ixlbx_socket_context_sock, ixlbx_socket_context_data,
}
use iojxd.Registration.Tables.{reg_interface, reg_interfacex}
use iojxd.Registration.Walking.{find, run_lem}

-- The name in Lua, the innermost part first: `iojx.sock.create` is "create", "sock", "iojx".
abbrev pub name_of : Function → List String
name_of ixlb_get_cur_ctx = "current_context" ∷ "iojx" ∷ []
name_of ixc_enable_termcb = "enable_termcb" ∷ "iojx" ∷ []
name_of ixc_disable_termcb = "disable_termcb" ∷ "iojx" ∷ []
name_of ixlb_spawn_process = "spawn_process" ∷ "iojx" ∷ []
name_of ixfd_conn_ctx_fd = "fd" ∷ "context" ∷ "sock" ∷ "iojx" ∷ []
name_of ixlb_sock_create = "create" ∷ "sock" ∷ "iojx" ∷ []
name_of ixfd_commonsock_free = "free" ∷ "sock" ∷ "iojx" ∷ []
name_of ixfd_commonsock_tcp_createnbind = "bind_ip" ∷ "tcp" ∷ "sock" ∷ "iojx" ∷ []
name_of ixlb_sock_connect = "connect" ∷ "tcp" ∷ "sock" ∷ "iojx" ∷ []
name_of ixfd_commonsock_tcp_listen = "listen" ∷ "tcp" ∷ "sock" ∷ "iojx" ∷ []
name_of ixfd_commonsock_set_bufread_len = "setreadbuflen" ∷ "sock" ∷ "iojx" ∷ []
name_of ixlb_sock_write = "write" ∷ "sock" ∷ "iojx" ∷ []
name_of ixlb_sock_set_read_callback = "set_read_callback" ∷ "sock" ∷ "iojx" ∷ []
name_of ixut_timer_create = "create" ∷ "timer" ∷ "iojx" ∷ []
name_of ixut_timer_free = "free" ∷ "timer" ∷ "iojx" ∷ []
name_of ixlb_timer_start = "start" ∷ "timer" ∷ "iojx" ∷ []
name_of ixut_timer_stop = "stop" ∷ "timer" ∷ "iojx" ∷ []
name_of ixut_timer_again = "again" ∷ "timer" ∷ "iojx" ∷ []
name_of ixut_timer_setimeout = "setimeout" ∷ "timer" ∷ "iojx" ∷ []
name_of ixut_timer_tick = "tick" ∷ "timer" ∷ "iojx" ∷ []
name_of ixlb_fork = "fork" ∷ "util" ∷ "iojx" ∷ []
name_of ixlb_getpid = "getpid" ∷ "util" ∷ "iojx" ∷ []
name_of ixlb_init_loop = "init_loop" ∷ "util" ∷ "iojx" ∷ []
name_of ixlb_run = "run" ∷ "util" ∷ "iojx" ∷ []
name_of ixlb_break_loop = "break_loop" ∷ "util" ∷ "iojx" ∷ []
name_of ixlb_exec = "exec" ∷ "util" ∷ "iojx" ∷ []
name_of ixlb_freopen = "freopen" ∷ "util" ∷ "iojx" ∷ []
name_of ixlb_get_stdin = "stdin" ∷ "util" ∷ "iojx" ∷ []
name_of ixlb_get_stderr = "stderr" ∷ "util" ∷ "iojx" ∷ []
name_of ixlb_get_stdout = "stdout" ∷ "util" ∷ "iojx" ∷ []
name_of ixlb_fflush = "fflush" ∷ "util" ∷ "iojx" ∷ []
name_of ixlb_wexitstatus = "WEXITSTATUS" ∷ "util" ∷ "iojx" ∷ []
name_of ixlb_wtermsig = "WTERMSIG" ∷ "util" ∷ "iojx" ∷ []
name_of ixlb_wifexited = "WIFEXITED" ∷ "util" ∷ "iojx" ∷ []
name_of ixlb_wifsignaled = "WIFSIGNALED" ∷ "util" ∷ "iojx" ∷ []
name_of ixlb_wifstopped = "WIFSTOPPED" ∷ "util" ∷ "iojx" ∷ []
name_of ixlb_wstopsig = "WSTOPSIG" ∷ "util" ∷ "iojx" ∷ []
name_of ixut_child_exitstatus_status_raw = "status_raw" ∷ "status" ∷ "child_process" ∷ "iojx" ∷ []
name_of ixut_child_exitstatus_status = "status" ∷ "status" ∷ "child_process" ∷ "iojx" ∷ []
name_of ixut_child_exitstatus_exit_cause = "exit_cause" ∷ "status" ∷ "child_process" ∷ "iojx" ∷ []
name_of ixut_child_exitstatus_term_sig = "termsig" ∷ "status" ∷ "child_process" ∷ "iojx" ∷ []
name_of ixut_childw_create = "create" ∷ "child_process" ∷ "iojx" ∷ []
name_of ixut_childw_free = "free" ∷ "child_process" ∷ "iojx" ∷ []
name_of ixlb_childw_start = "start" ∷ "child_process" ∷ "iojx" ∷ []
name_of ixut_childw_getpid = "getpid" ∷ "child_process" ∷ "iojx" ∷ []
name_of ixut_childw_getstatus = "getstatus" ∷ "child_process" ∷ "iojx" ∷ []
name_of ixut_reslimit = "reslimit" ∷ "sandbox" ∷ "iojx" ∷ []
name_of ixut_reslimit_d = "reslimit_d" ∷ "sandbox" ∷ "iojx" ∷ []
name_of ixut_setuid = "setuid" ∷ "sandbox" ∷ "iojx" ∷ []
name_of ixut_setgid = "setgid" ∷ "sandbox" ∷ "iojx" ∷ []
name_of ixut_execpath = "execpath" ∷ "platform" ∷ "iojx" ∷ []
name_of ixut_syscall_name = "syscall_name" ∷ "platform" ∷ "iojx" ∷ []
name_of ixlb_spawn_process_co = "spawn_process" ∷ "co" ∷ "iojx" ∷ []
name_of ixlbx_timer_start = "start" ∷ "timer" ∷ "iojxx" ∷ []
name_of ixlbx_fork_pid = "pid" ∷ "fork" ∷ "iojxx" ∷ []
name_of ixlbx_child_watcher_start = "start" ∷ "child_watcher" ∷ "iojxx" ∷ []
name_of ixlbx_child_watcher_get_status = "get_status" ∷ "child_watcher" ∷ "iojxx" ∷ []
name_of ixlbx_tcp_base_start = "start" ∷ "ixlbx_tcp_base" ∷ "iojxx" ∷ []
name_of ixlbx_tcp_base_on_read = "on_read" ∷ "ixlbx_tcp_base" ∷ "iojxx" ∷ []
name_of ixlbx_tcp_base_on_accept = "on_accept" ∷ "ixlbx_tcp_base" ∷ "iojxx" ∷ []
name_of ixlbx_tcp_base_on_close = "on_close" ∷ "ixlbx_tcp_base" ∷ "iojxx" ∷ []
name_of ixlbx_tcp_base_close = "close" ∷ "ixlbx_tcp_base" ∷ "iojxx" ∷ []
name_of ixlbx_socket_context_write = "write" ∷ "ixlbx_socket_context" ∷ "iojxx" ∷ []
name_of ixlbx_socket_context_close = "close" ∷ "ixlbx_socket_context" ∷ "iojxx" ∷ []
name_of ixlbx_socket_context_is_active = "is_active" ∷ "ixlbx_socket_context" ∷ "iojxx" ∷ []
name_of ixlbx_socket_context_sock = "sock" ∷ "ixlbx_socket_context" ∷ "iojxx" ∷ []
name_of ixlbx_socket_context_data = "data" ∷ "ixlbx_socket_context" ∷ "iojxx" ∷ []

find-name_of :
    (f : Function) (o : Option Function)
    → find reg_interfacex [] (name_of f) (find reg_interface [] (name_of f) o) ≡ some f
unfolding find
find-name_of ixlb_get_cur_ctx o = refl
find-name_of ixc_enable_termcb o = refl
find-name_of ixc_disable_termcb o = refl
find-name_of ixlb_spawn_process o = refl
find-name_of ixfd_conn_ctx_fd o = refl
find-name_of ixlb_sock_create o = refl
find-name_of ixfd_commonsock_free o = refl
find-name_of ixfd_commonsock_tcp_createnbind o = refl
find-name_of ixlb_sock_connect o = refl
find-name_of ixfd_commonsock_tcp_listen o = refl
find-name_of ixfd_commonsock_set_bufread_len o = refl
find-name_of ixlb_sock_write o = refl
find-name_of ixlb_sock_set_read_callback o = refl
find-name_of ixut_timer_create o = refl
find-name_of ixut_timer_free o = refl
find-name_of ixlb_timer_start o = refl
find-name_of ixut_timer_stop o = refl
find-name_of ixut_timer_again o = refl
find-name_of ixut_timer_setimeout o = refl
find-name_of ixut_timer_tick o = refl
find-name_of ixlb_fork o = refl
find-name_of ixlb_getpid o = refl
find-name_of ixlb_init_loop o = refl
find-name_of ixlb_run o = refl
find-name_of ixlb_break_loop o = refl
find-name_of ixlb_exec o = refl
find-name_of ixlb_freopen o = refl
find-name_of ixlb_get_stdin o = refl
find-name_of ixlb_get_stderr o = refl
find-name_of ixlb_get_stdout o = refl
find-name_of ixlb_fflush o = refl
find-name_of ixlb_wexitstatus o = refl
find-name_of ixlb_wtermsig o = refl
find-name_of ixlb_wifexited o = refl
find-name_of ixlb_wifsignaled o = refl
find-name_of ixlb_wifstopped o = refl
find-name_of ixlb_wstopsig o = refl
find-name_of ixut_child_exitstatus_status_raw o = refl
find-name_of ixut_child_exitstatus_status o = refl
find-name_of ixut_child_exitstatus_exit_cause o = refl
find-name_of ixut_child_exitstatus_term_sig o = refl
find-name_of ixut_childw_create o = refl
find-name_of ixut_childw_free o = refl
find-name_of ixlb_childw_start o = refl
find-name_of ixut_childw_getpid o = refl
find-name_of ixut_childw_getstatus o = refl
find-name_of ixut_reslimit o = refl
find-name_of ixut_reslimit_d o = refl
find-name_of ixut_setuid o = refl
find-name_of ixut_setgid o = refl
find-name_of ixut_execpath o = refl
find-name_of ixut_syscall_name o = refl
find-name_of ixlb_spawn_process_co o = refl
find-name_of ixlbx_timer_start o = refl
find-name_of ixlbx_fork_pid o = refl
find-name_of ixlbx_child_watcher_start o = refl
find-name_of ixlbx_child_watcher_get_status o = refl
find-name_of ixlbx_tcp_base_start o = refl
find-name_of ixlbx_tcp_base_on_read o = refl
find-name_of ixlbx_tcp_base_on_accept o = refl
find-name_of ixlbx_tcp_base_on_close o = refl
find-name_of ixlbx_tcp_base_close o = refl
find-name_of ixlbx_socket_context_write o = refl
find-name_of ixlbx_socket_context_close o = refl
find-name_of ixlbx_socket_context_is_active o = refl
find-name_of ixlbx_socket_context_sock o = refl
find-name_of ixlbx_socket_context_data o = refl

-- On any registry with no scope open, the two chains of registrations, one after the other as
-- `ixc_create_context` makes them, end every scope that they begin, and leave each of the
-- registered functions under its own name: none is hidden by a later one.
pub names_lem :
    (reg : Registry) (s : reg.S) (f : Function)
    → reg.scopes s ≡ []
    → (reg.scopes (run reg reg_interfacex (run reg reg_interface s)) ≡ [])
      × (reg.entry (run reg reg_interfacex (run reg reg_interface s)) (name_of f) ≡ some f)
names_lem reg s f e =
    let one = run_lem reg reg_interface [] [] s e refl in
    let two = run_lem reg reg_interfacex [] [] (run reg reg_interface s) one.open_scopes refl in
    (
      two.open_scopes,
      two.entries (name_of f)
          ∙ ap (find reg_interfacex [] (name_of f)) (one.entries (name_of f))
          ∙ find-name_of f (reg.entry s (name_of f)),
    )
