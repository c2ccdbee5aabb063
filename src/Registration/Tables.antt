-- ===== src/Registration/Tables.antt =====
-- The two chains, call by call.
use iojxd.Prelude.{List, [], ◌∷◌}
use iojxd.Registration.{
  namespace, class_, Command, begin, end, add, add_constructor, ixlb_get_cur_ctx, ixc_enable_termcb,
  ixc_disable_termcb, ixlb_spawn_process, ixfd_conn_ctx_fd, ixlb_sock_create, ixfd_commonsock_free,
  ixfd_commonsock_tcp_createnbind, ixlb_sock_connect, ixfd_commonsock_tcp_listen,
  ixfd_commonsock_set_bufread_len, ixlb_sock_write, ixlb_sock_set_read_callback, ixut_timer_create,
  ixut_timer_free, ixlb_timer_start, ixut_timer_stop, ixut_timer_again, ixut_timer_setimeout,
  ixut_timer_tick, ixlb_fork, ixlb_getpid, ixlb_init_loop, ixlb_run, ixlb_break_loop, ixlb_exec,
  ixlb_freopen, ixlb_get_stdin, ixlb_get_stderr, ixlb_get_stdout, ixlb_fflush, ixlb_wexitstatus,
  ixlb_wtermsig, ixlb_wifexited, ixlb_wifsignaled, ixlb_wifstopped, ixlb_wstopsig,
  ixut_child_exitstatus_status_raw, ixut_child_exitstatus_status, ixut_child_exitstatus_exit_cause,
  ixut_child_exitstatus_term_sig, ixut_childw_create, ixut_childw_free, ixlb_childw_start,
  ixut_childw_getpid, ixut_childw_getstatus, ixut_reslimit, ixut_reslimit_d, ixut_setuid,
  ixut_setgid, ixut_execpath, ixut_syscall_name, ixlb_spawn_process_co, ixlbx_timer_start,
  ixlbx_fork_pid, ixlbx_child_watcher_start, ixlbx_child_watcher_get_status, ixlbx_tcp_base_start,
  ixlbx_tcp_base_on_read, ixlbx_tcp_base_on_accept, ixlbx_tcp_base_on_close, ixlbx_tcp_base_close,
  ixlbx_socket_context_write, ixlbx_socket_context_close, ixlbx_socket_context_is_active,
  ixlbx_socket_context_sock, ixlbx_socket_context_data,
}

abbrev pub reg_interface : List Command
reg_interface =
    begin namespace "iojx"
    ∷ begin class_ "ixc_context"
    ∷ end class_
    ∷ add "current_context" ixlb_get_cur_ctx
    ∷ add "enable_termcb" ixc_enable_termcb
    ∷ add "disable_termcb" ixc_disable_termcb
    ∷ add "spawn_process" ixlb_spawn_process
    ∷ begin namespace "sock"
    ∷ begin class_ "socket"
    ∷ end class_
    ∷ begin class_ "context"
    ∷ add "fd" ixfd_conn_ctx_fd
    ∷ end class_
    ∷ add "create" ixlb_sock_create
    ∷ add "free" ixfd_commonsock_free
    ∷ begin namespace "tcp"
    ∷ add "bind_ip" ixfd_commonsock_tcp_createnbind
    ∷ add "connect" ixlb_sock_connect
    ∷ add "listen" ixfd_commonsock_tcp_listen
    ∷ end namespace
    ∷ add "setreadbuflen" ixfd_commonsock_set_bufread_len
    ∷ add "write" ixlb_sock_write
    ∷ add "set_read_callback" ixlb_sock_set_read_callback
    ∷ end namespace
    ∷ begin namespace "timer"
    ∷ begin class_ "timer"
    ∷ end class_
    ∷ add "create" ixut_timer_create
    ∷ add "free" ixut_timer_free
    ∷ add "start" ixlb_timer_start
    ∷ add "stop" ixut_timer_stop
    ∷ add "again" ixut_timer_again
    ∷ add "setimeout" ixut_timer_setimeout
    ∷ add "tick" ixut_timer_tick
    ∷ end namespace
    ∷ begin namespace "util"
    ∷ begin class_ "cFILE"
    ∷ end class_
    ∷ add "fork" ixlb_fork
    ∷ add "getpid" ixlb_getpid
    ∷ add "init_loop" ixlb_init_loop
    ∷ add "run" ixlb_run
    ∷ add "break_loop" ixlb_break_loop
    ∷ add "exec" ixlb_exec
    ∷ add "freopen" ixlb_freopen
    ∷ add "stdin" ixlb_get_stdin
    ∷ add "stderr" ixlb_get_stderr
    ∷ add "stdout" ixlb_get_stdout
    ∷ add "fflush" ixlb_fflush
    ∷ add "WEXITSTATUS" ixlb_wexitstatus
    ∷ add "WTERMSIG" ixlb_wtermsig
    ∷ add "WIFEXITED" ixlb_wifexited
    ∷ add "WIFSIGNALED" ixlb_wifsignaled
    ∷ add "WIFSTOPPED" ixlb_wifstopped
    ∷ add "WSTOPSIG" ixlb_wstopsig
    ∷ end namespace
    ∷ begin namespace "child_process"
    ∷ begin class_ "watcher"
    ∷ end class_
    ∷ begin class_ "status"
    ∷ add "status_raw" ixut_child_exitstatus_status_raw
    ∷ add "status" ixut_child_exitstatus_status
    ∷ add "exit_cause" ixut_child_exitstatus_exit_cause
    ∷ add "termsig" ixut_child_exitstatus_term_sig
    ∷ end class_
    ∷ add "create" ixut_childw_create
    ∷ add "free" ixut_childw_free
    ∷ add "start" ixlb_childw_start
    ∷ add "getpid" ixut_childw_getpid
    ∷ add "getstatus" ixut_childw_getstatus
    ∷ end namespace
    ∷ begin namespace "sandbox"
    ∷ add "reslimit" ixut_reslimit
    ∷ add "reslimit_d" ixut_reslimit_d
    ∷ add "setuid" ixut_setuid
    ∷ add "setgid" ixut_setgid
    ∷ end namespace
    ∷ begin namespace "platform"
    ∷ add "execpath" ixut_execpath
    ∷ add "syscall_name" ixut_syscall_name
    ∷ end namespace
    ∷ begin namespace "co"
    ∷ add "spawn_process" ixlb_spawn_process_co
    ∷ end namespace
    ∷ end namespace
    ∷ []

abbrev pub reg_interfacex : List Command
reg_interfacex =
    begin namespace "iojxx"
    ∷ begin class_ "base"
    ∷ add_constructor
    ∷ end class_
    ∷ begin class_ "timer"
    ∷ add_constructor
    ∷ add "start" ixlbx_timer_start
    ∷ end class_
    ∷ begin class_ "fork"
    ∷ add_constructor
    ∷ add "pid" ixlbx_fork_pid
    ∷ end class_
    ∷ begin class_ "child_watcher"
    ∷ add_constructor
    ∷ add "start" ixlbx_child_watcher_start
    ∷ add "get_status" ixlbx_child_watcher_get_status
    ∷ end class_
    ∷ begin class_ "ixlbx_tcp_base"
    ∷ add_constructor
    ∷ add "start" ixlbx_tcp_base_start
    ∷ add "on_read" ixlbx_tcp_base_on_read
    ∷ add "on_accept" ixlbx_tcp_base_on_accept
    ∷ add "on_close" ixlbx_tcp_base_on_close
    ∷ add "close" ixlbx_tcp_base_close
    ∷ end class_
    ∷ begin class_ "ixlbx_socket_context"
    ∷ add "write" ixlbx_socket_context_write
    ∷ add "close" ixlbx_socket_context_close
    ∷ add "is_active" ixlbx_socket_context_is_active
    ∷ add "sock" ixlbx_socket_context_sock
    ∷ add "data" ixlbx_socket_context_data
    ∷ end class_
    ∷ end namespace
    ∷ []
