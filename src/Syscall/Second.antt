-- ===== src/Syscall/Second.antt =====
-- The `case` lines of src/losyscall.cxx, in their order: the macro and the text returned.
use iojxd.Prelude.{List, [], ◌∷◌}
use iojxd.Syscall.Row.{Case, case}

abbrev pub cases_from_poll : List Case
cases_from_poll =
    case "SYS_poll" "poll"
    ∷ case "SYS_ppoll" "ppoll"
    ∷ case "SYS_prctl" "prctl"
    ∷ case "SYS_pread64" "pread64"
    ∷ case "SYS_pselect6" "pselect6"
    ∷ case "SYS_ptrace" "ptrace"
    ∷ case "SYS_putpmsg" "putpmsg"
    ∷ case "SYS_pwrite64" "pwrite64"
    ∷ case "SYS_query_module" "query_module"
    ∷ case "SYS_quotactl" "quotactl"
    ∷ case "SYS_read" "read"
    ∷ case "SYS_readahead" "readahead"
    ∷ case "SYS_readlink" "readlink"
    ∷ case "SYS_readlinkat" "readlinkat"
    ∷ case "SYS_readv" "readv"
    ∷ case "SYS_reboot" "reboot"
    ∷ case "SYS_remap_file_pages" "remap_file_pages"
    ∷ case "SYS_removexattr" "removexattr"
    ∷ case "SYS_rename" "rename"
    ∷ case "SYS_renameat" "renameat"
    ∷ case "SYS_request_key" "request_key"
    ∷ case "SYS_restart_syscall" "restart_syscall"
    ∷ case "SYS_rmdir" "rmdir"
    ∷ case "SYS_rt_sigaction" "rt_sigaction"
    ∷ case "SYS_rt_sigpending" "rt_sigpending"
    ∷ case "SYS_rt_sigprocmask" "rt_sigprocmask"
    ∷ case "SYS_rt_sigqueueinfo" "rt_sigqueueinfo"
    ∷ case "SYS_rt_sigreturn" "rt_sigreturn"
    ∷ case "SYS_rt_sigsuspend" "rt_sigsuspend"
    ∷ case "SYS_rt_sigtimedwait" "rt_sigtimedwait"
    ∷ case "SYS_sched_get_priority_max" "sched_get_priority_max"
    ∷ case "SYS_sched_get_priority_min" "sched_get_priority_min"
    ∷ case "SYS_sched_getaffinity" "sched_getaffinity"
    ∷ case "SYS_sched_getparam" "sched_getparam"
    ∷ case "SYS_sched_getscheduler" "sched_getscheduler"
    ∷ case "SYS_sched_rr_get_interval" "sched_rr_get_interval"
    ∷ []

abbrev pub cases_from_sched_setaffinity : List Case
cases_from_sched_setaffinity =
    case "SYS_sched_setaffinity" "sched_setaffinity"
    ∷ case "SYS_sched_setparam" "sched_setparam"
    ∷ case "SYS_sched_setscheduler" "sched_setscheduler"
    ∷ case "SYS_sched_yield" "sched_yield"
    ∷ case "SYS_select" "select"
    ∷ case "SYS_sendfile" "sendfile"
    ∷ case "SYS_set_mempolicy" "set_mempolicy"
    ∷ case "SYS_set_robust_list" "set_robust_list"
    ∷ case "SYS_set_thread_area" "set_thread_area"
    ∷ case "SYS_set_tid_address" "set_tid_address"
    ∷ case "SYS_setdomainname" "setdomainname"
    ∷ case "SYS_setfsgid" "setfsgid"
    ∷ case "SYS_setfsuid" "setfsuid"
    ∷ case "SYS_setgid" "setgid"
    ∷ case "SYS_setgroups" "setgroups"
    ∷ case "SYS_sethostname" "sethostname"
    ∷ case "SYS_setitimer" "setitimer"
    ∷ case "SYS_setpgid" "setpgid"
    ∷ case "SYS_setpriority" "setpriority"
    ∷ case "SYS_setregid" "setregid"
    ∷ case "SYS_setresgid" "setresgid"
    ∷ case "SYS_setresuid" "setresuid"
    ∷ case "SYS_setreuid" "setreuid"
    ∷ case "SYS_setrlimit" "setrlimit"
    ∷ case "SYS_setsid" "setsid"
    ∷ case "SYS_settimeofday" "settimeofday"
    ∷ case "SYS_setuid" "setuid"
    ∷ case "SYS_setxattr" "setxattr"
    ∷ case "SYS_sigaltstack" "sigaltstack"
    ∷ case "SYS_signalfd" "signalfd"
    ∷ case "SYS_splice" "splice"
    ∷ case "SYS_stat" "stat"
    ∷ case "SYS_statfs" "statfs"
    ∷ case "SYS_swapoff" "swapoff"
    ∷ case "SYS_swapon" "swapon"
    ∷ case "SYS_symlink" "symlink"
    ∷ []

abbrev pub cases_from_symlinkat : List Case
cases_from_symlinkat =
    case "SYS_symlinkat" "symlinkat"
    ∷ case "SYS_sync" "sync"
    ∷ case "SYS_sync_file_range" "sync_file_range"
    ∷ case "SYS_sysfs" "sysfs"
    ∷ case "SYS_sysinfo" "sysinfo"
    ∷ case "SYS_syslog" "syslog"
    ∷ case "SYS_tee" "tee"
    ∷ case "SYS_tgkill" "tgkill"
    ∷ case "SYS_time" "time"
    ∷ case "SYS_timer_create" "timer_create"
    ∷ case "SYS_timer_delete" "timer_delete"
    ∷ case "SYS_timer_getoverrun" "timer_getoverrun"
    ∷ case "SYS_timer_gettime" "timer_gettime"
    ∷ case "SYS_timer_settime" "timer_settime"
    ∷ case "SYS_timerfd_create" "timerfd_create"
    ∷ case "SYS_timerfd_gettime" "timerfd_gettime"
    ∷ case "SYS_timerfd_settime" "timerfd_settime"
    ∷ case "SYS_times" "times"
    ∷ case "SYS_tkill" "tkill"
    ∷ case "SYS_truncate" "truncate"
    ∷ case "SYS_umask" "umask"
    ∷ case "SYS_umount2" "umount2"
    ∷ case "SYS_uname" "uname"
    ∷ case "SYS_unlink" "unlink"
    ∷ case "SYS_unlinkat" "unlinkat"
    ∷ case "SYS_unshare" "unshare"
    ∷ case "SYS_uselib" "uselib"
    ∷ case "SYS_ustat" "ustat"
    ∷ case "SYS_utime" "utime"
    ∷ case "SYS_utimensat" "utimensat"
    ∷ case "SYS_utimes" "utimes"
    ∷ case "SYS_vfork" "vfork"
    ∷ case "SYS_vhangup" "vhangup"
    ∷ case "SYS_vmsplice" "vmsplice"
    ∷ case "SYS_vserver" "vserver"
    ∷ case "SYS_wait4" "wait4"
    ∷ []

abbrev pub cases_from_waitid : List Case
cases_from_waitid =
    case "SYS_waitid" "waitid"
    ∷ case "SYS_write" "write"
    ∷ case "SYS_writev" "writev"
    ∷ case "SYS_accept" "accept"
    ∷ case "SYS_arch_prctl" "arch_prctl"
    ∷ case "SYS_bind" "bind"
    ∷ case "SYS_connect" "connect"
    ∷ case "SYS_epoll_ctl_old" "epoll_ctl_old"
    ∷ case "SYS_epoll_wait_old" "epoll_wait_old"
    ∷ case "SYS_getpeername" "getpeername"
    ∷ case "SYS_getsockname" "getsockname"
    ∷ case "SYS_getsockopt" "getsockopt"
    ∷ case "SYS_listen" "listen"
    ∷ case "SYS_msgctl" "msgctl"
    ∷ case "SYS_msgget" "msgget"
    ∷ case "SYS_msgrcv" "msgrcv"
    ∷ case "SYS_msgsnd" "msgsnd"
    ∷ case "SYS_newfstatat" "newfstatat"
    ∷ case "SYS_recvfrom" "recvfrom"
    ∷ case "SYS_recvmsg" "recvmsg"
    ∷ case "SYS_security" "security"
    ∷ case "SYS_semctl" "semctl"
    ∷ case "SYS_semget" "semget"
    ∷ case "SYS_semop" "semop"
    ∷ case "SYS_semtimedop" "semtimedop"
    ∷ case "SYS_sendmsg" "sendmsg"
    ∷ case "SYS_sendto" "sendto"
    ∷ case "SYS_setsockopt" "setsockopt"
    ∷ case "SYS_shmat" "shmat"
    ∷ case "SYS_shmctl" "shmctl"
    ∷ case "SYS_shmdt" "shmdt"
    ∷ case "SYS_shmget" "shmget"
    ∷ case "SYS_shutdown" "shutdown"
    ∷ case "SYS_socket" "socket"
    ∷ case "SYS_socketpair" "socketpair"
    ∷ case "SYS_tuxcall" "tuxcall"
    ∷ []
