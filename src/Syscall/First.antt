-- ===== src/Syscall/First.antt =====
-- The `case` lines of src/losyscall.cxx, in their order: the macro and the text returned.
use iojxd.Prelude.{List, [], ◌∷◌}
use iojxd.Syscall.Row.{Case, case}

abbrev pub cases_from_sysctl : List Case
cases_from_sysctl =
    case "SYS__sysctl" "_sysctl"
    ∷ case "SYS_access" "access"
    ∷ case "SYS_acct" "acct"
    ∷ case "SYS_add_key" "add_key"
    ∷ case "SYS_adjtimex" "adjtimex"
    ∷ case "SYS_afs_syscall" "afs_syscall"
    ∷ case "SYS_alarm" "alarm"
    ∷ case "SYS_brk" "brk"
    ∷ case "SYS_capget" "capget"
    ∷ case "SYS_capset" "capset"
    ∷ case "SYS_chdir" "chdir"
    ∷ case "SYS_chmod" "chmod"
    ∷ case "SYS_chown" "chown"
    ∷ case "SYS_chroot" "chroot"
    ∷ case "SYS_clock_getres" "clock_getres"
    ∷ case "SYS_clock_gettime" "clock_gettime"
    ∷ case "SYS_clock_nanosleep" "clock_nanosleep"
    ∷ case "SYS_clock_settime" "clock_settime"
    ∷ case "SYS_clone" "clone"
    ∷ case "SYS_close" "close"
    ∷ case "SYS_creat" "creat"
    ∷ case "SYS_create_module" "create_module"
    ∷ case "SYS_delete_module" "delete_module"
    ∷ case "SYS_dup" "dup"
    ∷ case "SYS_dup2" "dup2"
    ∷ case "SYS_epoll_create" "epoll_create"
    ∷ case "SYS_epoll_ctl" "epoll_ctl"
    ∷ case "SYS_epoll_pwait" "epoll_pwait"
    ∷ case "SYS_epoll_wait" "epoll_wait"
    ∷ case "SYS_eventfd" "eventfd"
    ∷ case "SYS_execve" "execve"
    ∷ case "SYS_exit" "exit"
    ∷ case "SYS_exit_group" "exit_group"
    ∷ case "SYS_faccessat" "faccessat"
    ∷ case "SYS_fadvise64" "fadvise64"
    ∷ case "SYS_fallocate" "fallocate"
    ∷ []

abbrev pub cases_from_fchdir : List Case
cases_from_fchdir =
    case "SYS_fchdir" "fchdir"
    ∷ case "SYS_fchmod" "fchmod"
    ∷ case "SYS_fchmodat" "fchmodat"
    ∷ case "SYS_fchown" "fchown"
    ∷ case "SYS_fchownat" "fchownat"
    ∷ case "SYS_fcntl" "fcntl"
    ∷ case "SYS_fdatasync" "fdatasync"
    ∷ case "SYS_fgetxattr" "fgetxattr"
    ∷ case "SYS_flistxattr" "flistxattr"
    ∷ case "SYS_flock" "flock"
    ∷ case "SYS_fork" "fork"
    ∷ case "SYS_fremovexattr" "fremovexattr"
    ∷ case "SYS_fsetxattr" "fsetxattr"
    ∷ case "SYS_fstat" "fstat"
    ∷ case "SYS_fstatfs" "fstatfs"
    ∷ case "SYS_fsync" "fsync"
    ∷ case "SYS_ftruncate" "ftruncate"
    ∷ case "SYS_futex" "futex"
    ∷ case "SYS_futimesat" "futimesat"
    ∷ case "SYS_get_kernel_syms" "get_kernel_syms"
    ∷ case "SYS_get_mempolicy" "get_mempolicy"
    ∷ case "SYS_get_robust_list" "get_robust_list"
    ∷ case "SYS_get_thread_area" "get_thread_area"
    ∷ case "SYS_getcwd" "getcwd"
    ∷ case "SYS_getdents" "getdents"
    ∷ case "SYS_getdents64" "getdents64"
    ∷ case "SYS_getegid" "getegid"
    ∷ case "SYS_geteuid" "geteuid"
    ∷ case "SYS_getgid" "getgid"
    ∷ case "SYS_getgroups" "getgroups"
    ∷ case "SYS_getitimer" "getitimer"
    ∷ case "SYS_getpgid" "getpgid"
    ∷ case "SYS_getpgrp" "getpgrp"
    ∷ case "SYS_getpid" "getpid"
    ∷ case "SYS_getpmsg" "getpmsg"
    ∷ case "SYS_getppid" "getppid"
    ∷ []

abbrev pub cases_from_getpriority : List Case
cases_from_getpriority =
    case "SYS_getpriority" "getpriority"
    ∷ case "SYS_getresgid" "getresgid"
    ∷ case "SYS_getresuid" "getresuid"
    ∷ case "SYS_getrlimit" "getrlimit"
    ∷ case "SYS_getrusage" "getrusage"
    ∷ case "SYS_getsid" "getsid"
    ∷ case "SYS_gettid" "gettid"
    ∷ case "SYS_gettimeofday" "gettimeofday"
    ∷ case "SYS_getuid" "getuid"
    ∷ case "SYS_getxattr" "getxattr"
    ∷ case "SYS_init_module" "init_module"
    ∷ case "SYS_inotify_add_watch" "inotify_add_watch"
    ∷ case "SYS_inotify_init" "inotify_init"
    ∷ case "SYS_inotify_rm_watch" "inotify_rm_watch"
    ∷ case "SYS_io_cancel" "io_cancel"
    ∷ case "SYS_io_destroy" "io_destroy"
    ∷ case "SYS_io_getevents" "io_getevents"
    ∷ case "SYS_io_setup" "io_setup"
    ∷ case "SYS_io_submit" "io_submit"
    ∷ case "SYS_ioctl" "ioctl"
    ∷ case "SYS_ioperm" "ioperm"
    ∷ case "SYS_iopl" "iopl"
    ∷ case "SYS_ioprio_get" "ioprio_get"
    ∷ case "SYS_ioprio_set" "ioprio_set"
    ∷ case "SYS_kexec_load" "kexec_load"
    ∷ case "SYS_keyctl" "keyctl"
    ∷ case "SYS_kill" "kill"
    ∷ case "SYS_lchown" "lchown"
    ∷ case "SYS_lgetxattr" "lgetxattr"
    ∷ case "SYS_link" "link"
    ∷ case "SYS_linkat" "linkat"
    ∷ case "SYS_listxattr" "listxattr"
    ∷ case "SYS_llistxattr" "llistxattr"
    ∷ case "SYS_lookup_dcookie" "lookup_dcookie"
    ∷ case "SYS_lremovexattr" "lremovexattr"
    ∷ case "SYS_lseek" "lseek"
    ∷ []

abbrev pub cases_from_lsetxattr : List Case
cases_from_lsetxattr =
    case "SYS_lsetxattr" "lsetxattr"
    ∷ case "SYS_lstat" "lstat"
    ∷ case "SYS_madvise" "madvise"
    ∷ case "SYS_mbind" "mbind"
    ∷ case "SYS_migrate_pages" "migrate_pages"
    ∷ case "SYS_mincore" "mincore"
    ∷ case "SYS_mkdir" "mkdir"
    ∷ case "SYS_mkdirat" "mkdirat"
    ∷ case "SYS_mknod" "mknod"
    ∷ case "SYS_mknodat" "mknodat"
    ∷ case "SYS_mlock" "mlock"
    ∷ case "SYS_mlockall" "mlockall"
    ∷ case "SYS_mmap" "mmap"
    ∷ case "SYS_modify_ldt" "modify_ldt"
    ∷ case "SYS_mount" "mount"
    ∷ case "SYS_move_pages" "move_pages"
    ∷ case "SYS_mprotect" "mprotect"
    ∷ case "SYS_mq_getsetattr" "mq_getsetattr"
    ∷ case "SYS_mq_notify" "mq_notify"
    ∷ case "SYS_mq_open" "mq_open"
    ∷ case "SYS_mq_timedreceive" "mq_timedreceive"
    ∷ case "SYS_mq_timedsend" "mq_timedsend"
    ∷ case "SYS_mq_unlink" "mq_unlink"
    ∷ case "SYS_mremap" "mremap"
    ∷ case "SYS_msync" "msync"
    ∷ case "SYS_munlock" "munlock"
    ∷ case "SYS_munlockall" "munlockall"
    ∷ case "SYS_munmap" "munmap"
    ∷ case "SYS_nanosleep" "nanosleep"
    ∷ case "SYS_nfsservctl" "nfsservctl"
    ∷ case "SYS_open" "open"
    ∷ case "SYS_openat" "openat"
    ∷ case "SYS_pause" "pause"
    ∷ case "SYS_personality" "personality"
    ∷ case "SYS_pipe" "pipe"
    ∷ case "SYS_pivot_root" "pivot_root"
    ∷ []
