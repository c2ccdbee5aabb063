-- ===== src/Syscall/Third.antt =====
-- The `case` lines of src/losyscall.cxx, in their order: the macro and the text returned.
use iojxd.Prelude.{List, [], ◌∷◌}
use iojxd.Syscall.Row.{Case, case}

abbrev pub cases_from_llseek : List Case
cases_from_llseek =
    case "SYS__llseek" "_llseek"
    ∷ case "SYS__newselect" "_newselect"
    ∷ case "SYS_bdflush" "bdflush"
    ∷ case "SYS_break" "break"
    ∷ case "SYS_chown32" "chown32"
    ∷ case "SYS_fadvise64_64" "fadvise64_64"
    ∷ case "SYS_fchown32" "fchown32"
    ∷ case "SYS_fcntl64" "fcntl64"
    ∷ case "SYS_fstat64" "fstat64"
    ∷ case "SYS_fstatat64" "fstatat64"
    ∷ case "SYS_fstatfs64" "fstatfs64"
    ∷ case "SYS_ftime" "ftime"
    ∷ case "SYS_ftruncate64" "ftruncate64"
    ∷ case "SYS_getcpu" "getcpu"
    ∷ case "SYS_getegid32" "getegid32"
    ∷ case "SYS_geteuid32" "geteuid32"
    ∷ case "SYS_getgid32" "getgid32"
    ∷ case "SYS_getgroups32" "getgroups32"
    ∷ case "SYS_getresgid32" "getresgid32"
    ∷ case "SYS_getresuid32" "getresuid32"
    ∷ case "SYS_getuid32" "getuid32"
    ∷ case "SYS_gtty" "gtty"
    ∷ case "SYS_idle" "idle"
    ∷ case "SYS_ipc" "ipc"
    ∷ case "SYS_lchown32" "lchown32"
    ∷ case "SYS_lock" "lock"
    ∷ case "SYS_lstat64" "lstat64"
    ∷ case "SYS_madvise1" "madvise1"
    ∷ case "SYS_mmap2" "mmap2"
    ∷ case "SYS_mpx" "mpx"
    ∷ case "SYS_nice" "nice"
    ∷ case "SYS_oldfstat" "oldfstat"
    ∷ case "SYS_oldlstat" "oldlstat"
    ∷ case "SYS_oldolduname" "oldolduname"
    ∷ case "SYS_oldstat" "oldstat"
    ∷ case "SYS_olduname" "olduname"
    ∷ []

abbrev pub cases_from_prof : List Case
cases_from_prof =
    case "SYS_prof" "prof"
    ∷ case "SYS_profil" "profil"
    ∷ case "SYS_readdir" "readdir"
    ∷ case "SYS_sendfile64" "sendfile64"
    ∷ case "SYS_setfsgid32" "setfsgid32"
    ∷ case "SYS_setfsuid32" "setfsuid32"
    ∷ case "SYS_setgid32" "setgid32"
    ∷ case "SYS_setgroups32" "setgroups32"
    ∷ case "SYS_setregid32" "setregid32"
    ∷ case "SYS_setresgid32" "setresgid32"
    ∷ case "SYS_setresuid32" "setresuid32"
    ∷ case "SYS_setreuid32" "setreuid32"
    ∷ case "SYS_setuid32" "setuid32"
    ∷ case "SYS_sgetmask" "sgetmask"
    ∷ case "SYS_sigaction" "sigaction"
    ∷ case "SYS_signal" "signal"
    ∷ case "SYS_sigpending" "sigpending"
    ∷ case "SYS_sigprocmask" "sigprocmask"
    ∷ case "SYS_sigreturn" "sigreturn"
    ∷ case "SYS_sigsuspend" "sigsuspend"
    ∷ case "SYS_socketcall" "socketcall"
    ∷ case "SYS_ssetmask" "ssetmask"
    ∷ case "SYS_stat64" "stat64"
    ∷ case "SYS_statfs64" "statfs64"
    ∷ case "SYS_stime" "stime"
    ∷ case "SYS_stty" "stty"
    ∷ case "SYS_truncate64" "truncate64"
    ∷ case "SYS_ugetrlimit" "ugetrlimit"
    ∷ case "SYS_ulimit" "ulimit"
    ∷ case "SYS_umount" "umount"
    ∷ case "SYS_vm86" "vm86"
    ∷ case "SYS_vm86old" "vm86old"
    ∷ case "SYS_waitpid" "waitpid"
    ∷ []
