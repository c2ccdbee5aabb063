-- ===== src/Syscall.antt =====
-- src/losyscall.cxx: `ixut_syscall_name`. The header <sys/syscall.h> decides which macros are
-- defined and as what, so it is the parameter `defined`; a `long` is given by its 64-bit pattern.
pub mod Row
pub mod First
pub mod Second
pub mod Third
pub mod Names
mod Examples
use Prim.Native.String.{String}
use iojxd.Prelude.{
  ℕ, Bool, true, false, Option, none, some, List, [], ◌∷◌, ◌++◌, ◌==◌, if◌then◌else◌,
}
use iojxd.Syscall.Row.{Case, case}
use First.{cases_from_sysctl, cases_from_fchdir, cases_from_getpriority, cases_from_lsetxattr}
use Second.{cases_from_poll, cases_from_sched_setaffinity, cases_from_symlinkat, cases_from_waitid}
use Third.{cases_from_llseek, cases_from_prof}

abbrev pub Header : Type 0
Header = String → Option ℕ

-- The `case` lines of the `switch`, in their order.
unfoldable pub cases : List Case
cases =
    cases_from_sysctl
    ++ (cases_from_fchdir
        ++ (cases_from_getpriority
            ++ (cases_from_lsetxattr
                ++ (cases_from_poll
                    ++ (cases_from_sched_setaffinity
                        ++ (cases_from_symlinkat
                            ++ (cases_from_waitid ++ (cases_from_llseek ++ cases_from_prof))))))))

-- A case under `#ifdef` is there when its macro is defined.
abbrev pub matches : Option ℕ → ℕ → Bool
matches none call = false
matches (some n) call = n == call

unfoldable pub select : Header → List Case → ℕ → Option String
select defined [] call = none
select defined (c ∷ cs) call =
    if matches (defined c.label) call then some c.text else select defined cs call

-- `default: return "unknown";`
abbrev pub or_default : Option String → String
or_default none = "unknown"
or_default (some t) = t

unfoldable pub syscall_name : Header → ℕ → String
syscall_name defined call = or_default (select defined cases call)
