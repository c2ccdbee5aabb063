-- ===== src/Syscall/Examples.antt =====
-- `ixut_syscall_name` under a header that defines two of the macros.
use Prim.Native.String.{String}
use text.Mathlib.Text.{◌==◌ as str_eq}
use text.Mathlib.TextEquality.{eq_iff}
use iojxd.Prelude.{ℕ, ◌≡◌, ◌≢◌, inl, inr, refl, none, some, if◌then◌else◌, arith, ◌⊎◌}
use iojxd.Syscall.{Header, cases, select, syscall_name}
use iojxd.Syscall.Names.{macro_of, IsListed, NoDuplicate, syscall_name_sound, syscall_name_complete}

-- As on x86-64, for two of the macros.
abbrev small_header : Header
small_header label =
    if str_eq label "SYS_access"
    then some 21
    else if str_eq label "SYS_acct"
    then some 163
    else none

name_of_21 : syscall_name small_header 21 ≡ "access"
unfolding syscall_name select cases
name_of_21 = refl

name_of_22 : syscall_name small_header 22 ≡ "unknown"
unfolding syscall_name select cases
name_of_22 = refl

small_header-inv :
    (l : String) (n : ℕ)
    → small_header l ≡ some n
    → ((l ≡ "SYS_access") × (n ≡ 21)) ⊎ ((l ≡ "SYS_acct") × (n ≡ 163))
small_header-inv l n e = ground (arith, eq_iff l "SYS_access", eq_iff l "SYS_acct")

small-NoDuplicate : NoDuplicate small_header
small-NoDuplicate l m n e f = ground (arith, small_header-inv l n e, small_header-inv m n f)

syscall_name_sound_example :
    (syscall_name small_header 21 ≢ "unknown"
      → small_header (macro_of (syscall_name small_header 21)) ≡ some 21)
    × (syscall_name small_header 21 ≡ "unknown"
        → (label : String) → IsListed label cases
        → small_header label ≢ some 21)
syscall_name_sound_example = syscall_name_sound small_header 21

syscall_name_complete_example : macro_of (syscall_name small_header 21) ≡ "SYS_access"
unfolding cases
syscall_name_complete_example =
    syscall_name_complete small_header 21 "SYS_access" small-NoDuplicate (inr (inl refl)) refl
