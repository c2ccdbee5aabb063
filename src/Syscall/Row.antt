-- ===== src/Syscall/Row.antt =====
-- One `#ifdef SYS_x / case SYS_x : return "x";` of `ixut_syscall_name`.
use Prim.Native.String.{String}

pub record Case : Type 0 where
  pub label : String
  pub text : String

abbrev pub case : String → String → Case
case l t = record { label = l; text = t }
