-- ===== src/Registration.antt =====
-- `ixlb_reg_interface` of src/luafound.cxx and `ixlbx_reg_interface` of src/luafoundx.cxx: which
-- functions Lua finds under which names. LuaBridge, which is not part of the repository, is a
-- parameter.
pub mod Tables
pub mod Walking
pub mod Names
pub mod Model
mod Examples
use Prim.Native.String.{String}
use text.Mathlib.Text.{◌==◌}
use iojxd.Prelude.{◌≡◌, Bool, true, false, Option, none, some, List, [], ◌∷◌, ◌&&◌, if◌then◌else◌}

-- The functions and members that are registered, by their names in the source.
pub data Function : Type 0 where
  ixlb_get_cur_ctx ixc_enable_termcb ixc_disable_termcb ixlb_spawn_process ixfd_conn_ctx_fd
        ixlb_sock_create ixfd_commonsock_free ixfd_commonsock_tcp_createnbind ixlb_sock_connect
        ixfd_commonsock_tcp_listen ixfd_commonsock_set_bufread_len ixlb_sock_write
        ixlb_sock_set_read_callback ixut_timer_create ixut_timer_free ixlb_timer_start
        ixut_timer_stop ixut_timer_again ixut_timer_setimeout ixut_timer_tick ixlb_fork ixlb_getpid
        ixlb_init_loop ixlb_run ixlb_break_loop ixlb_exec ixlb_freopen ixlb_get_stdin
        ixlb_get_stderr ixlb_get_stdout ixlb_fflush ixlb_wexitstatus ixlb_wtermsig ixlb_wifexited
        ixlb_wifsignaled ixlb_wifstopped ixlb_wstopsig ixut_child_exitstatus_status_raw
        ixut_child_exitstatus_status ixut_child_exitstatus_exit_cause ixut_child_exitstatus_term_sig
        ixut_childw_create ixut_childw_free ixlb_childw_start ixut_childw_getpid
        ixut_childw_getstatus ixut_reslimit ixut_reslimit_d ixut_setuid ixut_setgid ixut_execpath
        ixut_syscall_name ixlb_spawn_process_co ixlbx_timer_start ixlbx_fork_pid
        ixlbx_child_watcher_start ixlbx_child_watcher_get_status ixlbx_tcp_base_start
        ixlbx_tcp_base_on_read ixlbx_tcp_base_on_accept ixlbx_tcp_base_on_close ixlbx_tcp_base_close
        ixlbx_socket_context_write ixlbx_socket_context_close ixlbx_socket_context_is_active
        ixlbx_socket_context_sock ixlbx_socket_context_data :
      Function

pub data Scope : Type 0 where
  namespace class_ : Scope

-- `beginNamespace` and `beginClass`, `endNamespace` and `endClass`, `addFunction`, `addCFunction`
-- and `addData`, and `addConstructor`.
pub data Command : Type 0 where
  begin : Scope → String → Command
  end : Scope → Command
  add : String → Function → Command
  add_constructor : Command

abbrev pub names : List (Scope × String) → List String
names [] = []
names ((k, n) ∷ p) = n ∷ names p

abbrev pub same_key : List String → List String → Bool
same_key [] [] = true
same_key [] (y ∷ ys) = false
same_key (x ∷ xs) [] = false
same_key (x ∷ xs) (y ∷ ys) = (x == y) && same_key xs ys

-- A chain of LuaBridge's registration: the scopes that are open, the innermost first, and what
-- stands under a name, which is followed by the names of its scopes.
pub record Registry : Type 1 where
  pub S : Type 0
  pub scopes : S → List (Scope × String)
  pub entry : S → List String → Option Function
  pub begin_scope : Scope → String → S → S
  pub scopes-begin_scope :
      (k : Scope) (n : String) (s : S) → scopes (begin_scope k n s) ≡ (k, n) ∷ scopes s
  pub entry-begin_scope :
      (k : Scope) (n : String) (s : S) (q : List String) → entry (begin_scope k n s) q ≡ entry s q
  -- What is ended is the innermost scope, and of that kind.
  pub end_scope : Scope → S → S
  pub scopes-end_scope :
      (k : Scope) (n : String) (p : List (Scope × String)) (s : S)
      → scopes s ≡ (k, n) ∷ p
      → scopes (end_scope k s) ≡ p
  pub entry-end_scope : (k : Scope) (s : S) (q : List String) → entry (end_scope k s) q ≡ entry s q
  -- A later entry takes the place of an earlier one with its name.
  pub add_entry : String → Function → S → S
  pub scopes-add_entry : (n : String) (f : Function) (s : S) → scopes (add_entry n f s) ≡ scopes s
  pub entry-add_entry :
      (n : String) (f : Function) (s : S) (q : List String)
      → entry (add_entry n f s) q
        ≡ (if same_key q (n ∷ names (scopes s)) then some f else entry s q)
  pub construct : S → S
  pub scopes-construct : (s : S) → scopes (construct s) ≡ scopes s
  pub entry-construct : (s : S) (q : List String) → entry (construct s) q ≡ entry s q

module _ (reg : Registry) where
  abbrev pub perform : Command → reg.S → reg.S
  perform (begin k n) s = reg.begin_scope k n s
  perform (end k) s = reg.end_scope k s
  perform (add n f) s = reg.add_entry n f s
  perform add_constructor s = reg.construct s

  unfoldable pub run : List Command → reg.S → reg.S
  run [] s = s
  run (c ∷ cs) s = run cs (perform c s)
