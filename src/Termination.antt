-- ===== src/Termination.antt =====
-- src/child_termcb.hxx and src/child_termcb.cxx: a callback for the end of one child process.
-- libev's child watchers are a parameter; what they are set to is the pid.
pub mod Ending
use iojxd.Prelude.{ℕ, ℤ, pos, negsuc, zero, suc, Option, none, some}
use iojxd.Memory.{Ptr, Cmd, ok, err, aborted, bad_access, pure, fail, ◌>>=◌, ◌>>◌}
use iojxd.Ev.{Watchers}

pub data Handler : Type 0 where
  terminated_ev : Handler

-- `struct ixc_termcb_args`
pub record TermArgs : Type 0 where
  pub data_ : Ptr
  pub cb : Ptr
  pub pid : ℕ
  pub status : ℕ
  pub term_signal : ℕ

-- The two objects of one callback, `none` before they are allocated and once they are freed, and
-- the state of the client.
pub record Store (W C : Type 0) : Type 0 where
  pub args : Option TermArgs
  pub event : Option W
  pub client_state : C

module _ (ev : Watchers Handler ℕ) (C : Type 0) where
  abbrev pub Action : Type 0 → Type 0
  Action A = Cmd (Store ev.W C) A

  abbrev pub get_args : Action TermArgs
  get_args s = elim s.args [ none ↦ err bad_access | some a ↦ ok a s ]

  abbrev pub get_event : Action ev.W
  get_event s = elim s.event [ none ↦ err bad_access | some w ↦ ok w s ]

  abbrev pub set_args : Option TermArgs → Action (Unit {0})
  set_args a s = ok tt (record s { args = a })

  abbrev pub set_event : Option ev.W → Action (Unit {0})
  set_event w s = ok tt (record s { event = w })

  -- `ixc_add_termcb`
  unfoldable pub add_termcb : ℕ → Ptr → Ptr → Action (Unit {0})
  add_termcb pid cb args = do
    set_args (some (record { data_ = args; cb = cb; pid = pid; status = 0; term_signal = 0 }))
    set_event (some (ev.set pid (ev.init terminated_ev ev.blank)))
    w ← get_event
    set_event (some (ev.start w))

  -- `ixut_spawn_process`, when `fork` returned `pid`. In the child `execvp` returns only if it
  -- failed, which the assertion after it ends.
  unfoldable pub spawn_process : ℤ → Ptr → Ptr → Action (Unit {0})
  spawn_process (negsuc n) cb args = pure tt
  spawn_process (pos zero) cb args = fail aborted
  spawn_process (pos (suc n)) cb args = add_termcb (suc n) cb args

  -- `ixcb_child_terminated_ev`, with the watcher's `rpid` and `rstatus`. The client is handed the
  -- arguments in the store.
  unfoldable pub terminated : (Ptr → Action (Unit {0})) → (rpid rstatus : ℕ) → Action (Unit {0})
  terminated client rpid rstatus = do
    a ← get_args
    get_event
    set_args (some (record a { pid = rpid; status = rstatus }))
    client a.cb
    w ← get_event
    set_event (some (ev.stop w))
    get_args
    set_args none
    set_event none
