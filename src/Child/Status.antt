-- ===== src/Child/Status.antt =====
-- `ixut_childw_getstatus`: a wait status taken apart, over the macros of <sys/wait.h>.
use iojxd.Prelude.{Bool-cases, inl, inr, ℕ, ◌≡◌, Bool, some, true, false, if◌then◌else◌}
use iojxd.Memory.{ok, pure, ◌>>=◌, ◌>>◌}
use iojxd.Ev.{Watchers}
use iojxd.Child.Watching.{watching}
use iojxd.Child.{ChildWatcher, Handler, Report, Action, get, get_event, get_report}

-- The macros. A status is at most one of exited, signalled and stopped.
pub record WaitMacros : Type 0 where
  pub wexitstatus : ℕ → ℕ
  pub wtermsig : ℕ → ℕ
  pub wifexited : ℕ → Bool
  pub wifsignaled : ℕ → Bool
  pub wifstopped : ℕ → Bool
  pub exited-signaled : (raw : ℕ) → wifexited raw ≡ true → wifsignaled raw ≡ false
  pub exited-stopped : (raw : ℕ) → wifexited raw ≡ true → wifstopped raw ≡ false
  pub signaled-stopped : (raw : ℕ) → wifsignaled raw ≡ true → wifstopped raw ≡ false

-- `struct ixut_child_exitstatus`
pub record ExitStatus : Type 0 where
  pub status_raw : ℕ
  pub status : ℕ
  pub exit_cause : ℕ
  pub term_sig : ℕ

module _ (macros : WaitMacros) where
  -- `exit_cause` after each of the three tests.
  unfoldable pub cause : ℕ → ℕ
  cause raw =
      let zeroed : ℕ = 0 in
      let exited : ℕ = if macros.wifexited raw then 0 else zeroed in
      let signaled : ℕ = if macros.wifsignaled raw then 1 else exited in
      if macros.wifstopped raw then 2 else signaled

  -- The cause with the tests in the other order.
  cause-described :
      (raw : ℕ)
      → cause raw ≡ (
          if macros.wifexited raw
          then 0
          else if macros.wifsignaled raw
          then 1
          else if macros.wifstopped raw
          then 2
          else 0)
  unfolding cause
  cause-described raw = elim (Bool-cases (macros.wifexited raw)) [
    | inl e ↦ rw (macros.exited-stopped raw e, macros.exited-signaled raw e, e)
    | inr e ↦ elim (Bool-cases (macros.wifsignaled raw)) [
      | inl s ↦ rw (macros.signaled-stopped raw s, e, s)
      | inr s ↦ rw (e, s)
    ]
  ]

  unfoldable pub status_of : ℕ → ExitStatus
  unfolding cause
  status_of raw = record {
    status_raw = raw;
    status = macros.wexitstatus raw;
    exit_cause = cause raw;
    term_sig = macros.wtermsig raw;
  }

  unfoldable pub getstatus : (ev : Watchers Handler ℕ) (C : Type 0) → Action ev C ExitStatus
  getstatus ev C = do get ev C; get_event ev C; r ← get_report ev C; pure (status_of r.rstatus)

  -- `getstatus` on a watcher whose child was reported returns the raw status with the results of
  -- its macros, and changes nothing. Although the three tests run one after the other, the cause is
  -- 0 for a child that exited, 1 for one that was ended by a signal, 2 for one that is stopped, and
  -- 0 for every other status.
  pub getstatus_lem :
      (ev : Watchers Handler ℕ) (C : Type 0) (c : ChildWatcher) (w : ev.W) (rep : Report) (k : C)
      → getstatus ev C (watching c w (some rep) k)
        ≡ ok
            (record {
              status_raw = rep.rstatus;
              status = macros.wexitstatus rep.rstatus;
              exit_cause =
                  if macros.wifexited rep.rstatus
                  then 0
                  else if macros.wifsignaled rep.rstatus
                  then 1
                  else if macros.wifstopped rep.rstatus
                  then 2
                  else 0;
              term_sig = macros.wtermsig rep.rstatus;
            })
            (watching c w (some rep) k)
  unfolding getstatus status_of
  getstatus_lem ev C c w rep k = rw (cause-described rep.rstatus)
