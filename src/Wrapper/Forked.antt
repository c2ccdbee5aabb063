-- ===== src/Wrapper/Forked.antt =====
-- `ixlbx_fork`: an object of Lua that forks in its constructor.
pub mod Pid
use iojxd.Prelude.{ℤ, pos, negsuc, zero, suc, Option, none, some}
use iojxd.Memory.{Cmd, ok, err, bad_access, ◌>>=◌, ◌>>◌}
use iojxd.Child

-- The member `pid`, `none` while it is indeterminate, and the state of the process.
pub record Forked (S : Type 0) : Type 0 where
  pub pid : Option ℤ
  pub process : S

module _ {S : Type 0} where
  -- Any read of `pid`.
  unfoldable pub get_pid : Cmd (Forked S) ℤ
  get_pid o = elim o.pid [ none ↦ err bad_access | some pid ↦ ok pid o ]

  -- The constructor, when `fork` returned `forked`: `lua` is what the Lua function does, which is
  -- handed the object.
  unfoldable pub construct : ℤ → Cmd (Forked S) (Unit {0}) → Cmd (Forked S) (Unit {0})
  construct forked lua = do pid ← Child.fork forked lua; λ o. ok tt (record o { pid = some pid })
