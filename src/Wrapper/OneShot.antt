-- ===== src/Wrapper/OneShot.antt =====
-- `ixlbx_timer` and `ixlbx_child_watcher`: objects that keep themselves alive from `start` to the
-- end of their callback. What they wrap is behind an interface that timers and child watchers meet.
pub mod Life
pub mod Restart
pub mod Impls
mod Examples
use iojxd.Prelude.{ℕ, ◌≡◌, Bool, true, false, if◌then◌else◌}
use iojxd.Memory.{Cmd, ok, err, aborted, pure, ◌>>=◌, ◌>>◌}
use iojxd.Memory.Returns.{Returns}
use iojxd.Wrapper.{RefCounts, Object, Action, on_impl, access, retain, ref, drop, un_ref}

-- The implementation under a wrapper. `deliver` is the loop's turn up to the call of the callback;
-- `counted` says whether the callback is handed a counted pointer to the object or a plain one.
pub record Impl : Type 1 where
  pub I : Type 0
  pub Arg : Type 0
  pub When : Type 0
  pub counted : Bool
  pub start : Arg → Cmd I (Unit {0})
  pub deliver : When → Cmd I (Unit {0})
  pub free : Cmd I (Unit {0})
  pub IsIdle : I → Type 0
  pub IsWaiting : I → Type 0
  pub IsFreed : I → Type 0
  pub start-IsWaiting : (a : Arg) (i : I) → IsIdle i → Returns (λ _ j. IsWaiting j) (start a i)
  pub deliver-IsIdle : (t : When) (i : I) → IsWaiting i → Returns (λ _ j. IsIdle j) (deliver t i)
  pub free-Returns : (i : I) → IsIdle i → Returns (λ _ j. IsFreed j) (free i)
  pub free_waiting : (i : I) → IsWaiting i → free i ≡ err aborted

module _ (rc : RefCounts) (im : Impl) where
  abbrev pub Act : Type 0
  Act = Action rc im.I (Unit {0})

  -- `ixlbx_timer::start`, `ixlbx_child_watcher::start`
  unfoldable pub start : im.Arg → Act
  start a = do ref rc im.I; on_impl rc im.I (im.start a)

  -- The callback of `ixlbx_timer`, over what the Lua function does: it is handed a counted pointer.
  unfoldable pub timer_callback : Act → Act
  timer_callback lua = do
    access rc im.I
    retain rc im.I
    lua
    drop rc im.I im.free
    un_ref rc im.I im.free

  -- The callback of `ixlbx_child_watcher`.
  unfoldable pub child_callback : Act → Act
  child_callback lua = do access rc im.I; lua; un_ref rc im.I im.free

  unfoldable pub callback : Bool → Act → Act
  unfolding timer_callback child_callback
  callback true lua = timer_callback lua
  callback false lua = child_callback lua

  -- The loop's turn.
  unfoldable pub fire : im.When → Act → Act
  unfolding callback
  fire t lua = do on_impl rc im.I (im.deliver t); callback im.counted lua
