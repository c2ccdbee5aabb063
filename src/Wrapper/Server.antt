-- ===== src/Wrapper/Server.antt =====
-- `ixlbx_tcp_base`: a listening socket in Lua.
pub mod Functions
pub mod Serving
pub mod Orphans
mod Examples
use iojxd.Prelude.{ℕ, Bool, true, false}
use iojxd.Memory.{Ptr, Cmd, ok, pure, ◌>>=◌, ◌>>◌}
use iojxd.Ev.{Watchers}
use iojxd.Sock.State.{Handler, Target, World}
use iojxd.Sock.Tcp
use iojxd.Sock.Tcp.{Binding}
use iojxd.Wrapper.{RefCounts, Action, on_impl, access, ref, un_ref}

module _ (rc : RefCounts) (io : Watchers Handler Target) (fuel : ℕ) (sock : Ptr) where
  abbrev pub Act : Type 0
  Act = Action rc (World io.W) (Unit {0})

  -- `~ixlbx_tcp_base`
  abbrev pub destructor : Cmd (World io.W) (Unit {0})
  destructor = Tcp.free fuel sock

  -- `ixlbx_tcp_base::start`
  unfoldable pub start : Binding → Act
  start r = do
    access rc (World io.W)
    on_impl rc (World io.W) (Tcp.createnbind io sock r)
    on_impl rc (World io.W) (Tcp.listen io sock)
    ref rc (World io.W)

  -- `ixlbx_tcp_base::close`
  unfoldable pub close : Act
  close = do
    access rc (World io.W)
    on_impl rc (World io.W) (Tcp.unbind io sock)
    un_ref rc (World io.W) destructor
