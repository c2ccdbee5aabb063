-- ===== src/Wrapper/Connection.antt =====
-- `ixlbx_socket_context`: a connection in Lua. Its `un_ref` is its own, and its destructor frees
-- the connection.
pub mod AtEnd
pub mod Life
mod Examples
use iojxd.Prelude.{ℕ, zero, suc, Bool, true, false, if◌then◌else◌}
use iojxd.Memory.{Ptr, Cmd, Run, and_then, ok, err, bad_access, pure, ◌>>=◌, ◌>>◌}
use iojxd.Ev.{Watchers}
use iojxd.Sock.State.{Handler, Target, World}
use iojxd.Sock.Conn
use iojxd.Sock.Conn.{freectx}
use iojxd.Wrapper.{RefCounts, Object, Action, on_impl, access, set_this_ref, retain, ref, drop}

module _ (rc : RefCounts) (io : Watchers Handler Target) (fuel : ℕ) (ctx : Ptr) where
  abbrev pub Act : Type 0
  Act = Action rc (World io.W) (Unit {0})

  -- `~ixlbx_socket_context`
  abbrev pub destructor : Cmd (World io.W) (Unit {0})
  destructor = freectx fuel ctx

  -- `ixlbx_socket_context::un_ref`, which stores into the object after the reference is deleted.
  unfoldable pub un_ref : Act
  un_ref = do
    access rc (World io.W)
    b ← λ o. ok o.this_ref o
    if b
        then (do
          drop rc (World io.W) destructor
          access rc (World io.W)
          set_this_ref rc (World io.W) false)
        else pure tt

  -- `ixlbx_socket_context::close`
  unfoldable pub close : Act
  close = do access rc (World io.W); on_impl rc (World io.W) (Conn.close io ctx); un_ref

  -- The read callback of `ixlbx_tcp_base`: `given` says whether Lua has set a function, and `lua`
  -- is what it does with the counted pointer that it is handed.
  unfoldable pub cb_read : Bool → Act → Act
  cb_read given lua =
      if given then (do retain rc (World io.W); lua; drop rc (World io.W) destructor) else pure tt

  -- The close callback of `ixlbx_tcp_base`: `given` says whether Lua has set a function, and `lua`
  -- is what it does with the counted pointer that it is handed.
  unfoldable pub cb_close : Bool → Act → Act
  cb_close given lua = do
    if given then (do retain rc (World io.W); lua; drop rc (World io.W) destructor) else pure tt
    un_ref

  -- The end of the stream in `ixfd_commonsock_read_cb`: the callback, and then the closing.
  unfoldable pub at_end : Bool → Act → Act
  at_end given lua = do cb_close given lua; on_impl rc (World io.W) (Conn.close io ctx)

  -- A connection whose `data` is NULL, and one whose `data` is its object in Lua.
  pub data Attached : Type 0 where
    bare : World io.W → Attached
    wrapped : Object rc.R (World io.W) → Attached

  abbrev wrap : Run (Object rc.R (World io.W)) (Unit {0}) → Run Attached (Unit {0})
  wrap (ok u o) = ok u (wrapped o)
  wrap (err e) = err e

  -- A new object, over its count, in its constructor.
  unfoldable pub construct : rc.R → World io.W → Run (Object rc.R (World io.W)) (Unit {0})
  construct r w =
      ref rc (World io.W) (record { counts = r; this_ref = false; alive = true; impl = w })

  -- The accept callback of `ixlbx_tcp_base`: without a Lua function no object is made.
  unfoldable pub cb_accept : Bool → rc.R → Act → World io.W → Run Attached (Unit {0})
  unfolding construct
  cb_accept false r lua w = ok tt (bare w)
  cb_accept true r lua w = wrap (
      and_then (construct r w) λ _. do retain rc (World io.W); lua; drop rc (World io.W) destructor)

  -- The end of the stream, when `data` may be NULL.
  unfoldable pub attached_end : Bool → Act → Attached → Run Attached (Unit {0})
  attached_end given lua (bare w) = err bad_access
  attached_end given lua (wrapped o) = wrap (at_end given lua o)
