-- ===== src/Binding.antt =====
-- The bindings of src/luafound.cxx that keep Lua callbacks, and `write` of src/luafoundx.cxx's
-- connections: the `LuaRef`s that they allocate, hand to the components as arguments, and call.
-- Lua is a parameter: its values, which of them is nil, and what a call does.
pub mod Connecting
pub mod Reading
pub mod Keeping
pub mod Writing
mod Examples
use iojxd.Prelude.{Bool, Option, none, some, if◌then◌else◌}
use iojxd.Memory.{
  Ptr, null, Heap, Cmd, bad_access, pure, fail, ◌>>=◌, ◌>>◌, is_null, malloc, load, store, free,
}

-- What stands in a block: a `LuaRef`, a `struct ixlb_connect_data` or a `struct ixlb_sock_data`. A
-- member is `none` while it is indeterminate.
pub data Block (V : Type 0) : Type 0 where
  ref : V → Block V
  connect_data : Option Ptr → Option Ptr → Block V
  sock_data : Option Ptr → Option Ptr → Block V

-- The functions of src/luafound.cxx that keep a callback for good, `ixlb_spawn_process`,
-- `ixlb_sock_write`, `ixlb_timer_start`, `ixlb_fork` and `ixlb_childw_start`.
pub data Keeper : Type 0 where
  spawn_process sock_write timer_start fork childw_start : Keeper

module _ (V : Type 0) where
  abbrev pub Action : Type 0 → Type 0
  Action A = Cmd (Heap (Block V)) A

  -- `new LuaRef (cb)`; without memory it throws, which is a fault here.
  unfoldable pub new_ref : V → Action Ptr
  new_ref cb = do p ← malloc (ref cb); store p (ref cb); pure p

  -- The `LuaRef` in a block, and the members of the two structures.
  abbrev pub as_ref : Block V → Action V
  as_ref (ref v) = pure v
  as_ref (connect_data p q) = fail bad_access
  as_ref (sock_data p q) = fail bad_access

  abbrev pub as_pointer : Option Ptr → Action Ptr
  as_pointer none = fail bad_access
  as_pointer (some p) = pure p

  abbrev pub as_connect : Block V → Action (Option Ptr × Option Ptr)
  as_connect (ref v) = fail bad_access
  as_connect (connect_data p q) = pure (p, q)
  as_connect (sock_data p q) = fail bad_access

  abbrev pub as_sock : Block V → Action (Option Ptr × Option Ptr)
  as_sock (ref v) = fail bad_access
  as_sock (connect_data p q) = fail bad_access
  as_sock (sock_data p q) = pure (p, q)

  unfoldable pub get_ref : Ptr → Action V
  get_ref p = do b ← load p; as_ref b

  unfoldable pub cb_suc : Ptr → Action Ptr
  cb_suc d = do b ← load d; m ← as_connect b; as_pointer m.0

  unfoldable pub cb_fail : Ptr → Action Ptr
  cb_fail d = do b ← load d; m ← as_connect b; as_pointer m.1

  unfoldable pub cb_read : Ptr → Action Ptr
  cb_read d = do b ← load d; m ← as_sock b; as_pointer m.0

  -- `data->cb_read = p`
  unfoldable pub set_cb_read : Ptr → Ptr → Action (Unit {0})
  set_cb_read d p = do b ← load d; m ← as_sock b; store d (sock_data (some p) m.1)

  -- `ixlb_sock_connect`, up to the call of `ixfd_commonsock_tcp_createnconnect`, which is given the
  -- result.
  unfoldable pub sock_connect : V → V → Action Ptr
  sock_connect cb_success cb_failed = do
    data_at ← malloc (connect_data none none)
    s ← new_ref cb_success
    store data_at (connect_data (some s) none)
    f ← new_ref cb_failed
    store data_at (connect_data (some s) (some f))
    pure data_at

  -- The three `delete`s and `free`s at the end of both callbacks.
  unfoldable pub free_connect_data : Ptr → Action (Unit {0})
  free_connect_data d = do s ← cb_suc d; free s; f ← cb_fail d; free f; free d

  -- What each of the keepers does before it calls its component, which is given the result.
  unfoldable pub keep_callback : V → Action Ptr
  keep_callback cb = new_ref cb

  -- `ixlb_sock_create`, but for the socket, which keeps the result.
  unfoldable pub sock_create : Action Ptr
  sock_create = do
    data_at ← malloc (sock_data none none)
    store data_at (sock_data (some null) none)
    pure data_at

  -- `ixlb_sock_set_read_callback`
  unfoldable pub sock_set_read_callback : Ptr → V → Action (Unit {0})
  sock_set_read_callback d cb = do
    p ← new_ref cb
    old ← cb_read d
    if is_null old then pure tt else free old
    set_cb_read d p

  -- What a value is, and what its call does to the blocks.
  module _ (is_nil : V → Bool) (invoke : V → Action (Unit {0})) where
    -- The test and the call in the callbacks.
    unfoldable pub call_ref : Ptr → Action (Unit {0})
    call_ref p = do v ← get_ref p; if is_nil v then pure tt else invoke v

    unfoldable pub connect_succeeded : Ptr → Action (Unit {0})
    connect_succeeded d = do s ← cb_suc d; call_ref s; free_connect_data d

    unfoldable pub connect_failed : Ptr → Action (Unit {0})
    connect_failed d = do f ← cb_fail d; call_ref f; free_connect_data d

    -- The callback for what has been read.
    unfoldable pub on_read : Ptr → Action (Unit {0})
    on_read d = do p ← cb_read d; if is_null p then pure tt else call_ref p

    -- The callbacks that the keepers give to their components: only that of `ixlb_fork` calls nil
    -- too.
    unfoldable pub kept_callback : Keeper → Ptr → Action (Unit {0})
    kept_callback spawn_process args = call_ref args
    kept_callback sock_write args = call_ref args
    kept_callback timer_start args = call_ref args
    kept_callback fork args = do v ← get_ref args; invoke v
    kept_callback childw_start args = call_ref args

    -- The callback of `ixlbx_socket_context::write`.
    unfoldable pub written_callback : Ptr → Action (Unit {0})
    written_callback p = do if is_null p then pure tt else call_ref p; free p

    -- `ixlbx_socket_context::write`, when `ixfd_commonsock_write` takes all the data and calls
    -- back, and when it keeps some for later.
    unfoldable pub context_write : Bool → V → Action (Unit {0})
    context_write whole cb = do p ← new_ref cb; if whole then written_callback p else pure tt
