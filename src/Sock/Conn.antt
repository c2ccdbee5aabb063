-- ===== src/Sock/Conn.antt =====
-- Connection contexts of src/sock.cxx: creation, the read buffer, closing and freeing.
use iojxd.Prelude.{ℕ, ◌+◌, ℤ, Bool, false, not, none, some, ltb, if◌then◌else◌}
use iojxd.Memory.{Ptr, null, pure, ◌>>=◌, ◌>>◌, assert, is_null, malloc, free as free_cell}
use iojxd.CycQueue
use iojxd.Ev.{Watchers}
use iojxd.Sock.State.{
  Handler, read_cb, write_cb, ev_read, ev_write, Target, Conn, closed, Action, conns, nodes, log,
  get_sock, get_conn, set_conn,
}

-- `ixfd_commonsock_set_bufread_len`; `room` says whether `malloc` finds the memory.
unfoldable pub set_bufread_len : {W : Type 0} → Ptr → ℕ → Bool → Action W (Unit {0})
set_bufread_len conn len room = do
  assert (not (is_null conn))
  assert (ltb 0 len)
  if room
      then (do
        c ← get_conn conn
        set_conn conn (record c { buf_read = some (len + 1); size_bufread = len }))
      else pure tt

module _ (io : Watchers Handler Target) where
  abbrev pub watch : Handler → Target → io.W
  watch h t = io.set t (io.init h io.blank)

  -- What `memset` leaves in a new context.
  abbrev pub zero_conn : Conn io.W
  zero_conn = record {
    sock = null;
    fd = ℤ.pos 0;
    event_read = io.blank;
    event_write = io.blank;
    buf_write = null;
    size_bufread = 0;
    buf_read = none;
    cb_read = null;
    active = false;
    write_launched = false;
    user_data = null;
  }

  -- `ixfd_commonsock_create_ctx`
  unfoldable pub create_ctx : Ptr → ℤ → Bool → Action io.W Ptr
  create_ctx sock fd room = do
    ctx ← conns (malloc zero_conn)
    s ← get_sock sock
    c ← get_conn ctx
    set_conn ctx (record c {
      fd = fd;
      sock = sock;
      write_launched = false;
      cb_read = s.cb_read;
      event_read = watch read_cb (record { fd = fd; interest = ev_read });
      event_write = watch write_cb (record { fd = fd; interest = ev_write });
      buf_read = none;
    })
    set_bufread_len ctx 4096 room
    queue ← nodes CycQueue.create
    c ← get_conn ctx
    set_conn ctx (record c { buf_write = queue; active = false })
    pure ctx

  -- `ixfd_commonsock_close`
  unfoldable pub close : Ptr → Action io.W (Unit {0})
  close ctx = do
    assert (not (is_null ctx))
    c ← get_conn ctx
    s ← get_sock c.sock
    set_conn ctx (record c { active = false; event_read = io.stop c.event_read })
    log (closed c.fd)

-- `ixfd_commonsock_freectx`; the fuel is for the loop of `ixut_cycqueue_free`.
unfoldable pub freectx : {W : Type 0} → ℕ → Ptr → Action W (Unit {0})
freectx fuel ctx = do
  assert (not (is_null ctx))
  c ← get_conn ctx
  nodes (CycQueue.free_queue fuel c.buf_write)
  conns (free_cell ctx)
