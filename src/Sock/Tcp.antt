-- ===== src/Sock/Tcp.antt =====
-- Sockets of src/sock.cxx: creation, binding, connecting, listening, accepting, and their end.
use iojxd.Prelude.{
  ℕ, ℤ, pos, negsuc, Bool, true, false, not, ◌||◌, Option, none, some, if◌then◌else◌, ◌==◌,
}
use iojxd.Memory.{
  Ptr, null, pure, ◌>>=◌, ◌>>◌, assert, is_null, malloc, load, store, free as free_cell,
}
use iojxd.Ev.{Watchers}
use iojxd.Sock.State.{
  SockType, unknown, tcp, unix, udp, Handler, accept_cb, connect_cb, ev_read, ev_write, Target,
  Sock, ConnectArgs, closed, listened, Action, Call, on_failed, socks, connects, log, get_sock,
  set_sock, get_conn, set_conn, watcher,
}
use iojxd.Sock.Conn.{watch, create_ctx, close, freectx}
use iojxd.Sock.Write.{call_context}

abbrev pub is_unknown : SockType → Bool
is_unknown unknown = true
is_unknown tcp = false
is_unknown unix = false
is_unknown udp = false

abbrev pub is_tcp : SockType → Bool
is_tcp unknown = false
is_tcp tcp = true
is_tcp unix = false
is_tcp udp = false

abbrev pub is_zero : ℤ → Bool
is_zero (pos n) = n == 0
is_zero (negsuc n) = false

abbrev pub is_some : {A : Type 0} → Option A → Bool
is_some none = false
is_some (some a) = true

-- What `connect` came to: it is done, it goes on (EINPROGRESS), or it failed.
pub data Connecting : Type 0 where
  done in_progress refused : Connecting

abbrev pub goes_on : Connecting → Bool
goes_on done = true
goes_on in_progress = true
goes_on refused = false

-- The descriptor of `socket`, and whether `bind` succeeds.
pub record Binding : Type 0 where
  pub fd : ℤ
  pub bound : Bool

abbrev pub zero_sock : {W : Type 0} → Sock W
zero_sock = record {
  fd = pos 0;
  event_accept = none;
  event_connect = none;
  connect_args = null;
  cb_read = null;
  cb_accept = null;
  cb_close = null;
  type = unknown;
  active = false;
  connected = false;
  listening = false;
  passive_read = false;
  default_ctx = null;
  user_data = null;
}

-- `ixfd_commonsock_create`: every field is zero after it.
unfoldable pub create : {W : Type 0} → Action W Ptr
create = do sock ← socks (malloc zero_sock); s ← get_sock sock; set_sock sock zero_sock; pure sock

module _ (io : Watchers Handler Target) where
  -- `ixfd_commonsock_tcp_createnbind`
  unfoldable pub createnbind : Ptr → Binding → Action io.W (Unit {0})
  createnbind sock r = do
    assert (not (is_null sock))
    s ← get_sock sock
    assert (is_unknown s.type)
    let opened = record s {
      fd = r.fd;
      event_accept = some (watch io accept_cb (record { fd = r.fd; interest = ev_read }));
    }
    set_sock sock (if r.bound then record opened { type = tcp } else opened)

  -- `ixfd_commonsock_tcp_listen`
  unfoldable pub listen : Ptr → Action io.W (Unit {0})
  listen sock = do
    assert (not (is_null sock))
    s ← get_sock sock
    assert (is_tcp s.type)
    assert (not (is_zero s.fd))
    log (listened s.fd 16)
    w ← watcher s.event_accept
    set_sock sock (record s { event_accept = some (io.start w) })

  unfoldable pub stop_option : Option io.W → Option io.W
  stop_option none = none
  stop_option (some w) = some (io.stop w)

  -- `ixfd_commonsock_unbind`
  unfoldable pub unbind : Ptr → Action io.W (Unit {0})
  unfolding stop_option
  unbind sock = do
    assert (not (is_null sock))
    s ← get_sock sock
    set_sock sock (record s { event_accept = stop_option s.event_accept })
    log (closed s.fd)

  -- `ixfd_commonsock_disconnect`
  unfoldable pub disconnect : Ptr → Action io.W (Unit {0})
  disconnect sock = do
    assert (not (is_null sock))
    s ← get_sock sock
    c ← get_conn s.default_ctx
    (if c.active then close io s.default_ctx else pure tt)
    s ← get_sock sock
    log (closed s.fd)

-- The test on the result of `getsockopt` and on the error that it stores.
abbrev pub has_error : ℤ → ℕ → Bool
has_error ret optval = is_one ret || not (optval == 0)
  where
    is_one : ℤ → Bool
    is_one (pos n) = n == 1
    is_one (negsuc n) = false

-- `ixfd_commonsock_free`
unfoldable pub free : {W : Type 0} → ℕ → Ptr → Action W (Unit {0})
free fuel sock = do
  assert (not (is_null sock))
  s ← get_sock sock
  assert (is_some s.event_accept || is_some s.event_connect)
  (if is_null s.default_ctx then pure tt else freectx fuel s.default_ctx)
  socks (free_cell sock)

module _ (io : Watchers Handler Target) (client : Call → Action io.W (Unit {0})) where
  -- `if (cb != NULL) cb(sock, args)`
  unfoldable pub call_failed : Ptr → Ptr → Ptr → Action io.W (Unit {0})
  call_failed cb sock args = if is_null cb then pure tt else client (on_failed cb sock args)

  -- `ixfd_commonsock_tcp_createnconnect`, with the descriptor of `socket` and what `connect` came
  -- to.
  unfoldable pub createnconnect :
      Ptr → ℤ → Connecting → (cb_success cb_failed args : Ptr) → Action io.W (Unit {0})
  createnconnect sock fd r cb_success cb_failed args = do
    assert (not (is_null sock))
    s ← get_sock sock
    assert (is_unknown s.type)
    ev_args ←
        connects (malloc (record { sock = null; cb_conn = null; cb_failed = null; args = null }))
    connects (
        store ev_args
          (record { sock = sock; cb_conn = cb_success; cb_failed = cb_failed; args = args }))
    let w = watch io connect_cb (record { fd = fd; interest = ev_write })
    set_sock sock (record s {
      fd = fd;
      event_connect = some (if goes_on r then io.start w else w);
      connect_args = ev_args;
    })
    if goes_on r then pure tt else call_failed cb_failed sock args

  -- `ixfd_commonsock_accept_cb` of a listening socket, with the descriptor of `accept`.
  unfoldable pub on_acceptable : Ptr → ℤ → Bool → Action io.W (Unit {0})
  on_acceptable sock fd room = do
    assert (not (is_null sock))
    ctx ← create_ctx io sock fd room
    s ← get_sock sock
    call_context io client s.cb_accept ctx (some s.user_data)
    c ← get_conn ctx
    set_conn ctx (record c { event_read = io.start c.event_read; active = true })

  -- The two branches on what `getsockopt` says of the connection.
  unfoldable pub on_connected : Ptr → ConnectArgs → Bool → Action io.W (Unit {0})
  on_connected sock a room = do
    s ← get_sock sock
    ctx ← create_ctx io sock s.fd room
    set_sock sock (record s { default_ctx = ctx; type = tcp })
    c ← get_conn ctx
    set_conn ctx (record c { active = true; event_read = io.start c.event_read })
    call_context io client a.cb_conn ctx (some a.args)

  -- `ixfd_commonsock_connect_cb` on EV_WRITE, with the result of `getsockopt` and the error that it
  -- stores.
  unfoldable pub on_connect : Ptr → Ptr → ℤ → ℕ → Bool → Action io.W (Unit {0})
  on_connect watched data_ ret optval room = do
    assert (not (is_null data_))
    a ← connects (load data_)
    (if has_error ret optval
        then call_failed a.cb_failed a.sock a.args
        else on_connected a.sock a room)
    connects (free_cell data_)
    s ← get_sock watched
    w ← watcher s.event_connect
    set_sock watched (record s { event_connect = some (io.stop w) })
