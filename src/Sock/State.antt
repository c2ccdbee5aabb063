-- ===== src/Sock/State.antt =====
-- The objects of src/sock.hxx and src/sock.cxx, and access to them. A watcher that a socket or a
-- connection owns (event_accept, event_read, ...) lives and dies with its owner and is a field of
-- it.
use iojxd.Prelude.{ℕ, ℤ, Bool, Option, none, some, List, ◌∷◌}
use iojxd.Memory.{
  Ptr, Run, ok, err, bad_access, Heap, Cmd, fail, load as load_cell, store as store_cell,
}
use iojxd.CycQueue.{Node}

-- IXFD_SOCK_UNKNOWN and the others.
pub data SockType : Type 0 where
  unknown tcp unix udp : SockType

-- The functions that the source gives to libev's I/O watchers, and EV_READ or EV_WRITE.
pub data Handler : Type 0 where
  accept_cb connect_cb read_cb write_cb : Handler

pub data Interest : Type 0 where
  ev_read ev_write : Interest

pub record Target : Type 0 where
  pub fd : ℤ
  pub interest : Interest

-- `struct ixfd_sock`; `connect_args` is the data pointer of `event_connect`.
pub record Sock (W : Type 0) : Type 0 where
  pub fd : ℤ
  pub event_accept : Option W
  pub event_connect : Option W
  pub connect_args : Ptr
  pub cb_read : Ptr
  pub cb_accept : Ptr
  pub cb_close : Ptr
  pub type : SockType
  pub active : Bool
  pub connected : Bool
  pub listening : Bool
  pub passive_read : Bool
  pub default_ctx : Ptr
  pub user_data : Ptr

-- `struct ixfd_conn_ctx`; of the read buffer the size of its block, `none` for NULL.
pub record Conn (W : Type 0) : Type 0 where
  pub sock : Ptr
  pub fd : ℤ
  pub event_read : W
  pub event_write : W
  pub buf_write : Ptr
  pub size_bufread : ℕ
  pub buf_read : Option ℕ
  pub cb_read : Ptr
  pub active : Bool
  pub write_launched : Bool
  pub user_data : Ptr

-- `struct ixfd_sock_write_ctx`: the bytes from `data` on, and the block at `data_org`, `none` once
-- it is freed. `cb_args` is `none` while it is indeterminate.
pub record WriteJob : Type 0 where
  pub bytes : List ℕ
  pub len_remain : ℕ
  pub cb : Ptr
  pub data_org : Option (List ℕ)
  pub cb_args : Option Ptr

-- `struct ixfd_connect_args`
pub record ConnectArgs : Type 0 where
  pub sock : Ptr
  pub cb_conn : Ptr
  pub cb_failed : Ptr
  pub args : Ptr

-- What the kernel was told: the bytes that it took, descriptors closed and set to listen.
pub data Event : Type 0 where
  wrote : ℤ → List ℕ → Event
  closed : ℤ → Event
  listened : ℤ → ℕ → Event

pub record World (W : Type 0) : Type 0 where
  pub socks : Heap (Sock W)
  pub conns : Heap (Conn W)
  pub nodes : Heap Node
  pub jobs : Heap WriteJob
  pub connects : Heap ConnectArgs
  -- The latest event comes first.
  pub trace : List Event

-- A call of a callback of the client's. Where the source passes NULL the argument is `some null`;
-- `none` is an indeterminate value.
pub data Call : Type 0 where
  on_read : (cb ctx : Ptr) → Option (List ℕ) → ℕ → Call
  on_context : (cb ctx : Ptr) → Option Ptr → Call
  on_failed : (cb sock args : Ptr) → Call

abbrev pub Action : Type 0 → Type 0 → Type 0
Action W A = Cmd (World W) A

module _ {W A : Type 0} where
  -- A command on one of the heaps.
  abbrev pub in_socks : World W → Run (Heap (Sock W)) A → Run (World W) A
  in_socks w (ok a h) = ok a (record w { socks = h })
  in_socks w (err e) = err e

  abbrev pub in_conns : World W → Run (Heap (Conn W)) A → Run (World W) A
  in_conns w (ok a h) = ok a (record w { conns = h })
  in_conns w (err e) = err e

  abbrev pub in_nodes : World W → Run (Heap Node) A → Run (World W) A
  in_nodes w (ok a h) = ok a (record w { nodes = h })
  in_nodes w (err e) = err e

  abbrev pub in_jobs : World W → Run (Heap WriteJob) A → Run (World W) A
  in_jobs w (ok a h) = ok a (record w { jobs = h })
  in_jobs w (err e) = err e

  abbrev pub in_connects : World W → Run (Heap ConnectArgs) A → Run (World W) A
  in_connects w (ok a h) = ok a (record w { connects = h })
  in_connects w (err e) = err e

  abbrev pub socks : Cmd (Heap (Sock W)) A → Cmd (World W) A
  socks m w = in_socks w (m w.socks)

  abbrev pub conns : Cmd (Heap (Conn W)) A → Cmd (World W) A
  conns m w = in_conns w (m w.conns)

  abbrev pub nodes : Cmd (Heap Node) A → Cmd (World W) A
  nodes m w = in_nodes w (m w.nodes)

  abbrev pub jobs : Cmd (Heap WriteJob) A → Cmd (World W) A
  jobs m w = in_jobs w (m w.jobs)

  abbrev pub connects : Cmd (Heap ConnectArgs) A → Cmd (World W) A
  connects m w = in_connects w (m w.connects)

module _ {W : Type 0} where
  abbrev pub log : Event → Cmd (World W) (Unit {0})
  log e w = ok tt (record w { trace = e ∷ w.trace })

  unfoldable pub get_sock : Ptr → Cmd (World W) (Sock W)
  get_sock p = socks (load_cell p)

  unfoldable pub set_sock : Ptr → Sock W → Cmd (World W) (Unit {0})
  set_sock p s = socks (store_cell p s)

  unfoldable pub get_conn : Ptr → Cmd (World W) (Conn W)
  get_conn p = conns (load_cell p)

  unfoldable pub set_conn : Ptr → Conn W → Cmd (World W) (Unit {0})
  set_conn p c = conns (store_cell p c)

  unfoldable pub get_job : Ptr → Cmd (World W) WriteJob
  get_job p = jobs (load_cell p)

  unfoldable pub set_job : Ptr → WriteJob → Cmd (World W) (Unit {0})
  set_job p j = jobs (store_cell p j)

  -- `w->…` of a watcher pointer that may be NULL.
  abbrev pub watcher : Option W → Cmd (World W) W
  watcher none = fail bad_access
  watcher (some v) = λ w. ok v w
