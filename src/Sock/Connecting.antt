-- ===== src/Sock/Connecting.antt =====
-- The connecting side: `ixfd_commonsock_tcp_createnconnect` and `ixfd_commonsock_connect_cb`.
use iojxd.Prelude.{
  ◌<◌, ◌≡◌, refl, ℤ, pos, minus_one, true, false, none, some, ◌∷◌, arith, sym, subst, ap, ◌∙◌,
  if◌then◌else◌,
}
use iojxd.Memory.{Ptr, null, is_null, ok, pure}
use iojxd.Memory.Cells.{
  Holds, Holds-self, not_null, with_cell, with_cell_again, extended, load-ok, free-ok, store-ok,
  malloc-ok, Holds-blank,
}
use iojxd.Memory.Returns
use iojxd.Memory.Returns.{Returns, returns}
use iojxd.Ev.{Watchers}
use iojxd.Sock.State.{
  tcp, unknown, Handler, connect_cb, ev_write, Target, Sock, Conn, ConnectArgs, World, Event,
  Action, Call, on_context, on_failed,
}
use iojxd.Sock.Conn.{watch, zero_conn}
use iojxd.Sock.Write.{call_context}
use iojxd.Sock.Tcp.{
  Connecting, done, in_progress, refused, goes_on, is_unknown, createnconnect, call_failed,
  has_error, on_connected, on_connect,
}
use iojxd.Sock.Access.{get_conn-ok, set_conn-ok, get_sock-ok, set_sock-ok}
use iojxd.Sock.Accepting.{new_conn, create_ctx_lem}

module _ (io : Watchers Handler Target) (client : Call → Action io.W (Unit {0})) (w : World io.W)
    {sock : Ptr} {s : Sock io.W} (at : Holds w.socks sock s) (cb_conn cb_failed args : Ptr) where
  -- What `createnconnect` hands to the connect watcher.
  abbrev pub pending_args : ConnectArgs
  pending_args = record { sock = sock; cb_conn = cb_conn; cb_failed = cb_failed; args = args }

  -- The connection that `connect_cb` makes, and its socket.
  abbrev pub joined : Conn io.W
  joined =
      let c = new_conn io w at s.fd w.nodes.brk in
      record c { active = true; event_read = io.start c.event_read }

  abbrev pub joined_sock : Sock io.W
  joined_sock = record s { default_ctx = w.conns.brk; type = tcp }

  -- The world at the call of the success callback: the connection and its socket are as above, and
  -- nothing else is seen to have changed.
  pub record Joined (v : World io.W) : Type 0 where
    pub sock_joined : v.socks ≡ with_cell w.socks sock (some joined_sock)
    pub conn_joined :
        v.conns ≡ with_cell (extended w.conns (zero_conn io)) w.conns.brk (some joined)
    pub connects_kept : v.connects ≡ w.connects
    pub trace_kept : v.trace ≡ w.trace

  -- The call of the success callback with the connection and the arguments of the connect, at such
  -- a world: it returns, leaves sockets, connections and pending connects as they are, and adds
  -- `mark` to the trace.
  abbrev pub Marks : Event → Type 0
  Marks mark =
      (v : World io.W)
      → Joined v
      → Returns
          (λ _ u.
            (u.socks ≡ v.socks)
            × (u.conns ≡ v.conns)
            × (u.connects ≡ v.connects)
            × (u.trace ≡ mark ∷ v.trace))
          (client (on_context cb_conn w.conns.brk (some args)) v)

  on_connected-joined :
      (mark : Event)
      → Marks mark
      → null < cb_conn
      → null < w.conns.brk
      → null < w.conns.room
      → null < w.nodes.brk
      → 1 < w.nodes.room
      → Returns
          (λ _ v.
            (v.socks ≡ with_cell w.socks sock (some joined_sock))
            × (v.conns ≡ with_cell (extended w.conns (zero_conn io)) w.conns.brk (some joined))
            × (v.connects ≡ w.connects)
            × (v.trace ≡ mark ∷ w.trace))
          (on_connected io client sock pending_args true w)
  unfolding on_connected call_context
  on_connected-joined mark marks given start room node_start node_room = rw (get_sock-ok w at) (
      Returns.bind (create_ctx_lem io w at s.fd start room node_start node_room) λ ctx v made.
        let callable : is_null cb_conn ≡ false = ground arith in
        let owner = subst (λ h. Holds h sock s) (sym made.3) at in
        let made_conn =
          subst (λ h. Holds h w.conns.brk (new_conn io w at s.fd w.nodes.brk)) (sym made.1)
            (Holds-self (extended w.conns (zero_conn io)) start
              (new_conn io w at s.fd w.nodes.brk)) in
        let v1 = record v { socks = with_cell v.socks sock (some joined_sock) } in
        let v2 = record v1 { conns = with_cell v.conns w.conns.brk (some joined) } in
        let there : Joined v2 = record {
          sock_joined = ap (λ h. with_cell h sock (some joined_sock)) made.3;
          conn_joined =
              ap (λ h. with_cell h w.conns.brk (some joined)) made.1
              ∙ with_cell_again (extended w.conns (zero_conn io)) w.conns.brk
                  (some (new_conn io w at s.fd w.nodes.brk)) (some joined);
          connects_kept = made.6;
          trace_kept = made.5;
        } in
        rw
          (
            made.0,
            set_sock-ok v owner joined_sock,
            get_conn-ok v1 made_conn,
            set_conn-ok v1 made_conn joined,
            callable,
          )
          (Returns.mono (marks v2 there) λ _ u l. (
            l.0 ∙ there.sock_joined,
            l.1 ∙ there.conn_joined,
            l.2 ∙ there.connects_kept,
            l.3 ∙ ap (λ t. mark ∷ t) there.trace_kept,
          )))

  -- The socket once its connect watcher is stopped.
  abbrev pub settled : io.W → Sock io.W
  settled e = record joined_sock { event_connect = some (io.stop e) }

  -- What `connect_cb` leaves of a connect that is done.
  pub record Settled (data_ : Ptr) (e : io.W) (mark : Event) (v : World io.W) : Type 0 where
    pub sock_settled : v.socks ≡ with_cell w.socks sock (some (settled e))
    pub conn_made : v.conns ≡ with_cell (extended w.conns (zero_conn io)) w.conns.brk (some joined)
    pub args_freed : v.connects ≡ with_cell w.connects data_ none
    pub called_once : v.trace ≡ mark ∷ w.trace
    pub reads : io.is_active joined.event_read ≡ true
    pub rests : io.is_active (io.stop e) ≡ false

  without_error :
      {data_ : Ptr} (ret : ℤ) (e : io.W) (mark : Event)
      → has_error ret 0 ≡ false
      → Holds w.connects data_ pending_args
      → s.event_connect ≡ some e
      → Marks mark
      → null < cb_conn
      → null < w.conns.brk
      → null < w.conns.room
      → null < w.nodes.brk
      → 1 < w.nodes.room
      → Returns (λ _ v. Settled data_ e mark v) (on_connect io client sock data_ ret 0 true w)
  unfolding on_connect
  without_error {data_} ret e mark good pending watched marks given start room node_start
        node_room =
      let real = not_null pending in
      rw (real, load-ok pending, good)
        (Returns.bind (on_connected-joined mark marks given start room node_start node_room)
          λ _ v j.
            let held = subst (λ h. Holds h data_ pending_args) (sym j.2) pending in
            let v1 = record v { connects = with_cell v.connects data_ none } in
            let owner =
              subst (λ h. Holds h sock joined_sock) (sym j.0)
                (Holds-self w.socks at.above joined_sock) in
            rw (free-ok held, get_sock-ok v1 owner, watched, set_sock-ok v1 owner (settled e))
              (returns (record {
                sock_settled =
                    ap (λ h. with_cell h sock (some (settled e))) j.0
                    ∙ with_cell_again w.socks sock (some joined_sock) (some (settled e));
                conn_made = j.1;
                args_freed = ap (λ h. with_cell h data_ none) j.2;
                called_once = j.3;
                reads = io.active-start (new_conn io w at s.fd w.nodes.brk).event_read;
                rests = io.active-stop e;
              })))

  -- When `getsockopt` stores no error, whether it returns 0 or itself fails with -1, a connect ends
  -- in an active connection over the socket's descriptor, read from, which the socket holds as its
  -- default; the success callback is called once, when the connection is there, with it and with
  -- the arguments of the connect; these are then freed, and the connect watcher is stopped. The
  -- conditions are memory at hand and a success callback that is not NULL, returns, leaves the
  -- objects as they are and adds one event to the trace.
  pub on_connect_joins :
      {data_ : Ptr} (e : io.W) (mark : Event)
      → Holds w.connects data_ pending_args
      → s.event_connect ≡ some e
      → Marks mark
      → null < cb_conn
      → null < w.conns.brk
      → null < w.conns.room
      → null < w.nodes.brk
      → 1 < w.nodes.room
      → Returns (λ _ v. Settled data_ e mark v) (on_connect io client sock data_ (pos 0) 0 true w)
        × Returns
            (λ _ v. Settled data_ e mark v)
            (on_connect io client sock data_ minus_one 0 true w)
  on_connect_joins e mark pending watched marks given start room node_start node_room = (
    without_error (pos 0) e mark refl pending watched marks given start room node_start node_room,
    without_error minus_one e mark refl pending watched marks given start room node_start node_room,
  )

-- The arguments before they are filled in.
abbrev pub blank_args : ConnectArgs
blank_args = record { sock = null; cb_conn = null; cb_failed = null; args = null }

module _ (io : Watchers Handler Target) (client : Call → Action io.W (Unit {0})) (w : World io.W)
    {sock : Ptr} {s : Sock io.W} (at : Holds w.socks sock s) (cb_conn cb_failed args : Ptr)
    (fd : ℤ) where
  abbrev pub connect_watcher : io.W
  connect_watcher = watch io connect_cb (record { fd = fd; interest = ev_write })

  -- The world with the arguments of the connect, whose failure callback is `cb`, and with the
  -- connect watcher `e`.
  abbrev pub pending : Ptr → io.W → World io.W
  pending cb e = record w {
    socks =
        with_cell w.socks sock
          (some (record s { fd = fd; event_connect = some e; connect_args = w.connects.brk }));
    connects =
        with_cell (extended w.connects blank_args) w.connects.brk
          (some (pending_args io client w at cb_conn cb args));
  }

  -- `createnconnect` up to its last line.
  comes_to :
      (cb : Ptr) (r : Connecting)
      → s.type ≡ unknown
      → null < w.connects.brk
      → null < w.connects.room
      → createnconnect io client sock fd r cb_conn cb args w
        ≡ (if goes_on r then pure tt else call_failed io client cb sock args)
            (pending cb (if goes_on r then io.start connect_watcher else connect_watcher))
  unfolding createnconnect
  comes_to cb r fresh start room =
      let real = not_null at in
      let new_type : is_unknown s.type ≡ true = ap is_unknown fresh in
      let made = Holds-blank w.connects start blank_args in
      let stored =
        with_cell (extended w.connects blank_args) w.connects.brk
          (some (pending_args io client w at cb_conn cb args)) in
      let e = if goes_on r then io.start connect_watcher else connect_watcher in
      rw (
        real,
        get_sock-ok w at,
        new_type,
        malloc-ok blank_args w.connects room,
        store-ok made (pending_args io client w at cb_conn cb args),
        set_sock-ok (record w { connects = stored }) at
            (record s { fd = fd; event_connect = some e; connect_args = w.connects.brk }),
      )

  -- On a new socket, with memory at hand, `createnconnect` stores the arguments of the connect and
  -- aims the connect watcher at the descriptor. When `connect` is done at once, and when it fails
  -- with EINPROGRESS, the watcher is started, for writing, and the failure callback is not called.
  -- When it fails otherwise, the watcher is not started, the failure callback is called with the
  -- socket and its argument, unless it is NULL, and the stored arguments stay allocated.
  pub createnconnect_lem :
      s.type ≡ unknown
      → null < cb_failed
      → null < w.connects.brk
      → null < w.connects.room
      → (createnconnect io client sock fd done cb_conn cb_failed args w
          ≡ ok tt (pending cb_failed (io.start connect_watcher)))
        × (createnconnect io client sock fd in_progress cb_conn cb_failed args w
            ≡ ok tt (pending cb_failed (io.start connect_watcher)))
        × (createnconnect io client sock fd refused cb_conn cb_failed args w
            ≡ client (on_failed cb_failed sock args) (pending cb_failed connect_watcher))
        × (createnconnect io client sock fd refused cb_conn null args w
            ≡ ok tt (pending null connect_watcher))
        × (io.is_active (io.start connect_watcher) ≡ true)
        × (io.cfg (io.start connect_watcher) ≡ some (record { fd = fd; interest = ev_write }))
        × (io.is_active connect_watcher ≡ false)
  unfolding call_failed
  createnconnect_lem fresh given start room =
      let callable : is_null cb_failed ≡ false = ground arith in
      let aim : Target = record { fd = fd; interest = ev_write } in
      (
        comes_to cb_failed done fresh start room,
        comes_to cb_failed in_progress fresh start room,
        rw (comes_to cb_failed refused fresh start room, callable),
        comes_to null refused fresh start room,
        io.active-start connect_watcher,
        io.cfg-start connect_watcher ∙ io.cfg-set aim (io.init connect_cb io.blank),
        io.active-set aim (io.init connect_cb io.blank) ∙ io.active-init connect_cb io.blank,
      )
