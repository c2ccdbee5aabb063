-- ===== src/Sock/Accepting.antt =====
-- New connections: what `ixfd_commonsock_create_ctx` makes, and a connection that is accepted.
pub mod Newcomer
pub mod Many
pub mod Session
mod Examples
use iojxd.Prelude.{ℕ, ◌+◌, ◌-◌, ◌<◌, ◌≡◌, refl, ℤ, true, some, [], arith, ltb, sym, subst, ap, ◌∙◌}
use iojxd.Memory.{Ptr, null, ok, ◌>>=◌}
use iojxd.Memory.Cells.{
  SameOutside, Holds, Holds-self, Holds-blank, not_null, with_cell, with_cell_again, extended,
  malloc-ok,
}
use iojxd.Memory.Returns
use iojxd.Memory.Returns.{Returns, returns}
use iojxd.Ev.{Watchers}
use iojxd.CycQueue.Ring.{IsRing, footprint}
use iojxd.CycQueue.Create.{create-empty}
use iojxd.Sock.State.{
  Handler, read_cb, write_cb, ev_read, ev_write, Target, Sock, Conn, World, get_conn, set_conn,
  Action, Call,
}
use iojxd.Sock.Conn.{watch, zero_conn, set_bufread_len, create_ctx}
use iojxd.Sock.Tcp.{on_acceptable}
use iojxd.Sock.Write.{call_context}
use iojxd.Sock.Access.{get_conn-ok, set_conn-ok, get_sock-ok, nodes-bind}

-- A read buffer of `len` bytes and room for a zero.
abbrev pub buffered : {W : Type 0} → ℕ → Conn W → Conn W
buffered len c = record c { buf_read = some (len + 1); size_bufread = len }

set_bufread_len-ok :
    {W : Type 0} {w : World W} {p : Ptr} {c : Conn W} (len : ℕ)
    → Holds w.conns p c
    → 0 < len
    → set_bufread_len p len true w
      ≡ ok tt (record w { conns = with_cell w.conns p (some (buffered len c)) })
unfolding set_bufread_len
set_bufread_len-ok {w = w} {c = c} len at more =
    let real = not_null at in
    let positive : ltb 0 len ≡ true = ground arith in
    rw (real, positive, get_conn-ok w at, set_conn-ok w at (buffered len c))

module _ (io : Watchers Handler Target) (w : World io.W) {sock : Ptr} {s : Sock io.W}
    (at : Holds w.socks sock s) (fd : ℤ) where
  -- The context before its buffer is allocated.
  abbrev opened : Conn io.W
  opened = record (zero_conn io) {
    fd = fd;
    sock = sock;
    cb_read = s.cb_read;
    event_read = watch io read_cb (record { fd = fd; interest = ev_read });
    event_write = watch io write_cb (record { fd = fd; interest = ev_write });
  }

  -- A new connection over the descriptor `fd`: the socket's read callback, a buffer of 4096 bytes
  -- and one more, the write queue at `queue`, and two watchers that are not started.
  abbrev pub new_conn : Ptr → Conn io.W
  new_conn queue = record (buffered 4096 opened) { buf_write = queue }

  abbrev blank : World io.W
  blank = record w { conns = extended w.conns (zero_conn io) }

  abbrev filled : Conn io.W → World io.W
  filled c = record w { conns = with_cell (extended w.conns (zero_conn io)) w.conns.brk (some c) }

  -- With memory at hand `create_ctx` makes a connection with an empty write queue, and changes
  -- neither a socket, a job, nor anything outside the process.
  pub create_ctx_lem :
      null < w.conns.brk
      → null < w.conns.room
      → null < w.nodes.brk
      → 1 < w.nodes.room
      → Returns
          (λ ctx v.
            (ctx ≡ w.conns.brk)
            × (v.conns
                ≡ with_cell
                    (extended w.conns (zero_conn io))
                    w.conns.brk
                    (some (new_conn w.nodes.brk)))
            × IsRing v.nodes w.nodes.brk (w.nodes.brk + 1) []
            × (v.socks ≡ w.socks)
            × (v.jobs ≡ w.jobs)
            × (v.trace ≡ w.trace)
            × (v.connects ≡ w.connects)
            × SameOutside (footprint w.nodes.brk (w.nodes.brk + 1) []) w.nodes v.nodes
            × (v.nodes.brk ≡ w.nodes.brk + 2)
            × (v.nodes.room ≡ w.nodes.room - 2))
          (create_ctx io sock fd true w)
  unfolding create_ctx
  create_ctx_lem start room node_start node_room =
      let fresh = Holds-blank w.conns start (zero_conn io) in
      let made = Holds-self (extended w.conns (zero_conn io)) start opened in
      rw
        (
          malloc-ok (zero_conn io) w.conns room,
          get_sock-ok blank at,
          get_conn-ok blank fresh,
          set_conn-ok blank fresh opened,
          set_bufread_len-ok {w = filled opened} 4096 made (omega arith),
          with_cell_again (extended w.conns (zero_conn io)) w.conns.brk (some opened)
              (some (buffered 4096 opened)),
        )
        (nodes-bind (filled (buffered 4096 opened)) _ (create-empty w.nodes node_start node_room)
          λ queue h q.
            let v = record (filled (buffered 4096 opened)) { nodes = h } in
            let done = record (buffered 4096 opened) { buf_write = queue } in
            let held = Holds-self (extended w.conns (zero_conn io)) start (buffered 4096 opened) in
            rw
              (
                get_conn-ok v held,
                set_conn-ok v held done,
                with_cell_again (extended w.conns (zero_conn io)) w.conns.brk
                    (some (buffered 4096 opened)) (some done),
              )
              (returns (
                refl,
                ap
                    (λ e.
                      with_cell (extended w.conns (zero_conn io)) w.conns.brk (some (new_conn e)))
                    q.0,
                subst (λ e. IsRing h e (w.nodes.brk + 1) []) q.0 q.1,
                refl,
                refl,
                refl,
                refl,
                subst (λ e. SameOutside (footprint e (w.nodes.brk + 1) []) w.nodes h) q.0 q.3,
                q.4,
                q.5,
              )))

  -- A connection whose read watcher is started, for `read_cb` on the descriptor.
  pub record Accepted (v : World io.W) : Type 0 where
    pub conn : Conn io.W
    pub held : Holds v.conns w.conns.brk conn
    pub active : conn.active ≡ true
    pub started : io.is_active conn.event_read ≡ true
    pub callback : io.cb conn.event_read ≡ some read_cb
    pub target : io.cfg conn.event_read ≡ some (record { fd = fd; interest = ev_read })
    pub owner : conn.sock ≡ sock

  -- The client's accept callback returns and leaves the new connection its owner and read watcher.
  abbrev pub Keeps : (Call → Action io.W (Unit {0})) → Type 0
  Keeps client =
      (v : World io.W) (c : Conn io.W)
      → Holds v.conns w.conns.brk c
      → Returns
          (λ _ u.
            (c' : Conn io.W) × Holds u.conns w.conns.brk c'
            × (c'.event_read ≡ c.event_read)
            × (c'.sock ≡ c.sock))
          (call_context io client s.cb_accept w.conns.brk (some s.user_data) v)

  start-Accepted :
      (v : World io.W) (c' : Conn io.W)
      → Holds v.conns w.conns.brk c'
      → c'.event_read ≡ opened.event_read
      → c'.sock ≡ sock
      → Returns
          (λ _ u. Accepted u)
          ((do
            c ← get_conn w.conns.brk
            set_conn w.conns.brk (record c { event_read = io.start c.event_read; active = true }))
            v)
  start-Accepted v c' held same owner =
      let read_target : Target = record { fd = fd; interest = ev_read } in
      let blank_watcher = io.init read_cb io.blank in
      let done = record c' { event_read = io.start c'.event_read; active = true } in
      rw (get_conn-ok v held, set_conn-ok v held done)
        (returns (record {
          conn = done;
          held = Holds-self v.conns held.above done;
          active = refl;
          started = io.active-start c'.event_read;
          callback =
              io.cb-start c'.event_read
              ∙ ap io.cb same
              ∙ (io.cb-set read_target blank_watcher ∙ io.cb-init read_cb io.blank);
          target =
              io.cfg-start c'.event_read ∙ ap io.cfg same ∙ io.cfg-set read_target blank_watcher;
          owner = owner;
        }))

  -- A connection that is accepted is active and read from, whatever descriptor `accept` returned,
  -- -1 included, if there is memory and the accept callback leaves the connection in place.
  pub on_acceptable-Accepted :
      (client : Call → Action io.W (Unit {0}))
      → Keeps client
      → null < w.conns.brk
      → null < w.conns.room
      → null < w.nodes.brk
      → 1 < w.nodes.room
      → Returns (λ _ v. Accepted v) (on_acceptable io client sock fd true w)
  unfolding on_acceptable
  on_acceptable-Accepted client keeps start room node_start node_room =
      let real = not_null at in
      rw real (
        Returns.bind (create_ctx_lem start room node_start node_room) λ ctx v made.
          let made_conn =
            subst (λ h. Holds h w.conns.brk (new_conn w.nodes.brk)) (sym made.1)
              (Holds-self (extended w.conns (zero_conn io)) start (new_conn w.nodes.brk)) in
          let owner = subst (λ h. Holds h sock s) (sym made.3) at in
          rw (made.0, get_sock-ok v owner)
            (Returns.bind (keeps v (new_conn w.nodes.brk) made_conn)
              λ _ u kept. start-Accepted u kept.0 kept.1 kept.2 kept.3))
