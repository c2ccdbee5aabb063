-- ===== src/Sock/Accepting/Newcomer.antt =====
-- One connection that a listening socket accepts.
use iojxd.Prelude.{
  ◌+◌, ◌-◌, ◌<◌, ◌≤◌, ◌≡◌, refl, ℤ, true, false, some, [], arith, ◌==◌, sym, subst, ap, ◌∙◌,
}
use iojxd.Memory.{Ptr, Heap, null, ◌>>=◌, write}
use iojxd.Memory.Cells.{
  SameOutside, Holds, Holds-self, not_null, with_cell, with_cell_again, extended,
}
use iojxd.Memory.Returns
use iojxd.Memory.Returns.{Returns, returns}
use iojxd.Ev.{Watchers}
use iojxd.CycQueue.Ring.{IsRing, footprint}
use iojxd.Sock.State.{
  Handler, read_cb, ev_read, Target, Sock, Conn, World, Action, Call, get_conn, set_conn,
}
use iojxd.Sock.Conn.{zero_conn}
use iojxd.Sock.Tcp.{on_acceptable}
use iojxd.Sock.Write.{call_context}
use iojxd.Sock.Access.{get_conn-ok, set_conn-ok, get_sock-ok}
use iojxd.Sock.Accepting.{new_conn, create_ctx_lem}

module _ (io : Watchers Handler Target) (sock : Ptr) where
  -- An active connection that is read from, with its own descriptor and its own queue.
  pub record Serves (fd : ℤ) (queue : Ptr) (c : Conn io.W) : Type 0 where
    pub descriptor : c.fd ≡ fd
    pub owner : c.sock ≡ sock
    pub own_queue : c.buf_write ≡ queue
    pub active : c.active ≡ true
    pub unlaunched : c.write_launched ≡ false
    pub started : io.is_active c.event_read ≡ true
    pub callback : io.cb c.event_read ≡ some read_cb
    pub target : io.cfg c.event_read ≡ some (record { fd = fd; interest = ev_read })

  -- What is there already stays.
  pub record Spares (w v : World io.W) : Type 0 where
    pub conns : (p : Ptr) → p < w.conns.brk → v.conns.cell p ≡ w.conns.cell p
    pub nodes : (p : Ptr) → p < w.nodes.brk → v.nodes.cell p ≡ w.nodes.cell p
    pub node_brk : w.nodes.brk ≤ v.nodes.brk
    pub socks : v.socks ≡ w.socks
    pub jobs : v.jobs ≡ w.jobs
    pub trace : v.trace ≡ w.trace

  module _ (client : Call → Action io.W (Unit {0})) where
    -- The client's accept callback returns and changes no more than the new connection, of which it
    -- leaves the descriptor, the socket, the queue, the read watcher and the flag of the write
    -- watcher.
    abbrev pub Minds : Sock io.W → Type 0
    Minds s =
        (v : World io.W) (a : Ptr) (c : Conn io.W)
        → Holds v.conns a c
        → Returns
            (λ _ u.
              (c' : Conn io.W) × (u ≡ record v { conns = with_cell v.conns a (some c') })
              × (c'.event_read ≡ c.event_read)
              × (c'.sock ≡ c.sock)
              × (c'.fd ≡ c.fd)
              × (c'.buf_write ≡ c.buf_write)
              × (c'.write_launched ≡ c.write_launched))
            (call_context io client s.cb_accept a (some s.user_data) v)

    -- One connection more.
    pub record Welcomed (fd : ℤ) (w v : World io.W) : Type 0 where
      pub conn : Conn io.W
      pub held : Holds v.conns w.conns.brk conn
      pub serves : Serves fd w.nodes.brk conn
      pub queue : IsRing v.nodes w.nodes.brk (w.nodes.brk + 1) []
      pub kept : Spares w v
      pub conns_brk : v.conns.brk ≡ w.conns.brk + 1
      pub conns_room : v.conns.room ≡ w.conns.room - 1
      pub nodes_brk : v.nodes.brk ≡ w.nodes.brk + 2
      pub nodes_room : v.nodes.room ≡ w.nodes.room - 2

    -- What `create_ctx` leaves.
    abbrev Made : (w : World io.W) {s : Sock io.W} → Holds w.socks sock s → ℤ → World io.W → Type 0
    Made w at fd v =
        (v.conns
          ≡ with_cell (extended w.conns (zero_conn io)) w.conns.brk
              (some (new_conn io w at fd w.nodes.brk)))
        × IsRing v.nodes w.nodes.brk (w.nodes.brk + 1) []
        × (v.socks ≡ w.socks)
        × (v.jobs ≡ w.jobs)
        × (v.trace ≡ w.trace)
        × (v.connects ≡ w.connects)
        × SameOutside (footprint w.nodes.brk (w.nodes.brk + 1) []) w.nodes v.nodes
        × (v.nodes.brk ≡ w.nodes.brk + 2)
        × (v.nodes.room ≡ w.nodes.room - 2)

    spared :
        (h g : Heap (Conn io.W)) (b c d : Conn io.W) (p : Ptr)
        → g ≡ with_cell (extended h b) h.brk (some c)
        → p < h.brk
        → (with_cell g h.brk (some d)).cell p ≡ h.cell p
    unfolding write
    spared h g b c d p made below =
        let other : (p == h.brk) ≡ false = ground arith in rw (made, other) refl

    start-Welcomed :
        {s : Sock io.W} (fd : ℤ) (w v : World io.W) (at : Holds w.socks sock s)
        → null < w.conns.brk
        → Made w at fd v
        → (c : Conn io.W) → c.event_read ≡ (new_conn io w at fd w.nodes.brk).event_read
        → c.sock ≡ sock
        → c.fd ≡ fd
        → c.buf_write ≡ w.nodes.brk
        → c.write_launched ≡ false
        → Returns
            (λ _ u. Welcomed fd w u)
            ((do
              c ← get_conn w.conns.brk
              set_conn w.conns.brk (record c { event_read = io.start c.event_read; active = true }))
              (record v { conns = with_cell v.conns w.conns.brk (some c) }))
    start-Welcomed fd w v at start made c same owner descriptor own_queue unlaunched =
        let opened = (new_conn io w at fd w.nodes.brk).event_read in
        let read_target : Target = record { fd = fd; interest = ev_read } in
        let blank_watcher = io.init read_cb io.blank in
        let done = record c { event_read = io.start c.event_read; active = true } in
        let u = record v { conns = with_cell v.conns w.conns.brk (some c) } in
        let there = Holds-self v.conns start c in
        rw
          (
            get_conn-ok u there,
            set_conn-ok u there done,
            with_cell_again v.conns w.conns.brk (some c) (some done),
          )
          (returns (record {
            conn = done;
            held = Holds-self v.conns start done;
            serves = record {
              descriptor = descriptor;
              owner = owner;
              own_queue = own_queue;
              active = refl;
              unlaunched = unlaunched;
              started = io.active-start c.event_read;
              callback =
                  io.cb-start c.event_read
                  ∙ ap io.cb same
                  ∙ (io.cb-set read_target blank_watcher ∙ io.cb-init read_cb io.blank);
              target =
                  io.cfg-start c.event_read ∙ ap io.cfg same ∙ io.cfg-set read_target blank_watcher;
            };
            queue = made.1;
            kept = record {
              conns = λ p below. spared w.conns v.conns (zero_conn io) _ done p made.0 below;
              nodes = λ p below. made.6 p (ground arith);
              node_brk = ground (arith, made.7);
              socks = made.2;
              jobs = made.3;
              trace = made.4;
            };
            conns_brk = ap (λ h. h.brk) made.0;
            conns_room = ap (λ h. h.room) made.0;
            nodes_brk = made.7;
            nodes_room = made.8;
          }))

    pub welcome :
        {s : Sock io.W} (fd : ℤ) (w : World io.W)
        → Holds w.socks sock s
        → Minds s
        → null < w.conns.brk
        → null < w.conns.room
        → null < w.nodes.brk
        → 1 < w.nodes.room
        → Returns (λ _ v. Welcomed fd w v) (on_acceptable io client sock fd true w)
    unfolding on_acceptable
    welcome {s = s} fd w at minds start room node_start node_room = rw (not_null at) (
        Returns.bind (create_ctx_lem io w at fd start room node_start node_room)
          λ ctx v (named, conns, queue, socks, jobs, trace, connects, spares, brk, left).
            let fresh = new_conn io w at fd w.nodes.brk in
            let made_conn =
              subst (λ h. Holds h w.conns.brk fresh) (sym conns)
                (Holds-self (extended w.conns (zero_conn io)) start fresh) in
            let owner = subst (λ h. Holds h sock s) (sym socks) at in
            rw (named, get_sock-ok v owner)
              (Returns.bind (minds v w.conns.brk fresh made_conn)
                λ _ u (c, changed, same, its, descriptor, own_queue, unlaunched). rw changed (
                  start-Welcomed fd w v at start
                    (conns, queue, socks, jobs, trace, connects, spares, brk, left) c same its
                    descriptor own_queue unlaunched)))
