-- ===== src/Sock/Accepting/Many.antt =====
-- A listening socket over any number of connections that it accepts.
use iojxd.Prelude.{
  ◌+◌, ◌-◌, ◌*◌, ◌<◌, ◌≤◌, ◌≡◌, refl, ℤ, true, List, [], ◌∷◌, length, arith, sym, subst, ◌∙◌,
}
use iojxd.Memory.{Ptr, Heap, null, pure, ◌>>◌}
use iojxd.Memory.Cells.{Holds}
use iojxd.Memory.Returns
use iojxd.Memory.Returns.{Returns, returns}
use iojxd.Ev.{Watchers}
use iojxd.CycQueue.{Node}
use iojxd.CycQueue.Ring.{IsRing}
use iojxd.Sock.State.{Handler, Target, Sock, Conn, World, Action, Call}
use iojxd.Sock.Tcp.{on_acceptable}
use iojxd.Sock.Accepting.Newcomer.{Serves, Spares, Minds, Welcomed, welcome}

-- An empty queue whose two nodes are spared.
IsRing-spared :
    {h g : Heap Node} {entry ph : Ptr}
    → IsRing h entry ph []
    → g.cell entry ≡ h.cell entry
    → g.cell ph ≡ h.cell ph
    → h.brk ≤ g.brk
    → IsRing g entry ph []
IsRing-spared ring e p grown = record {
  tag = ring.tag;
  junk = ring.junk;
  points = e ∙ ring.points;
  links = p ∙ ring.links;
  distinct = ring.distinct;
  below = (
    ring.below.0,
    omega (arith, ring.below.1),
    (ring.below.2.0, omega (arith, ring.below.2.1), tt),
  );
}

module _ (io : Watchers Handler Target) (sock : Ptr) where
  -- At the addresses from `a` on there is a connection for each descriptor, in order, each with an
  -- empty queue of its own.
  abbrev pub Crowd : World io.W → Ptr → Ptr → List ℤ → Type 0
  Crowd w a q [] = Unit
  Crowd w a q (fd ∷ fds) =
      ((c : Conn io.W) × Holds w.conns a c × Serves io sock fd q c × IsRing w.nodes q (q + 1) [])
      × Crowd w (a + 1) (q + 2) fds

  module _ (client : Call → Action io.W (Unit {0})) where
    abbrev pub accept_all : List ℤ → Action io.W (Unit {0})
    accept_all [] = pure tt
    accept_all (fd ∷ fds) = do on_acceptable io client sock fd true; accept_all fds

    -- What a longer history keeps of a connection that was there.
    spared_by :
        (w v u : World io.W)
        → Spares io sock w v
        → Spares io sock v u
        → w.conns.brk ≤ v.conns.brk
        → Spares io sock w u
    spared_by w v u k l grown = record {
      conns = λ p below. l.conns p (omega arith) ∙ k.conns p below;
      nodes = λ p below.
          let more : w.nodes.brk ≤ v.nodes.brk = k.node_brk in
          l.nodes p (omega arith) ∙ k.nodes p below;
      node_brk =
          let more : w.nodes.brk ≤ v.nodes.brk = k.node_brk in
          let most : v.nodes.brk ≤ u.nodes.brk = l.node_brk in omega arith;
      socks = l.socks ∙ k.socks;
      jobs = l.jobs ∙ k.jobs;
      trace = l.trace ∙ k.trace;
    }

    still_there :
        (fd : ℤ) (w v u : World io.W)
        → Welcomed io sock client fd w v
        → Spares io sock v u
        → (c : Conn io.W) × Holds u.conns w.conns.brk c
          × Serves io sock fd w.nodes.brk c
          × IsRing u.nodes w.nodes.brk (w.nodes.brk + 1) []
    still_there fd w v u new kept =
        let there = new.held in
        let conns_grown : v.conns.brk ≡ w.conns.brk + 1 = new.conns_brk in
        let nodes_grown : v.nodes.brk ≡ w.nodes.brk + 2 = new.nodes_brk in
        (
          new.conn,
          record {
            above = there.above;
            holds = kept.conns w.conns.brk (omega arith) ∙ there.holds;
          },
          new.serves,
          IsRing-spared new.queue (kept.nodes w.nodes.brk (omega arith))
              (kept.nodes (w.nodes.brk + 1) (omega arith)) kept.node_brk,
        )

    -- A listening socket that accepts any number of connections serves each of them, over its own
    -- descriptor and with an empty write queue of its own: all are active at the same time, each
    -- with a started read watcher for the read callback. They stand at new addresses, in the order
    -- in which they were accepted, and nothing that was there before is changed. Each takes at most
    -- two nodes' memory.
    --
    -- The conditions: there is memory for each connection, its read buffer and its queue, and the
    -- client's accept callback returns and changes no more than the new connection, of which it
    -- leaves the descriptor, the socket, the queue, the read watcher and the flag of the write
    -- watcher.
    pub accept_all_lem :
        {s : Sock io.W} (fds : List ℤ) (w : World io.W)
        → Holds w.socks sock s
        → Minds io sock client s
        → null < w.conns.brk
        → null < w.nodes.brk
        → length fds ≤ w.conns.room
        → 2 * length fds ≤ w.nodes.room
        → Returns
            (λ _ v.
              Crowd v w.conns.brk w.nodes.brk fds
              × Spares io sock w v
              × (w.nodes.room ≤ v.nodes.room + 2 * length fds))
            (accept_all fds w)
    accept_all_lem [] w at minds start node_start room node_room = returns (
      tt,
      record {
        conns = λ p below. refl;
        nodes = λ p below. refl;
        node_brk = omega arith;
        socks = refl;
        jobs = refl;
        trace = refl;
      },
      omega arith,
    )
    accept_all_lem {s = s} (fd ∷ fds) w at minds start node_start room node_room =
        Returns.bind
          (welcome io sock client fd w at minds start (omega arith) node_start (omega arith))
          λ _ v new.
            let conns_grown : v.conns.brk ≡ w.conns.brk + 1 = new.conns_brk in
            let conns_left : v.conns.room ≡ w.conns.room - 1 = new.conns_room in
            let nodes_grown : v.nodes.brk ≡ w.nodes.brk + 2 = new.nodes_brk in
            let nodes_left : v.nodes.room ≡ w.nodes.room - 2 = new.nodes_room in
            let owner = subst (λ h. Holds h sock s) (sym new.kept.socks) at in
            Returns.mono
              (accept_all_lem fds v owner minds (omega arith) (omega arith) (omega arith)
                (omega arith))
              λ _ u (crowd, kept, room_left). (
                (
                  still_there fd w v u new kept,
                  subst (λ q. Crowd u (w.conns.brk + 1) q fds) nodes_grown
                      (subst (λ a. Crowd u a v.nodes.brk fds) conns_grown crowd),
                ),
                spared_by w v u new.kept kept (omega arith),
                omega arith,
              )
