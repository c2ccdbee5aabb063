-- ===== src/Wrapper/Server/Orphans.antt =====
-- A connection that outlives its server.
use iojxd.Prelude.{ℕ, suc, ◌≡◌, ◌∷◌, false, true, none, some, ◌==◌, ap, ◌∙◌, arith}
use iojxd.Memory.{Ptr, null, is_null, ok, err, bad_access, ◌>>◌, write}
use iojxd.Memory.Cells.{
  Holds, Holds-self, load-freed, with_cell, with_cell_again, free-ok, not_null,
}
use iojxd.Ev.{Watchers}
use iojxd.Sock.State.{Handler, Target, Sock, Conn, World, Action, Call, get_sock, closed}
use iojxd.Sock.Kernel.{Received}
use iojxd.Sock.Tcp
use iojxd.Sock.Tcp.{stop_option, unbind}
use iojxd.Sock.Access.{get_sock-ok, set_sock-ok, get_conn-ok}
use iojxd.Sock.Read.{on_readable}
use iojxd.Wrapper.{RefCounts, access, retain, un_ref, destroy, drop}
use iojxd.Wrapper.Server.{destructor, close}
use iojxd.Wrapper.Counting.{object, drop_more}

module _ {W : Type 0} where
  get_sock-freed : (p : Ptr) (w : World W) → w.socks.cell p ≡ none → get_sock p w ≡ err bad_access
  unfolding get_sock
  get_sock-freed p w e = rw (load-freed p w.socks e)

  write-none : (w : World W) (p : Ptr) → (with_cell w.socks p none).cell p ≡ none
  unfolding write
  write-none w p = ground arith

module _ (rc : RefCounts) (io : Watchers Handler Target) (fuel : ℕ) {sock ctx : Ptr}
    (w : World io.W) {s : Sock io.W} {c : Conn io.W} (at : Holds w.socks sock s)
    (open_conn : Holds w.conns ctx c) where
  readable-freed :
      (client : Call → Action io.W (Unit {0})) (r : Received) (w' : World io.W)
      → Holds w'.conns ctx c
      → w'.socks.cell c.sock ≡ none
      → on_readable io client ctx r w' ≡ err bad_access
  unfolding on_readable
  readable-freed client r w' there freed =
      rw (not_null there, get_conn-ok w' there, get_sock-freed c.sock w' freed)

  -- The world when the server is closed, and when it is freed.
  abbrev stopped : io.W → Sock io.W
  stopped e = record s { event_accept = some (io.stop e) }

  abbrev unbound : io.W → World io.W
  unbound e = record w {
    socks = with_cell w.socks sock (some (stopped e));
    trace = closed s.fd ∷ w.trace;
  }

  abbrev pub freed : World io.W
  freed = record w { socks = with_cell w.socks sock none; trace = closed s.fd ∷ w.trace }

  unbind-ok : (e : io.W) → s.event_accept ≡ some e → unbind io sock w ≡ ok tt (unbound e)
  unfolding unbind stop_option
  unbind-ok e started = rw (not_null at, get_sock-ok w at, started, set_sock-ok w at (stopped e))

  free-unbound : (e : io.W) → s.default_ctx ≡ null → Tcp.free fuel sock (unbound e) ≡ ok tt freed
  unfolding Tcp.free
  free-unbound e alone =
      let there = Holds-self w.socks at.above (stopped e) in
      let none_left : is_null s.default_ctx ≡ true = ap is_null alone in
      rw (
        not_null at,
        get_sock-ok (unbound e) there,
        none_left,
        free-ok there,
        with_cell_again w.socks sock (some (stopped e)) none,
      )

  last_drop :
      (e : io.W) (r : rc.R)
      → rc.count r ≡ 1
      → s.default_ctx ≡ null
      → drop rc
          (World io.W)
          (destructor rc io fuel sock)
          (object rc (World io.W) r false true (unbound e))
        ≡ ok tt (object rc (World io.W) (rc.release r) false false freed)
  unfolding drop destroy
  last_drop e r once alone =
      let last : (rc.count (rc.release r) == 0) ≡ true = rw (rc.count-release r 0 once) in
      rw (last, free-unbound e alone)

  -- A connection does not keep its server alive. When Lua closes a started server that nothing else
  -- refers to, and drops it, its descriptor is closed and its socket freed; whatever an open
  -- connection of it then receives, the read callback uses the freed socket.
  pub orphan_lem :
      (client : Call → Action io.W (Unit {0})) (r : rc.R) (e : io.W) (received : Received)
      → rc.count r ≡ 1
      → s.event_accept ≡ some e
      → s.default_ctx ≡ null
      → c.sock ≡ sock
      → ((do
        access rc (World io.W)
        retain rc (World io.W)
        close rc io fuel sock
        drop rc (World io.W) (destructor rc io fuel sock))
            (object rc (World io.W) r true true w)
          ≡ ok tt
              (object rc (World io.W) (rc.release (rc.release (rc.retain r))) false false freed))
        × (on_readable io client ctx received freed ≡ err bad_access)
  unfolding retain close un_ref
  orphan_lem client r e received once started alone belongs =
      let two = rc.count-retain r ∙ ap suc once in
      let one = rc.count-release (rc.retain r) 1 two in
      let d = destructor rc io fuel sock in
      (
        rw
            (
              unbind-ok e started,
              drop_more rc (World io.W) d (rc.retain r) false true (unbound e) two,
            )
            (last_drop e (rc.release (rc.retain r)) one alone),
        readable-freed client received freed open_conn (rw belongs (write-none w sock)),
      )
