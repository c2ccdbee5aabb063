-- ===== src/Wrapper/Server/Serving.antt =====
-- A server from its start to its collection, and one that is never started.
use iojxd.Prelude.{
  ℕ, ℤ, suc, ◌≡◌, refl, Bool, true, false, none, some, ◌∷◌, ◌==◌, not, ap, sym, ◌∙◌, if◌then◌else◌,
}
use iojxd.Memory.{Ptr, null, is_null, and_then, ok, err, aborted, ◌>>◌}
use iojxd.Memory.Cells.{Holds, Holds-self, not_null, with_cell, with_cell_again, free-ok}
use iojxd.Memory.Returns.{Returns, returns}
use iojxd.Ev.{Watchers}
use iojxd.Sock.State.{unknown, Handler, accept_cb, ev_read, Target, Sock, World, listened, closed}
use iojxd.Sock.Tcp
use iojxd.Sock.Conn.{watch}
use iojxd.Sock.Tcp.{Binding, is_zero, createnbind, listen, unbind}
use iojxd.Sock.Access.{get_sock-ok, set_sock-ok}
use iojxd.Sock.Serving.{listening, after_bind, createnbind-ok, listen_lem}
use iojxd.Wrapper.Counting
use iojxd.Wrapper.{RefCounts, Object, access, retain, ref, un_ref, destroy, drop}
use iojxd.Wrapper.Server.{destructor, start, close}

module _ (rc : RefCounts) (io : Watchers Handler Target) (fuel : ℕ) {sock : Ptr} (w : World io.W)
    {s : Sock io.W} (at : Holds w.socks sock s) where
  abbrev pub object : rc.R → Bool → Bool → World io.W → Object rc.R (World io.W)
  object = Counting.object rc (World io.W)

  -- A server that Lua makes and drops without a start takes the process down: the destructor frees
  -- a socket that has no watcher, which `ixfd_commonsock_free` asserts it has.
  pub drop_unstarted :
      (r : rc.R)
      → rc.count r ≡ 1
      → s.event_accept ≡ none
      → s.event_connect ≡ none
      → drop rc (World io.W) (destructor rc io fuel sock) (object r false true w) ≡ err aborted
  unfolding drop destroy Tcp.free
  drop_unstarted r e no_accept no_connect =
      let last : (rc.count (rc.release r) == 0) ≡ true = rw (rc.count-release r 0 e) in
      let real = not_null at in rw (last, real, get_sock-ok w at, no_accept, no_connect)

  module _ (fd : ℤ) (fresh : s.type ≡ unknown) (bound : is_zero fd ≡ false) where
    -- The world with the socket listening.
    abbrev pub served : World io.W
    served = record w {
      socks = with_cell w.socks sock (some (listening io w at fresh fd));
      trace = listened fd 16 ∷ w.trace;
    }

    listen-ok : listen io sock (after_bind io w at fresh fd true) ≡ ok tt served
    listen-ok =
        let good : (if not (is_zero fd) then ok tt served else err aborted) ≡ ok tt served =
          rw bound in
        sym (ap (λ x. and_then x (λ _. listen io sock)) (createnbind-ok io w at fresh fd true))
        ∙ (listen_lem io w at fresh fd true ∙ good)

    start-ok :
        (r : rc.R)
        → start rc io fuel sock (record { fd = fd; bound = true }) (object r false true w)
          ≡ ok tt (object (rc.retain r) true true served)
    unfolding start ref retain
    start-ok r = rw (createnbind-ok io w at fresh fd true, listen-ok)

    -- The socket and the world once the server is closed.
    abbrev stopped : Sock io.W
    stopped =
        let l = listening io w at fresh fd in
        record l {
          event_accept =
              some
                (io.stop (io.start (watch io accept_cb (record { fd = fd; interest = ev_read }))));
        }

    abbrev ended : World io.W
    ended = record w {
      socks = with_cell w.socks sock (some stopped);
      trace = closed fd ∷ listened fd 16 ∷ w.trace;
    }

    unbind-ok : unbind io sock served ≡ ok tt ended
    unfolding unbind
    unbind-ok =
        let real = not_null at in
        let there = Holds-self w.socks at.above (listening io w at fresh fd) in
        rw (
          real,
          get_sock-ok served there,
          set_sock-ok served there stopped,
          with_cell_again w.socks sock (some (listening io w at fresh fd)) (some stopped),
        )

    free_sock-ok :
        s.default_ctx ≡ null
        → Tcp.free fuel sock ended ≡ ok tt (record ended { socks = with_cell w.socks sock none })
    unfolding Tcp.free
    free_sock-ok alone =
        let real = not_null at in
        let none_left : is_null s.default_ctx ≡ true = ap is_null alone in
        let there = Holds-self w.socks at.above stopped in
        rw (
          real,
          get_sock-ok ended there,
          none_left,
          free-ok there,
          with_cell_again w.socks sock (some stopped) none,
        )

    last_drop :
        (r : rc.R)
        → rc.count r ≡ 1
        → s.default_ctx ≡ null
        → Returns
            (λ _ p.
              (p.alive ≡ false) × (p.impl ≡ record ended { socks = with_cell w.socks sock none }))
            (drop rc (World io.W) (destructor rc io fuel sock) (object r false true ended))
    unfolding drop destroy
    last_drop r e alone =
        let last : (rc.count (rc.release r) == 0) ≡ true = rw (rc.count-release r 0 e) in
        rw (last, free_sock-ok alone) (returns (refl, refl))

    -- A server that is started stays alive when Lua drops it. When Lua gets at it again, closes it
    -- and drops it, it is deleted and its socket freed; the descriptor was set to listen once and
    -- closed once.
    pub server_life :
        (r : rc.R)
        → rc.count r ≡ 1
        → s.default_ctx ≡ null
        → Returns
            (λ _ p.
              (p.alive ≡ false)
              × (p.impl ≡ record w {
                socks = with_cell w.socks sock none;
                trace = closed fd ∷ listened fd 16 ∷ w.trace;
              }))
            ((do
              start rc io fuel sock (record { fd = fd; bound = true })
              drop rc (World io.W) (destructor rc io fuel sock)
              access rc (World io.W)
              retain rc (World io.W)
              close rc io fuel sock
              drop rc (World io.W) (destructor rc io fuel sock))
              (object r false true w))
    unfolding retain close un_ref
    server_life r e alone =
        let two = rc.count-retain r ∙ ap suc e in
        let one = rc.count-release (rc.retain r) 1 two in
        let two' = rc.count-retain (rc.release (rc.retain r)) ∙ ap suc one in
        let one' = rc.count-release (rc.retain (rc.release (rc.retain r))) 1 two' in
        let d = destructor rc io fuel sock in
        rw
          (
            start-ok r,
            Counting.drop_more rc (World io.W) d (rc.retain r) true true served two,
            unbind-ok,
            Counting.drop_more rc (World io.W) d (rc.retain (rc.release (rc.retain r))) false true
                ended two',
          )
          (last_drop (rc.release (rc.retain (rc.release (rc.retain r)))) one' alone)
