-- ===== src/Sock/Serving.antt =====
-- A listening socket: binding and listening, and the connections that it accepts.
use iojxd.Prelude.{
  ◌≡◌, ℤ, Bool, true, false, some, ◌∷◌, if◌then◌else◌, not, ◌&&◌, ap, inl, inr, Bool-cases,
}
use iojxd.Memory.{Ptr, ok, err, aborted, ◌>>◌}
use iojxd.Memory.Cells.{Holds, Holds-self, with_cell_again, not_null, with_cell}
use iojxd.Ev.{Watchers}
use iojxd.Sock.State.{unknown, tcp, Handler, accept_cb, ev_read, Target, Sock, listened, World}
use iojxd.Sock.Conn.{watch}
use iojxd.Sock.Tcp.{is_unknown, is_tcp, is_zero, createnbind, listen}
use iojxd.Sock.Access.{get_sock-ok, set_sock-ok}

module _ (io : Watchers Handler Target) (w : World io.W) {sock : Ptr} {s : Sock io.W}
    (at : Holds w.socks sock s) (fresh : s.type ≡ unknown) (fd : ℤ) where
  -- The socket that listens on the descriptor `fd`.
  abbrev pub listening : Sock io.W
  listening = record s {
    fd = fd;
    event_accept = some (io.start (watch io accept_cb (record { fd = fd; interest = ev_read })));
    type = tcp;
  }

  -- What the binding leaves of the socket.
  abbrev pub opened : Bool → Sock io.W
  opened bound =
      let o = record s {
        fd = fd;
        event_accept = some (watch io accept_cb (record { fd = fd; interest = ev_read }));
      } in
      if bound then record o { type = tcp } else o

  abbrev pub after_bind : Bool → World io.W
  after_bind bound = record w { socks = with_cell w.socks sock (some (opened bound)) }

  pub createnbind-ok :
      (bound : Bool)
      → createnbind io sock (record { fd = fd; bound = bound }) w ≡ ok tt (after_bind bound)
  unfolding createnbind
  createnbind-ok bound =
      let real = not_null at in
      let new_type : is_unknown s.type ≡ true = ap is_unknown fresh in
      rw (real, get_sock-ok w at, new_type, set_sock-ok w at _)

  -- On a new socket, `createnbind` and then `listen` leave the socket of type TCP with its accept
  -- watcher started on the descriptor, which was set to listen with a backlog of 16, if the binding
  -- succeeded and the descriptor is not 0; if the binding failed, or the descriptor is 0, `listen`
  -- aborts.
  pub listen_lem :
      (bound : Bool)
      → (do createnbind io sock (record { fd = fd; bound = bound }); listen io sock) w ≡ (
          if bound && not (is_zero fd)
          then ok tt (record w {
            socks = with_cell w.socks sock (some listening);
            trace = listened fd 16 ∷ w.trace;
          })
          else err aborted)
  unfolding listen
  listen_lem true =
      let at' = Holds-self w.socks at.above (opened true) in
      let real = not_null at in
      elim (Bool-cases (is_zero fd)) [
        | inl z ↦ rw (createnbind-ok true, real, get_sock-ok (after_bind true) at', z)
        | inr z ↦ rw (
          createnbind-ok true,
          real,
          get_sock-ok (after_bind true) at',
          z,
          set_sock-ok (record (after_bind true) { trace = listened fd 16 ∷ w.trace }) at' _,
          with_cell_again w.socks sock (some (opened true)) (some listening),
        )
      ]
  listen_lem false =
      let at' = Holds-self w.socks at.above (opened false) in
      let real = not_null at in
      let no_type : is_tcp s.type ≡ false = ap is_tcp fresh in
      rw (createnbind-ok false, real, get_sock-ok (after_bind false) at', no_type)
