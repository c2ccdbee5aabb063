-- ===== src/Sock/Ending.antt =====
-- The end of a connection: `ixfd_commonsock_close`, `_disconnect` and `_freectx`.
use iojxd.Prelude.{ℕ, ◌<◌, ◌≡◌, refl, Bool, true, false, none, some, ◌∷◌, if◌then◌else◌, length}
use iojxd.Memory.{Ptr, ok, pure, ◌>>=◌, free, and_then}
use iojxd.Memory.Cells.{Holds, not_null, with_cell, free-ok}
use iojxd.Memory.Returns.{Returns, returns}
use iojxd.Ev.{Watchers}
use iojxd.CycQueue.Ring.{Cells, IsRing, footprint}
use iojxd.CycQueue.Free.{Freed, free_queue-Freed}
use iojxd.Sock.State.{get_sock, log, conns, Handler, Target, Sock, Conn, closed, World}
use iojxd.Sock.Conn.{close, freectx}
use iojxd.Sock.Tcp.{disconnect}
use iojxd.Sock.Access.{get_conn-ok, set_conn-ok, get_sock-ok, nodes-bind}

module _ (io : Watchers Handler Target) where
  -- A connection after `close`: its write watcher is as before.
  abbrev pub shut : Conn io.W → Conn io.W
  shut c = record c { active = false; event_read = io.stop c.event_read }

  module _ (w : World io.W) {ctx : Ptr} {c : Conn io.W} {s : Sock io.W} (conn : Holds w.conns ctx c)
      (sock : Holds w.socks c.sock s) where
    pub close-ok :
        close io ctx w
        ≡ ok tt (record w {
          conns = with_cell w.conns ctx (some (shut c));
          trace = closed c.fd ∷ w.trace;
        })
    unfolding close
    close-ok =
        let real = not_null conn in
        rw (real, get_conn-ok w conn, get_sock-ok w sock, set_conn-ok w conn (shut c))

    close_first :
        (active : Bool)
        → and_then
            ((if active then close io ctx else pure tt) w)
            (λ _. do s' ← get_sock c.sock; log (closed s'.fd))
          ≡ (if active
              then ok tt (record w {
                conns = with_cell w.conns ctx (some (shut c));
                trace = closed s.fd ∷ closed c.fd ∷ w.trace;
              })
              else ok tt (record w { trace = closed s.fd ∷ w.trace }))
    close_first true =
        let after = record w {
          conns = with_cell w.conns ctx (some (shut c));
          trace = closed c.fd ∷ w.trace;
        } in
        rw (close-ok, get_sock-ok after sock)
    close_first false = rw (get_sock-ok w sock)

    -- Closing an active connection through its socket closes the connection's descriptor and then
    -- the socket's; on an inactive one it closes the socket's alone. Neither stops the write
    -- watcher.
    pub disconnect_lem :
        s.default_ctx ≡ ctx
        → disconnect io c.sock w ≡ (
            if c.active
            then ok tt (record w {
              conns = with_cell w.conns ctx (some (shut c));
              trace = closed s.fd ∷ closed c.fd ∷ w.trace;
            })
            else ok tt (record w { trace = closed s.fd ∷ w.trace }))
    unfolding disconnect
    disconnect_lem same =
        let real = not_null sock in
        rw (real, get_sock-ok w sock, same, get_conn-ok w conn) (close_first c.active)

-- What `freectx` leaves: every node of the write queue is gone and so is the connection; no other
-- connection or node has changed, no socket, pending connect or job is freed, and nothing is told
-- to the kernel.
pub record Gone {W : Type 0} (w : World W) (ctx entry ph : Ptr) (xs : Cells) (v : World W)
    : Type 0 where
  pub nodes_gone : Freed (footprint entry ph xs) w.nodes v.nodes
  pub conn_gone : v.conns ≡ with_cell w.conns ctx none
  pub socks_kept : v.socks ≡ w.socks
  pub connects_kept : v.connects ≡ w.connects
  pub jobs_kept : v.jobs ≡ w.jobs
  pub silent : v.trace ≡ w.trace

-- `freectx` returns, with one round more of fuel than there are jobs queued. It frees the
-- connection and every node of its write queue, but none of the jobs that the nodes point to, and
-- no other connection or node, socket or pending connect; nothing is told to the kernel.
pub freectx-Gone :
    {W : Type 0} (fuel : ℕ) (w : World W) {ctx ph : Ptr} {c : Conn W} (xs : Cells)
    → Holds w.conns ctx c
    → IsRing w.nodes c.buf_write ph xs
    → length xs < fuel
    → Returns (λ _ v. Gone w ctx c.buf_write ph xs v) (freectx fuel ctx w)
unfolding freectx
freectx-Gone fuel w {ctx} xs conn ring enough =
    let real = not_null conn in
    rw (real, get_conn-ok w conn)
      (nodes-bind w (λ _. conns (free ctx)) (free_queue-Freed fuel xs ring enough)
        λ _ h gone. rw (free-ok conn) (
          returns (record {
            nodes_gone = gone;
            conn_gone = refl;
            socks_kept = refl;
            connects_kept = refl;
            jobs_kept = refl;
            silent = refl;
          })))
