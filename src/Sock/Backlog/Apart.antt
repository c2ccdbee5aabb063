-- ===== src/Sock/Backlog/Apart.antt =====
-- What a call of `ixfd_commonsock_write` leaves alone.
use iojxd.Prelude.{ℕ, ◌<◌, ◌≤◌, ◌≡◌, refl, ap, ◌∙◌, false, List, [], ◌∷◌, ◌++◌, arith, take, ◌==◌}
use iojxd.Memory.{Ptr, write as write_cell}
use iojxd.Memory.Cells.{has, has-append}
use iojxd.Ev.{Watchers}
use iojxd.CycQueue.Ring.{Cells, footprint, addresses, addresses-append}
use iojxd.Sock.State.{Handler, Target, Conn, wrote, Event, World}
use iojxd.Sock.Write.{unwritten}
use iojxd.Sock.Sending.{Queued}

module _ (io : Watchers Handler Target) where
  -- From `w` to `v` only the connection, the nodes of its queue and what is new have changed, and
  -- of the old nodes the queue has those that it had.
  pub record Apart (w : World io.W) (ctx ph : Ptr) (c : Conn io.W) (xs ys : Cells) (v : World io.W)
      : Type 0 where
    pub conns : (p : Ptr) → (p == ctx) ≡ false → v.conns.cell p ≡ w.conns.cell p
    pub nodes :
        (a : Ptr)
        → a < w.nodes.brk
        → has a (footprint c.buf_write ph xs) ≡ false
        → v.nodes.cell a ≡ w.nodes.cell a
    pub node_brk : w.nodes.brk ≤ v.nodes.brk
    pub jobs : (p : Ptr) → p < w.jobs.brk → v.jobs.cell p ≡ w.jobs.cell p
    pub job_brk : w.jobs.brk ≤ v.jobs.brk
    pub queue :
        (a : Ptr)
        → a < w.nodes.brk
        → has a (footprint c.buf_write ph ys) ≡ has a (footprint c.buf_write ph xs)

  pub Apart-same :
      (w : World io.W) (ctx ph : Ptr) (c : Conn io.W) (xs : Cells) (trace : List Event)
      → Apart w ctx ph c xs xs (record w { trace = trace })
  Apart-same w ctx ph c xs trace = record {
    conns = λ p other. refl;
    nodes = λ a below out. refl;
    node_brk = omega arith;
    jobs = λ p below. refl;
    job_brk = omega arith;
    queue = λ a below. refl;
  }

  pub Queued-Apart :
      (w v : World io.W) (ctx ph : Ptr) (c : Conn io.W) (xs : Cells) (cb : Ptr) (n : ℕ)
      (data_ : List ℕ)
      → Queued io
          (record w { trace = wrote c.fd (take n data_) ∷ w.trace })
          ctx
          ph
          c
          xs
          cb
          (unwritten n data_)
          v
      → Apart w ctx ph c xs (xs ++ (w.nodes.brk, w.jobs.brk) ∷ []) v
  unfolding write_cell
  Queued-Apart w v ctx ph c xs cb n data_ q = record {
    conns = q.spared_conns;
    nodes = λ a below out. q.spared_nodes a (ground arith);
    node_brk = omega (arith, q.node_brk);
    jobs = λ p below.
        let new : (p == w.jobs.brk) ≡ false = ground arith in
        ap (λ h. h.cell p) q.jobs_now ∙ (rw new refl);
    job_brk = omega (arith, ap (λ h. h.brk) q.jobs_now);
    queue = λ a below.
        rw
          (
            addresses-append xs ((w.nodes.brk, w.jobs.brk) ∷ []),
            has-append a (addresses xs) (w.nodes.brk ∷ []),
          )
          (ground arith);
  }
