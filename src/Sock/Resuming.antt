-- ===== src/Sock/Resuming.antt =====
-- `ixfd_commonsock_write_cb`: what becomes of queued data.
use iojxd.Prelude.{
  ℕ, ◌≡◌, refl, false, none, some, List, [], ◌∷◌, arith, leb, ltb, inl, inr, Bool-cases,
  Option-cases, subst, sym, drop, ◌-◌, ◌<◌,
}
use iojxd.Memory.{Ptr, null, ok, ◌>>=◌, ◌>>◌, load, free, put, is_null, write as write_cell}
use iojxd.Memory.Cells.{Holds, Holds-self, with_cell}
use iojxd.Ev.{Watchers}
use iojxd.CycQueue.{dequeue}
use iojxd.CycQueue.Ring.{Cells, IsRing}
use iojxd.CycQueue.Inspect.{is_empty-nil, is_empty-cons, front-cons}
use iojxd.Sock.State.{
  Handler, Target, Conn, WriteJob, wrote, World, Action, Call, conns, nodes, get_conn, set_conn,
  get_job,
}
use iojxd.Sock.Kernel.{Written, to_size, sent}
use iojxd.Sock.Write.{
  write_front, finish_job, keep_job, write_loop, on_writable, call_context, free_block,
}
use iojxd.Sock.Access.{get_conn-ok, set_conn-ok, get_job-ok, set_job-ok, get_conn-freed}
use iojxd.Memory.Returns.{Fails, After, After-last, Fails-After, Fails-then}

module _ (io : Watchers Handler Target) (client : Call → Action io.W (Unit {0})) where
  -- With nothing queued the write watcher is stopped, and a later `write` starts it again.
  pub on_writable_idle :
      (w : World io.W) {ctx ph : Ptr} {c : Conn io.W} (rs : List Written)
      → Holds w.conns ctx c
      → IsRing w.nodes c.buf_write ph []
      → on_writable io client rs ctx w
        ≡ ok tt (record w {
          conns =
              with_cell w.conns ctx
                (some (record c { write_launched = false; event_write = io.stop c.event_write }));
        })
  unfolding on_writable write_loop
  on_writable_idle w [] conn ring =
      rw (get_conn-ok w conn, is_empty-nil ring, get_conn-ok w conn, set_conn-ok w conn _)
  on_writable_idle w (r ∷ rs) conn ring =
      rw (get_conn-ok w conn, is_empty-nil ring, get_conn-ok w conn, set_conn-ok w conn _)

  -- A loop on a context that is gone.
  write_loop-freed :
      (rs : List Written) (ctx : Ptr) (w : World io.W)
      → w.conns.cell ctx ≡ none
      → Fails (write_loop io client rs ctx w)
  unfolding write_loop
  write_loop-freed [] ctx w gone = rw (get_conn-freed ctx w gone) tt
  write_loop-freed (r ∷ rs) ctx w gone = rw (get_conn-freed ctx w gone) tt

  free_conn-gone :
      (ctx : Ptr) (w : World io.W)
      → null < ctx
      → After (λ _ v. v.conns.cell ctx ≡ none) (conns (free ctx) w)
  unfolding free load put write_cell
  free_conn-gone ctx w above =
      let real : is_null ctx ≡ false = ground arith in
      elim (Option-cases (w.conns.cell ctx)) [
        | inl e ↦ rw (real, e, real) tt
        | inr (c, e) ↦ rw (real, e) (ground arith)
      ]

  -- Once a job is finished the context is gone.
  finish_job-gone :
      (ctx : Ptr) (c : Conn io.W) (job : Ptr) (j : WriteJob) (w : World io.W)
      → null < ctx
      → After (λ _ v. v.conns.cell ctx ≡ none) (finish_job io client ctx c job j w)
  unfolding finish_job
  finish_job-gone ctx c job j w above =
      let Gone : Unit {0} → World io.W → Type 0 = λ _ v. v.conns.cell ctx ≡ none in
      let last : Action io.W (Unit {0}) = conns (free ctx) in
      let freed : WriteJob → Action io.W (Unit {0}) = (λ k. do free_block job k.data_org; last) in
      let read : Action io.W (Unit {0}) = (do k ← get_job job; freed k) in
      let called : Action io.W (Unit {0}) = (do call_context io client j.cb ctx j.cb_args; read) in
      After-last Gone (nodes (dequeue c.buf_write) w) (λ _. called)
        λ _ s.
          After-last Gone (call_context io client j.cb ctx j.cb_args s) (λ _. read)
            λ _ t. After-last Gone (get_job job t) freed λ k u.
              After-last Gone (free_block job k.data_org u) (λ _. last)
                λ _ v. free_conn-gone ctx v above

  -- A job that is kept stays where it is, and so do the connection and the queue.
  abbrev Kept : World io.W → Ptr → World io.W → Type 0
  Kept w job v = (v.conns ≡ w.conns) × (v.nodes ≡ w.nodes) × ((j : WriteJob) × Holds v.jobs job j)

  keep_job-Kept :
      (job : Ptr) (j : WriteJob) (n : ℕ) (w : World io.W)
      → Holds w.jobs job j
      → After (λ _ v. Kept w job v) (keep_job io client job j n w)
  unfolding keep_job
  keep_job-Kept job j n w at = elim (Bool-cases (ltb 0 n)) [
    | inl e ↦
        rw (e, set_job-ok w at (record j { len_remain = j.len_remain - n; bytes = drop n j.bytes }))
          (
            refl,
            refl,
            (
              record j { len_remain = j.len_remain - n; bytes = drop n j.bytes },
              Holds-self w.jobs at.above _,
            ),
          )
    | inr e ↦ rw e (refl, refl, (j, at))
  ]

  -- With a job queued the loop never comes to its end, whatever the kernel and the callbacks do.
  write_loop-Fails :
      (rs : List Written) (w : World io.W) {ctx ph a job : Ptr} {c : Conn io.W} {xs : Cells}
      (j : WriteJob)
      → Holds w.conns ctx c
      → IsRing w.nodes c.buf_write ph ((a, job) ∷ xs)
      → Holds w.jobs job j
      → Fails (write_loop io client rs ctx w)
  unfolding write_loop write_front
  write_loop-Fails [] w j conn ring at = rw (get_conn-ok w conn, is_empty-cons ring) tt
  write_loop-Fails (r ∷ rs) w {ctx} {ph} {a} {job} {c} {xs} j conn ring at =
      let told = record w { trace = wrote c.fd (sent r j.bytes) ∷ w.trace } in
      rw (get_conn-ok w conn, is_empty-cons ring, front-cons ring, get_job-ok w at)
        (elim (Bool-cases (leb j.len_remain (to_size r))) [
          | inl whole ↦ rw whole (
              Fails-After (λ _ v. v.conns.cell ctx ≡ none) (finish_job io client ctx c job j told)
                (λ _. write_loop io client rs ctx) (finish_job-gone ctx c job j told conn.above)
                λ _ v gone. write_loop-freed rs ctx v gone)
          | inr part ↦ rw part (
              Fails-After (λ _ v. Kept told job v) (keep_job io client job j (to_size r) told)
                (λ _. write_loop io client rs ctx) (keep_job-Kept job j (to_size r) told at)
                λ _ v kept.
                  write_loop-Fails rs v kept.2.0 (subst (λ h. Holds h ctx c) (sym kept.0) conn)
                    (subst (λ h. IsRing h c.buf_write ph ((a, job) ∷ xs)) (sym kept.1) ring)
                    kept.2.1)
        ])

  -- With a job queued `ixfd_commonsock_write_cb` never returns, whatever the system calls return
  -- and whatever the callbacks do: it spins until a job is written whole, then frees the connection
  -- itself, and its next test of the queue reads freed memory.
  pub on_writable-Fails :
      (rs : List Written) (w : World io.W) {ctx ph a job : Ptr} {c : Conn io.W} {xs : Cells}
      (j : WriteJob)
      → Holds w.conns ctx c
      → IsRing w.nodes c.buf_write ph ((a, job) ∷ xs)
      → Holds w.jobs job j
      → Fails (on_writable io client rs ctx w)
  unfolding on_writable
  on_writable-Fails rs w {ctx} j conn ring at =
      Fails-then (write_loop io client rs ctx w)
        (λ _ v.
          (do
            c ← get_conn ctx
            set_conn ctx (record c { write_launched = false; event_write = io.stop c.event_write }))
            v)
        (write_loop-Fails rs w j conn ring at)
