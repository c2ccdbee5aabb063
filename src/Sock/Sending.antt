-- ===== src/Sock/Sending.antt =====
-- `ixfd_commonsock_write`: what is sent at once, and what is kept for later.
use iojxd.Prelude.{
  ℕ, ◌+◌, ◌==◌, ◌-◌, ◌<◌, ◌^◌, ◌≡◌, zero, suc, refl, ap, ◌∙◌, Bool, true, false, none, some, List,
  [], ◌∷◌, ◌++◌, arith, length, take, take-append-drop, ltb, leb, subst, sym,
}
use iojxd.Memory.{Ptr, null, pure, ◌>>◌, Heap, write as write_cell}
use iojxd.Memory.Cells.{SameOutside, Holds, Holds-self, with_cell, extended, Holds-blank, malloc-ok}
use iojxd.Memory.Returns
use iojxd.Memory.Returns.{Returns, returns}
use iojxd.Ev.{Watchers}
use iojxd.CycQueue.Ring.{Cells, IsRing, footprint}
use iojxd.CycQueue.Enqueue.{enqueue-append}
use iojxd.Sock.State.{Handler, Target, Sock, Conn, WriteJob, wrote, World, Action, Call}
use iojxd.Sock.Kernel.{taken, failed, to_size, sent}
use iojxd.Sock.Write.{blank_job, unwritten, call_context, launch_unless, queue_rest, write}
use iojxd.Sock.Access.{get_conn-ok, set_conn-ok, get_sock-ok, set_job-ok, nodes-bind}

take-length : (bs : List ℕ) → take (length bs) bs ≡ bs
take-length [] = refl
take-length (b ∷ bs) = rw (take-length bs)

-- The job that `write` queues for the bytes `rest`.
abbrev pub queued_job : List ℕ → Ptr → WriteJob
queued_job rest cb = record {
  bytes = rest;
  len_remain = length rest;
  cb = cb;
  data_org = some rest;
  cb_args = none;
}

-- The heap of jobs with the new one.
abbrev pub filled : Heap WriteJob → List ℕ → Ptr → Heap WriteJob
filled h rest cb = with_cell (extended h blank_job) h.brk (some (queued_job rest cb))

-- The connection afterwards: its write watcher runs.
abbrev pub launched_unless : Bool → (io : Watchers Handler Target) → Conn io.W → Conn io.W
launched_unless true io c = c
launched_unless false io c = record c {
  write_launched = true;
  event_write = io.start c.event_write;
}

-- The world `v` once the bytes `rest` have been queued: a job of theirs stands last in the queue,
-- the write watcher of the connection runs, and nothing was told to the kernel.
pub record Queued (io : Watchers Handler Target) (w : World io.W) (ctx ph : Ptr) (c : Conn io.W)
    (xs : Cells) (cb : Ptr) (rest : List ℕ) (v : World io.W) : Type 0 where
  pub ring : IsRing v.nodes c.buf_write ph (xs ++ (w.nodes.brk, w.jobs.brk) ∷ [])
  pub job : Holds v.jobs w.jobs.brk (queued_job rest cb)
  pub conn : Holds v.conns ctx (launched_unless c.write_launched io c)
  pub silent : v.trace ≡ w.trace
  pub jobs_now : v.jobs ≡ filled w.jobs rest cb
  pub socks_now : v.socks ≡ w.socks
  pub node_room : v.nodes.room ≡ w.nodes.room - 1
  pub node_brk : v.nodes.brk ≡ w.nodes.brk + 1
  pub spared_nodes : SameOutside (w.nodes.brk ∷ footprint c.buf_write ph xs) w.nodes v.nodes
  pub spared_conns : (p : Ptr) → (p == ctx) ≡ false → v.conns.cell p ≡ w.conns.cell p

launch-ok :
    (io : Watchers Handler Target) (client : Call → Action io.W (Unit {0})) (b : Bool)
    (w : World io.W) {ctx : Ptr} {c : Conn io.W} {s : Sock io.W}
    → Holds w.conns ctx c
    → Holds w.socks c.sock s
    → Returns
        (λ _ v.
          Holds v.conns ctx (launched_unless b io c)
          × (v.nodes ≡ w.nodes)
          × (v.jobs ≡ w.jobs)
          × (v.trace ≡ w.trace)
          × (v.socks ≡ w.socks)
          × ((p : Ptr) → (p == ctx) ≡ false → v.conns.cell p ≡ w.conns.cell p))
        (launch_unless io client b ctx c w)
unfolding launch_unless write_cell
launch-ok io client true w conn sock = returns (conn, refl, refl, refl, refl, λ p other. refl)
launch-ok io client false w {c} conn sock =
    let c' = record c { write_launched = true; event_write = io.start c.event_write } in
    rw (get_sock-ok w sock, set_conn-ok w conn c')
      (returns (Holds-self w.conns conn.above c', refl, refl, refl, refl, λ p other. rw other refl))

module _ (io : Watchers Handler Target) (client : Call → Action io.W (Unit {0})) (w : World io.W)
    {ctx ph : Ptr} {c : Conn io.W} {s : Sock io.W} {xs : Cells} (conn : Holds w.conns ctx c)
    (sock : Holds w.socks c.sock s) (ring : IsRing w.nodes c.buf_write ph xs) (cb : Ptr) where
  pub queue_rest-Queued :
      (rest : List ℕ)
      → null < w.nodes.room
      → null < w.jobs.room
      → null < w.jobs.brk
      → Returns (λ _ v. Queued io w ctx ph c xs cb rest v) (queue_rest io client ctx rest cb w)
  unfolding queue_rest
  queue_rest-Queued rest node_room job_room start =
      let fresh : Holds (extended w.jobs blank_job) w.jobs.brk blank_job =
        Holds-blank w.jobs start blank_job in
      rw
        (
          malloc-ok blank_job w.jobs job_room,
          set_job-ok (record w { jobs = extended w.jobs blank_job }) fresh (queued_job rest cb),
          get_conn-ok (record w { jobs = filled w.jobs rest cb }) conn,
        )
        (nodes-bind (record w { jobs = filled w.jobs rest cb })
          (λ _. launch_unless io client c.write_launched ctx c)
          (enqueue-append w.jobs.brk ring node_room)
          λ _ h q.
            Returns.mono
              (launch-ok io client c.write_launched
                (record w { jobs = filled w.jobs rest cb; nodes = h }) conn sock)
              λ _ v l. record {
                ring =
                    subst (λ g. IsRing g c.buf_write ph (xs ++ (w.nodes.brk, w.jobs.brk) ∷ []))
                      (sym l.1) q.0;
                job =
                    subst (λ g. Holds g w.jobs.brk (queued_job rest cb)) (sym l.2)
                      (Holds-self (extended w.jobs blank_job) start (queued_job rest cb));
                conn = l.0;
                silent = l.3;
                jobs_now = l.2;
                socks_now = l.4;
                node_room = ap (λ g. g.room) l.1 ∙ q.2;
                node_brk = ap (λ g. g.brk) l.1 ∙ q.3;
                spared_nodes = λ a out. ap (λ g. g.cell a) l.1 ∙ q.1 a out;
                spared_conns = l.5;
              })

take-append-unwritten : (n : ℕ) (bs : List ℕ) → take n bs ++ unwritten n bs ≡ bs
take-append-unwritten zero bs = refl
take-append-unwritten (suc n) bs =
    let more : ltb 0 (suc n) ≡ true = ground arith in rw more (take-append-drop (suc n) bs)

module _ (io : Watchers Handler Target) (client : Call → Action io.W (Unit {0})) (w : World io.W)
    {ctx : Ptr} {c : Conn io.W} (conn : Holds w.conns ctx c) (data_ : List ℕ) (cb args : Ptr) where
  -- When the kernel takes fewer bytes than it was given, `write` returns false, and the bytes that
  -- it did take together with those of the new job, which stands last in the queue, are the data in
  -- order. The connection's write watcher runs, and the callback is kept for later without its
  -- argument.
  pub write_partial :
      {ph : Ptr} {s : Sock io.W} {xs : Cells} (n : ℕ)
      → Holds w.socks c.sock s
      → IsRing w.nodes c.buf_write ph xs
      → n < length data_
      → null < w.nodes.room
      → null < w.jobs.room
      → null < w.jobs.brk
      → Returns
          (λ out v.
            (out ≡ false)
            × ((rest : List ℕ) × Queued io
                  (record w { trace = wrote c.fd (take n data_) ∷ w.trace })
                  ctx
                  ph
                  c
                  xs
                  cb
                  rest
                  v
                × (take n data_ ++ rest ≡ data_)))
          (write io client ctx data_ (taken n) cb args w)
  unfolding write to_size sent
  write_partial n sock ring less node_room job_room start =
      let short : leb (length data_) n ≡ false = ground arith in
      let told = record w { trace = wrote c.fd (take n data_) ∷ w.trace } in
      rw (get_conn-ok w conn, short)
        (Returns.bind
          (queue_rest-Queued io client told conn sock ring cb (unwritten n data_) node_room job_room
            start)
          λ _ v q. returns (refl, (unwritten n data_, q, take-append-unwritten n data_)))

  -- When the kernel takes all the bytes, `write` calls the callback with its argument and returns
  -- true; nothing is queued. A system call that fails counts as one that took everything: although
  -- no byte left, `write` calls the callback and returns true, and nothing is queued for later.
  pub write_done :
      length data_ < 2 ^ 64
      → (write io client ctx data_ (taken (length data_)) cb args w
          ≡ (do call_context io client cb ctx (some args); pure true)
              (record w { trace = wrote c.fd data_ ∷ w.trace }))
        × (write io client ctx data_ failed cb args w
            ≡ (do call_context io client cb ctx (some args); pure true)
                (record w { trace = wrote c.fd [] ∷ w.trace }))
  unfolding write to_size sent
  write_done small =
      let whole : leb (length data_) (length data_) ≡ true = ground arith in
      let long : leb (length data_) (2 ^ 64 - 1) ≡ true = ground arith in
      (rw (get_conn-ok w conn, whole, take-length data_), rw (get_conn-ok w conn, long))
