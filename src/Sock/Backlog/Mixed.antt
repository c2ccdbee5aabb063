-- ===== src/Sock/Backlog/Mixed.antt =====
-- Calls of `ixfd_commonsock_write` on two connections, in any order.
use iojxd.Prelude.{
  ℤ, ◌<◌, ◌≤◌, ◌^◌, ◌≡◌, ◌∙◌, refl, ap, Bool, true, false, List, [], ◌∷◌, append_assoc, append-nil,
  arith, length, subst,
}
use iojxd.Memory.{Ptr, pure, ◌>>◌, ok}
use iojxd.Memory.Returns
use iojxd.Memory.Returns.{Returns, returns}
use iojxd.Ev.{Watchers}
use iojxd.CycQueue.Ring.{Cells}
use iojxd.Sock.State.{Handler, Target, Conn, wrote, Event, World, Action, Call}
use iojxd.Sock.Kernel.{sent}
use iojxd.Sock.Write.{write}
use iojxd.Sock.Backlog.{Same, launched-Same, Attempt, left_over, left_overs}
use iojxd.Sock.Backlog.Calls.{Attempted, write-Attempted}
use iojxd.Sock.Backlog.Pair.{Side, Two, swap, after, Attempted-Two}

-- The calls on one of the two connections; `true` is the first one.
abbrev pub calls_on : Bool → List (Bool × Attempt) → List Attempt
calls_on b [] = []
calls_on true ((true, a) ∷ more) = a ∷ calls_on true more
calls_on true ((false, a) ∷ more) = calls_on true more
calls_on false ((true, a) ∷ more) = calls_on false more
calls_on false ((false, a) ∷ more) = a ∷ calls_on false more

-- What the kernel is told by all of them, the latest first.
abbrev pub told_both : ℤ → ℤ → List (Bool × Attempt) → List Event → List Event
told_both fd fd' [] trace = trace
told_both fd fd' ((true, a) ∷ more) trace =
    told_both fd fd' more (wrote fd (sent a.result a.data_) ∷ trace)
told_both fd fd' ((false, a) ∷ more) trace =
    told_both fd fd' more (wrote fd' (sent a.result a.data_) ∷ trace)

abbrev pub AllFit : List (Bool × Attempt) → Type 0
AllFit [] = Unit
AllFit ((b, a) ∷ more) = (length a.data_ < 2 ^ 64) × AllFit more

module _ (io : Watchers Handler Target) (client : Call → Action io.W (Unit {0}))
    (quiet : (k : Call) (w : World io.W) → client k w ≡ ok tt w) where
  -- What all the calls leave of the two connections, and what the kernel was told.
  pub record Both (w : World io.W) (s t : Side io) (calls : List (Bool × Attempt)) (v : World io.W)
      : Type 0 where
    pub conn : Conn io.W
    pub cells : Cells
    pub conn_two : Conn io.W
    pub cells_two : Cells
    pub two :
        Two io v
          (after io s conn cells (left_overs (calls_on true calls)))
          (after io t conn_two cells_two (left_overs (calls_on false calls)))
    pub same : Same io s.conn conn
    pub same_two : Same io t.conn conn_two
    pub trace : v.trace ≡ told_both s.conn.fd t.conn.fd calls w.trace

  abbrev pub write_both : Ptr → Ptr → Ptr → Ptr → List (Bool × Attempt) → Action io.W (Unit {0})
  write_both ctx ctx' cb args [] = pure tt
  write_both ctx ctx' cb args ((true, a) ∷ more) = do
    write io client ctx a.data_ a.result cb args
    write_both ctx ctx' cb args more
  write_both ctx ctx' cb args ((false, a) ∷ more) = do
    write io client ctx' a.data_ a.result cb args
    write_both ctx ctx' cb args more

  Both-first :
      (w v u : World io.W) (s t : Side io) (a : Attempt) (more : List (Bool × Attempt))
      (d : Attempted io client quiet w s.ctx s.ph s.conn s.cells s.waits a v)
      → Both v (after io s d.conn d.cells (left_over a.result a.data_)) t more u
      → Both w s t ((true, a) ∷ more) u
  Both-first w v u s t a more d k = record {
    conn = k.conn;
    cells = k.cells;
    conn_two = k.conn_two;
    cells_two = k.cells_two;
    two =
        subst
          (λ bs.
            Two io u (record { ctx = s.ctx; ph = s.ph; conn = k.conn; cells = k.cells; waits = bs })
              (after io t k.conn_two k.cells_two (left_overs (calls_on false more))))
          (append_assoc s.waits (left_over a.result a.data_) (left_overs (calls_on true more)))
          k.two;
    same = record {
      sock = k.same.sock ∙ d.same.sock;
      fd = k.same.fd ∙ d.same.fd;
      queue = k.same.queue ∙ d.same.queue;
    };
    same_two = k.same_two;
    trace =
        k.trace
        ∙ ap (λ fd. told_both fd t.conn.fd more v.trace) d.same.fd
        ∙ ap (told_both s.conn.fd t.conn.fd more) d.trace;
  }

  Both-second :
      (w v u : World io.W) (s t : Side io) (a : Attempt) (more : List (Bool × Attempt))
      (d : Attempted io client quiet w t.ctx t.ph t.conn t.cells t.waits a v)
      → Both v s (after io t d.conn d.cells (left_over a.result a.data_)) more u
      → Both w s t ((false, a) ∷ more) u
  Both-second w v u s t a more d k = record {
    conn = k.conn;
    cells = k.cells;
    conn_two = k.conn_two;
    cells_two = k.cells_two;
    two =
        subst
          (λ bs.
            Two io u (after io s k.conn k.cells (left_overs (calls_on true more))) (record {
              ctx = t.ctx;
              ph = t.ph;
              conn = k.conn_two;
              cells = k.cells_two;
              waits = bs;
            }))
          (append_assoc t.waits (left_over a.result a.data_) (left_overs (calls_on false more)))
          k.two;
    same = k.same;
    same_two = record {
      sock = k.same_two.sock ∙ d.same.sock;
      fd = k.same_two.fd ∙ d.same.fd;
      queue = k.same_two.queue ∙ d.same.queue;
    };
    trace =
        k.trace
        ∙ ap (λ fd. told_both s.conn.fd fd more v.trace) d.same.fd
        ∙ ap (told_both s.conn.fd t.conn.fd more) d.trace;
  }

  -- Two connections do not get into each other's way. Over any interleaving of calls of `write` on
  -- the two, of data shorter than 2 ^ 64, both with their sockets and their backlogs in order and
  -- no node in common, with memory at hand and callbacks that leave the world alone: each call
  -- returns, and on each connection just what its own calls left over waits, in their order and
  -- behind what waited before, as if the other connection was not there. Both backlogs stay in
  -- order, with no node in common, and the kernel is told of the calls in the order in which they
  -- were made.
  pub write_both_lem :
      (w : World io.W) (s t : Side io) (cb args : Ptr) (calls : List (Bool × Attempt))
      → Two io w s t
      → AllFit calls
      → length calls ≤ w.nodes.room
      → length calls ≤ w.jobs.room
      → Returns (λ _ v. Both w s t calls v) (write_both s.ctx t.ctx cb args calls w)
  write_both_lem w s t cb args [] h fits node_room job_room = returns (record {
    conn = s.conn;
    cells = s.cells;
    conn_two = t.conn;
    cells_two = t.cells;
    two = rw (append-nil s.waits, append-nil t.waits) h;
    same = launched-Same io true s.conn;
    same_two = launched-Same io true t.conn;
    trace = refl;
  })
  write_both_lem w s t cb args ((true, a) ∷ more) h fits node_room job_room =
      Returns.bind
        (write-Attempted io client quiet w s.ctx s.ph s.conn h.sock_one.0 s.cells s.waits a.data_
          a.result cb args h.one h.sock_one.1 fits.0 (omega arith) (omega arith))
        λ _ v d.
          Returns.mono
            (write_both_lem v (after io s d.conn d.cells (left_over a.result a.data_)) t cb args
              more (Attempted-Two io client quiet h d) fits.1 (omega (arith, d.nodes_room))
              (omega (arith, d.jobs_room)))
            λ _ u k. Both-first w v u s t a more d k
  write_both_lem w s t cb args ((false, a) ∷ more) h fits node_room job_room =
      Returns.bind
        (write-Attempted io client quiet w t.ctx t.ph t.conn h.sock_two.0 t.cells t.waits a.data_
          a.result cb args h.two h.sock_two.1 fits.0 (omega arith) (omega arith))
        λ _ v d.
          Returns.mono
            (write_both_lem v s (after io t d.conn d.cells (left_over a.result a.data_)) cb args
              more (swap io (Attempted-Two io client quiet (swap io h) d)) fits.1
              (omega (arith, d.nodes_room)) (omega (arith, d.jobs_room)))
            λ _ u k. Both-second w v u s t a more d k
