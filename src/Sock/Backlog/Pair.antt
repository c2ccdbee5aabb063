-- ===== src/Sock/Backlog/Pair.antt =====
-- Two connections side by side, and a call on one of them.
use iojxd.Prelude.{
  ℕ, ◌≡◌, ◌∙◌, refl, true, false, Bool-cases, inl, inr, List, ◌++◌, arith, subst, ◌==◌,
}
use iojxd.Memory.{Ptr, ok}
use iojxd.Memory.Cells.{has, Below-has, Holds}
use iojxd.Ev.{Watchers}
use iojxd.CycQueue.Ring.{Cells, footprint}
use iojxd.Sock.State.{Handler, Target, Sock, Conn, World, Action, Call}
use iojxd.Sock.Backlog.{Backlog, Attempt, left_over, moved_sock}
use iojxd.Sock.Backlog.Calls.{Attempted}
use iojxd.Sock.Backlog.Frame.{Backlog-Apart}

module _ (io : Watchers Handler Target) where
  -- A connection with its placeholder, the nodes of its queue and what waits.
  pub record Side : Type 0 where
    pub ctx : Ptr
    pub ph : Ptr
    pub conn : Conn io.W
    pub cells : Cells
    pub waits : List (List ℕ)

  abbrev pub queue_of : Side → List Ptr
  queue_of s = footprint s.conn.buf_write s.ph s.cells

  -- Two connections, each with its socket and its backlog in order, that share no node.
  pub record Two (w : World io.W) (s t : Side) : Type 0 where
    pub one : Backlog io w s.ctx s.ph s.conn s.cells s.waits
    pub two : Backlog io w t.ctx t.ph t.conn t.cells t.waits
    pub other : (s.ctx == t.ctx) ≡ false
    pub apart : (a : Ptr) → has a (queue_of s) ≡ true → has a (queue_of t) ≡ false
    pub sock_one : (k : Sock io.W) × Holds w.socks s.conn.sock k
    pub sock_two : (k : Sock io.W) × Holds w.socks t.conn.sock k

  pub swap : {w : World io.W} {s t : Side} → Two w s t → Two w t s
  swap {s = s} {t = t} h = record {
    one = h.two;
    two = h.one;
    other = ground (arith, h.other);
    apart = λ a i. elim (Bool-cases (has a (queue_of s))) [
      | inl e ↦ ground (arith, h.apart a e)
      | inr e ↦ e
    ];
    sock_one = h.sock_two;
    sock_two = h.sock_one;
  }

  -- A connection after a call on it.
  abbrev pub after : Side → Conn io.W → Cells → List (List ℕ) → Side
  after s c xs bs = record { ctx = s.ctx; ph = s.ph; conn = c; cells = xs; waits = s.waits ++ bs }

  module _ (client : Call → Action io.W (Unit {0}))
      (quiet : (k : Call) (w : World io.W) → client k w ≡ ok tt w) where
    pub Attempted-Two :
        {w v : World io.W} {s t : Side} {a : Attempt}
        → Two w s t
        → (d : Attempted io client quiet w s.ctx s.ph s.conn s.cells s.waits a v)
        → Two v (after s d.conn d.cells (left_over a.result a.data_)) t
    Attempted-Two {w = w} {v = v} {s = s} {t = t} h d =
        let apart = d.apart in
        let ring = (h.two).ring in
        let swapped = swap h in
        record {
          one = d.backlog;
          two = Backlog-Apart io w v apart h.two swapped.other swapped.apart;
          other = h.other;
          apart = λ p i. elim (Bool-cases (has p (queue_of t))) [
            | inr e ↦ e
            | inl e ↦
                let below = (Below-has w.nodes.brk p (queue_of t) ring.below e).1 in
                let old = apart.queue p below ∙ swapped.apart p e in
                let new = subst (λ q. has p (footprint q s.ph d.cells) ≡ true) d.same.queue i in
                absurd (ground (arith, old, new))
          ];
          sock_one = (
            h.sock_one.0,
            moved_sock io w v s.conn d.conn h.sock_one.0 d.socks d.same.sock h.sock_one.1,
          );
          sock_two = (
            h.sock_two.0,
            moved_sock io w v t.conn t.conn h.sock_two.0 d.socks refl h.sock_two.1,
          );
        }
