-- ===== src/Sock/Backlog/Turns.antt =====
-- Calls of `ixfd_commonsock_write` and turns of the write watcher of a connection, in any order.
use iojxd.Prelude.{
  ℕ, ◌<◌, ◌^◌, ◌≡◌, ◌∙◌, refl, ap, Bool, false, List, [], ◌∷◌, ◌++◌, arith, length, subst, sym,
}
use iojxd.Memory.{Ptr, null, Run, ok, err}
use iojxd.Memory.Cells.{Holds, Holds-self}
use iojxd.Memory.Returns.{Returns, returns, Fails, After}
use iojxd.Ev.{Watchers}
use iojxd.CycQueue.Ring.{Cells}
use iojxd.Sock.State.{Handler, Target, Sock, Conn, World, Action, Call}
use iojxd.Sock.Kernel.{Written}
use iojxd.Sock.Write.{write, on_writable}
use iojxd.Sock.Resuming.{on_writable_idle, on_writable-Fails}
use iojxd.Sock.Backlog.{Backlog, Same, Attempt, Kept, left_over, told, moved_sock, Kept-none}
use iojxd.Sock.Backlog.Calls.{write-Attempted, Kept-after}

-- What a run that returned has left.
Returns-state :
    {S A : Type 0} {P : A → S → Type 0} {r : Run S A} {a : A} {s : S}
    → Returns P r
    → r ≡ ok a s
    → P a s
Returns-state {P = P} (returns p) e = subst (After P) e p

Fails-ok : {S A : Type 0} {r : Run S A} {a : A} {s : S} → Fails r → r ≡ ok a s → ⊥
Fails-ok f e = subst Fails e f

module _ (io : Watchers Handler Target) (client : Call → Action io.W (Unit {0})) (ctx : Ptr) where
  -- A run of calls and of turns, none of which faults, from `w` to `v`. A call finds memory at
  -- hand.
  pub data Steps : World io.W → List Attempt → World io.W → Type 0 where
    stay : {w : World io.W} → Steps w [] w
    call :
        {w v u : World io.W} (data_ : List ℕ) (r : Written) (cb args : Ptr) (out : Bool)
        {more : List Attempt}
        → length data_ < 2 ^ 64
        → null < w.nodes.room
        → null < w.jobs.room
        → write io client ctx data_ r cb args w ≡ ok out v
        → Steps v more u
        → Steps w (record { data_ = data_; result = r } ∷ more) u
    turn :
        {w v u : World io.W} (rs : List Written) {more : List Attempt}
        → on_writable io client rs ctx w ≡ ok tt v
        → Steps v more u
        → Steps w more u

  -- What a turn leaves.
  record Turned (ph : Ptr) (w : World io.W) (c : Conn io.W) (bs : List (List ℕ)) (v : World io.W)
      : Type 0 where
    cells : Cells
    conn : Conn io.W
    backlog : Backlog io v ctx ph conn cells bs
    same : Same io c conn
    trace : v.trace ≡ w.trace
    socks : v.socks ≡ w.socks

  abbrev idle : Conn io.W → Conn io.W
  idle c = record c { write_launched = false; event_write = io.stop c.event_write }

  abbrev state_of : World io.W → Run (World io.W) (Unit {0}) → World io.W
  state_of w (ok a v) = v
  state_of w (err e) = w

  on_writable-Turned :
      (w v : World io.W) (ph : Ptr) (c : Conn io.W) (xs : Cells) (bs : List (List ℕ))
      (rs : List Written)
      → Backlog io w ctx ph c xs bs
      → on_writable io client rs ctx w ≡ ok tt v
      → Turned ph w c bs v
  on_writable-Turned w v ph c [] [] rs at e =
      let result = sym (on_writable_idle io client w rs at.conn at.ring) ∙ e in
      subst (Turned ph w c []) (ap (state_of w) result) (record {
        cells = [];
        conn = idle c;
        backlog = record {
          ring = at.ring;
          waiting = tt;
          conn = Holds-self w.conns at.conn.above (idle c);
          launched = tt;
          runs = λ e. ground (arith, e);
          start = at.start;
        };
        same = record { sock = refl; fd = refl; queue = refl };
        trace = refl;
        socks = refl;
      })
  on_writable-Turned w v ph c [] (b ∷ bs) rs at e = absurd at.waiting
  on_writable-Turned w v ph c (x ∷ xs) [] rs at e = absurd at.waiting
  on_writable-Turned w v ph c (x ∷ xs) (b ∷ bs) rs at e =
      absurd (Fails-ok (on_writable-Fails io client rs w _ at.conn at.ring at.waiting.0.1) e)

  Turned-Kept :
      {ph : Ptr} {w v u : World io.W} {c : Conn io.W} {bs : List (List ℕ)} {calls : List Attempt}
      → (one : Turned ph w c bs v) → Kept io v ctx ph one.conn bs calls u
      → Kept io w ctx ph c bs calls u
  Turned-Kept {w = w} {v = v} {c = c} {calls = calls} one k = record {
    cells = k.cells;
    conn = k.conn;
    backlog = k.backlog;
    same = record {
      sock = k.same.sock ∙ one.same.sock;
      fd = k.same.fd ∙ one.same.fd;
      queue = k.same.queue ∙ one.same.queue;
    };
    trace = k.trace ∙ ap (λ d. told d calls v.trace) one.same.fd ∙ ap (told c.fd calls) one.trace;
  }

  -- In any order of calls of `write`, of data shorter than 2 ^ 64 and with memory at hand, and
  -- turns of the write watcher, none of which faults, on a connection that has its socket and
  -- whose backlog is in order, with callbacks that leave the world alone: the backlog stays in
  -- order, and the write watcher runs whenever data wait. No turn sends any of it: all that
  -- system calls did not take, and that was not lost with a failed one, still waits at the end,
  -- in the order of the calls.
  pub steps-Kept :
      (quiet : (k : Call) (w : World io.W) → client k w ≡ ok tt w) (w u : World io.W) (ph : Ptr)
      (c : Conn io.W) (s : Sock io.W) (xs : Cells) (bs : List (List ℕ)) (calls : List Attempt)
      → Steps w calls u
      → Backlog io w ctx ph c xs bs
      → Holds w.socks c.sock s
      → Kept io w ctx ph c bs calls u
  steps-Kept quiet w _ ph c s xs bs _ stay at sock = Kept-none io w ctx ph c xs bs at
  steps-Kept quiet w u ph c s xs bs _
        (call {v = v} data_ r cb args out {more} small node_room job_room e steps) at sock =
      let one =
        Returns-state
          (write-Attempted io client quiet w ctx ph c s xs bs data_ r cb args at sock small
            node_room job_room)
          e in
      Kept-after io client quiet w v u ctx ph c xs bs (record { data_ = data_; result = r }) more
        one
        (steps-Kept quiet v u ph one.conn s one.cells (bs ++ left_over r data_) more steps
          one.backlog (moved_sock io w v c one.conn s one.socks one.same.sock sock))
  steps-Kept quiet w u ph c s xs bs calls (turn {v = v} rs e steps) at sock =
      let one = on_writable-Turned w v ph c xs bs rs at e in
      Turned-Kept one (
        steps-Kept quiet v u ph one.conn s one.cells bs calls steps one.backlog
          (moved_sock io w v c one.conn s one.socks one.same.sock sock))
