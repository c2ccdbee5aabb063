-- ===== src/Sock/Backlog/Calls.antt =====
-- A sequence of calls of `ixfd_commonsock_write`.
use iojxd.Prelude.{
  ℕ, ◌+◌, ◌-◌, ◌<◌, ◌≤◌, ◌^◌, ◌≡◌, ◌∙◌, refl, ap, true, false, Bool-cases, inl, inr, some, List, [],
  ◌∷◌, ◌++◌, append_assoc, append-nil, arith, length, take, ltb, leb, subst, sym,
}
use iojxd.Memory.{Ptr, null, pure, ◌>>◌, ok, is_null}
use iojxd.Memory.Cells.{Holds}
use iojxd.Memory.Returns
use iojxd.Memory.Returns.{Returns, returns}
use iojxd.Ev.{Watchers}
use iojxd.CycQueue.Ring.{Cells, IsRing}
use iojxd.Sock.State.{Handler, Target, Sock, Conn, wrote, World, Action, Call}
use iojxd.Sock.Kernel.{Written, taken, failed, to_size, sent}
use iojxd.Sock.Write.{unwritten, call_context, write}
use iojxd.Sock.Access.{get_conn-ok}
use iojxd.Sock.Sending.{launched_unless, Queued, queue_rest-Queued}
use iojxd.Sock.Backlog.Apart.{Apart, Apart-same, Queued-Apart}
use iojxd.Sock.Backlog.{
  moved_sock, Kept-none, Waiting, Waiting-filled, Launched, Launched-true, Backlog, Same,
  launched-Same, launched-runs, Attempt, Fits, left_over, left_overs, told, unwritten-drop, Kept,
}

module _ (io : Watchers Handler Target) where
  -- The calls one after the other, with one callback.
  abbrev pub write_all :
      (Call → Action io.W (Unit {0})) → Ptr → Ptr → Ptr → List Attempt → Action io.W (Unit {0})
  write_all client ctx cb args [] = pure tt
  write_all client ctx cb args (a ∷ more) = do
    write io client ctx a.data_ a.result cb args
    write_all client ctx cb args more

  module _ (client : Call → Action io.W (Unit {0}))
      (quiet : (k : Call) (w : World io.W) → client k w ≡ ok tt w) where
    call-quiet :
        (cb ctx args : Ptr) (w : World io.W) → call_context io client cb ctx (some args) w ≡ ok tt w
    unfolding call_context
    call-quiet cb ctx args w = elim (Bool-cases (is_null cb)) [
      | inl e ↦ rw e refl
      | inr e ↦ rw e (quiet _ w)
    ]

    -- What one call leaves.
    pub record Attempted (w : World io.W) (ctx ph : Ptr) (c : Conn io.W) (xs : Cells)
        (bs : List (List ℕ)) (a : Attempt) (v : World io.W) : Type 0 where
      pub cells : Cells
      pub conn : Conn io.W
      pub backlog : Backlog io v ctx ph conn cells (bs ++ left_over a.result a.data_)
      pub same : Same io c conn
      pub trace : v.trace ≡ wrote c.fd (sent a.result a.data_) ∷ w.trace
      pub socks : v.socks ≡ w.socks
      pub nodes_room : w.nodes.room ≤ v.nodes.room + 1
      pub jobs_room : w.jobs.room ≤ v.jobs.room + 1
      pub apart : Apart io w ctx ph c xs cells v

    write-whole :
        (w : World io.W) (ctx ph : Ptr) (c : Conn io.W) (xs : Cells) (bs : List (List ℕ))
        (a : Attempt) (cb args : Ptr)
        → Backlog io w ctx ph c xs bs
        → leb (length a.data_) (to_size a.result) ≡ true
        → left_over a.result a.data_ ≡ []
        → Returns
            (λ _ v. Attempted w ctx ph c xs bs a v)
            (write io client ctx a.data_ a.result cb args w)
    unfolding write
    write-whole w ctx ph c xs bs a cb args at whole none_left =
        let v = record w { trace = wrote c.fd (sent a.result a.data_) ∷ w.trace } in
        rw (get_conn-ok w at.conn, whole, call-quiet cb ctx args v)
          (returns (record {
            cells = xs;
            conn = c;
            backlog = record {
              ring = at.ring;
              waiting =
                  subst (Waiting w.jobs xs) (sym (ap (λ l. bs ++ l) none_left ∙ append-nil bs))
                    at.waiting;
              conn = at.conn;
              launched =
                  subst (Launched c.write_launched)
                    (sym (ap (λ l. bs ++ l) none_left ∙ append-nil bs)) at.launched;
              runs = at.runs;
              start = at.start;
            };
            same = launched-Same io true c;
            trace = refl;
            socks = refl;
            nodes_room = omega arith;
            jobs_room = omega arith;
            apart = Apart-same io w ctx ph c xs _;
          }))

    Queued-Attempted :
        (w : World io.W) (ctx ph : Ptr) (c : Conn io.W) (xs : Cells) (bs : List (List ℕ)) (n : ℕ)
        (data_ : List ℕ) (cb : Ptr)
        → Backlog io w ctx ph c xs bs
        → ltb n (length data_) ≡ true
        → null < w.nodes.room
        → null < w.jobs.room
        → (v : World io.W)
        → Queued io
            (record w { trace = wrote c.fd (take n data_) ∷ w.trace })
            ctx
            ph
            c
            xs
            cb
            (unwritten n data_)
            v
        → Attempted w ctx ph c xs bs (record { data_ = data_; result = taken n }) v
    unfolding sent
    Queued-Attempted w ctx ph c xs bs n data_ cb at less node_room job_room v q =
        let c' = launched_unless c.write_launched io c in
        let same = launched-Same io c.write_launched c in
        let (flag, active) = launched-runs io c.write_launched c refl at.runs in
        let left : left_over (taken n) data_ ≡ unwritten n data_ ∷ [] =
          rw (less, unwritten-drop n data_) in
        let cells = xs ++ (w.nodes.brk, w.jobs.brk) ∷ [] in
        let brk : v.jobs.brk ≡ w.jobs.brk + 1 = ap (λ g. g.brk) q.jobs_now in
        let room : v.jobs.room ≡ w.jobs.room - 1 = ap (λ g. g.room) q.jobs_now in
        record {
          cells = cells;
          conn = c';
          backlog = record {
            ring = subst (λ p. IsRing v.nodes p ph cells) (sym same.queue) q.ring;
            waiting =
                subst (λ l. Waiting v.jobs cells (bs ++ l)) (sym left)
                  (subst (λ g. Waiting g cells (bs ++ unwritten n data_ ∷ [])) (sym q.jobs_now)
                    (Waiting-filled w.jobs (unwritten n data_) cb at.start xs bs w.nodes.brk
                      at.waiting));
            conn = q.conn;
            launched =
                subst (λ b. Launched b (bs ++ left_over (taken n) data_)) (sym flag)
                  (Launched-true _);
            runs = λ _. active;
            start = omega (arith, brk, at.start);
          };
          same = same;
          trace = q.silent;
          socks = q.socks_now;
          nodes_room = omega (arith, q.node_room);
          jobs_room = omega (arith, room);
          apart = Queued-Apart io w v ctx ph c xs cb n data_ q;
        }

    pub write-Attempted :
        (w : World io.W) (ctx ph : Ptr) (c : Conn io.W) (s : Sock io.W) (xs : Cells)
        (bs : List (List ℕ)) (data_ : List ℕ) (r : Written) (cb args : Ptr)
        → Backlog io w ctx ph c xs bs
        → Holds w.socks c.sock s
        → length data_ < 2 ^ 64
        → null < w.nodes.room
        → null < w.jobs.room
        → Returns
            (λ _ v. Attempted w ctx ph c xs bs (record { data_ = data_; result = r }) v)
            (write io client ctx data_ r cb args w)
    unfolding write to_size sent
    write-Attempted w ctx ph c s xs bs data_ failed cb args at sock small node_room job_room =
        write-whole w ctx ph c xs bs (record { data_ = data_; result = failed }) cb args at
          (ground (arith, small)) refl
    write-Attempted w ctx ph c s xs bs data_ (taken n) cb args at sock small node_room job_room =
        elim (Bool-cases (ltb n (length data_))) [
          | inl less ↦
              (let short : leb (length data_) n ≡ false = ground (arith, less) in
                let w' = record w { trace = wrote c.fd (take n data_) ∷ w.trace } in
                rw (get_conn-ok w at.conn, short)
                  (Returns.bind
                    (queue_rest-Queued io client w' at.conn sock at.ring cb (unwritten n data_)
                      node_room job_room at.start)
                    λ _ v q. returns (
                      Queued-Attempted w ctx ph c xs bs n data_ cb at less node_room job_room v q)))
          | inr all ↦
              write-whole w ctx ph c xs bs (record { data_ = data_; result = taken n }) cb args at
                (ground (arith, all)) (rw all refl)
        ]

    pub Kept-after :
        (w v u : World io.W) (ctx ph : Ptr) (c : Conn io.W) (xs : Cells) (bs : List (List ℕ))
        (a : Attempt) (more : List Attempt)
        → (one : Attempted w ctx ph c xs bs a v)
        → Kept io v ctx ph one.conn (bs ++ left_over a.result a.data_) more u
        → Kept io w ctx ph c bs (a ∷ more) u
    Kept-after w v u ctx ph c xs bs a more one k = record {
      cells = k.cells;
      conn = k.conn;
      backlog =
          subst (Backlog io u ctx ph k.conn k.cells)
            (append_assoc bs (left_over a.result a.data_) (left_overs more)) k.backlog;
      same = record {
        sock = k.same.sock ∙ one.same.sock;
        fd = k.same.fd ∙ one.same.fd;
        queue = k.same.queue ∙ one.same.queue;
      };
      trace = k.trace ∙ ap (λ d. told d more v.trace) one.same.fd ∙ ap (told c.fd more) one.trace;
    }

    -- Over any number of calls of `write`, of data shorter than 2 ^ 64, on a connection that has
    -- its socket and whose backlog is in order, with memory at hand and callbacks that leave the
    -- world alone: `write` returns each time, the backlog stays in order, what the system calls
    -- did not take waits in the order of the calls, behind what waited before, and the write
    -- watcher runs if anything waits. A call that failed leaves nothing. The kernel is given the
    -- data of each call at once, also while data of earlier calls wait.
    pub write_all-Kept :
        (w : World io.W) (ctx ph : Ptr) (c : Conn io.W) (s : Sock io.W) (xs : Cells)
        (bs : List (List ℕ)) (cb args : Ptr) (calls : List Attempt)
        → Backlog io w ctx ph c xs bs
        → Holds w.socks c.sock s
        → Fits calls
        → length calls ≤ w.nodes.room
        → length calls ≤ w.jobs.room
        → Returns (λ _ v. Kept io w ctx ph c bs calls v) (write_all client ctx cb args calls w)
    write_all-Kept w ctx ph c s xs bs cb args [] at sock fits node_room job_room =
        returns (Kept-none io w ctx ph c xs bs at)
    write_all-Kept w ctx ph c s xs bs cb args (a ∷ more) at sock fits node_room job_room =
        Returns.bind
          (write-Attempted w ctx ph c s xs bs a.data_ a.result cb args at sock fits.0 (omega arith)
            (omega arith))
          λ _ v one.
            Returns.mono
              (write_all-Kept v ctx ph one.conn s one.cells (bs ++ left_over a.result a.data_) cb
                args more one.backlog (moved_sock io w v c one.conn s one.socks one.same.sock sock)
                fits.1 (omega (arith, one.nodes_room)) (omega (arith, one.jobs_room)))
              λ _ u k. Kept-after w v u ctx ph c xs bs a more one k
