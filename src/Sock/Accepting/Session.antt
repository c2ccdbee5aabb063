-- ===== src/Sock/Accepting/Session.antt =====
-- Two connections from their acceptance on.
use iojxd.Prelude.{
  ℤ, ◌+◌, ◌<◌, ◌≤◌, ◌≡◌, refl, ap, fun_ext, Bool, Bool-cases, inl, inr, some, List, [], ◌∷◌, arith,
  length, ◌==◌, sym, subst,
}
use iojxd.Memory.{Ptr, null, Heap, ok, is_null, ◌>>◌, write as write_cell}
use iojxd.Memory.Cells.{Holds, with_cell}
use iojxd.Memory.Returns
use iojxd.Memory.Returns.{Returns, returns}
use iojxd.Ev.{Watchers}
use iojxd.CycQueue.Ring.{IsRing}
use iojxd.Sock.State.{Handler, Target, Sock, Conn, World, Action, Call}
use iojxd.Sock.Write.{call_context}
use iojxd.Sock.Backlog.{Backlog, Attempt}
use iojxd.Sock.Backlog.Pair.{Side, Two}
use iojxd.Sock.Backlog.Mixed.{AllFit, Both, write_both, write_both_lem}
use iojxd.Sock.Accepting.Newcomer.{Serves, Minds}
use iojxd.Sock.Accepting.Many.{accept_all, accept_all_lem}

with_cell_same :
    {A : Type 0} {h : Heap A} {p : Ptr} {a : A} → Holds h p a → with_cell h p (some a) ≡ h
unfolding write_cell
with_cell_same {h = h} {p = p} {a = a} at = ap (λ f. record h { cell = f }) (fun_ext same)
  where
    same : (q : Ptr) → write_cell h.cell p (some a) q ≡ h.cell q
    same q = elim (Bool-cases (q == p)) [ inl e ↦ ground (arith, at.holds) | inr e ↦ rw e refl ]

module _ (io : Watchers Handler Target) (sock : Ptr) (client : Call → Action io.W (Unit {0}))
    (quiet : (k : Call) (w : World io.W) → client k w ≡ ok tt w) where
  quiet-Minds : (s : Sock io.W) → Minds io sock client s
  unfolding call_context
  quiet-Minds s v a c held = elim (Bool-cases (is_null s.cb_accept)) [
    | inl e ↦ rw e (returns (c, unchanged, refl, refl, refl, refl, refl))
    | inr e ↦ rw (e, quiet _ v) (returns (c, unchanged, refl, refl, refl, refl, refl))
  ]
    where
      unchanged : v ≡ record v { conns = with_cell v.conns a (some c) }
      unchanged = ap (λ h. record v { conns = h }) (sym (with_cell_same held))

  -- A connection of the crowd without anything that waits.
  abbrev pub side : Ptr → Ptr → Conn io.W → Side io
  side a q c = record { ctx = a; ph = q + 1; conn = c; cells = []; waits = [] }

  fresh-Backlog :
      (w : World io.W) (a q : Ptr) (fd : ℤ) (c : Conn io.W)
      → Holds w.conns a c
      → Serves io sock fd q c
      → IsRing w.nodes q (q + 1) []
      → null < w.jobs.brk
      → Backlog io w a (q + 1) c [] []
  fresh-Backlog w a q fd c held serves ring start = record {
    ring = subst (λ p. IsRing w.nodes p (q + 1) []) (sym serves.own_queue) ring;
    waiting = tt;
    conn = held;
    launched = tt;
    runs = λ e. absurd (ground (arith, serves.unlaunched, e));
    start = start;
  }

  fresh-Two :
      (w : World io.W) {s : Sock io.W} (a q : Ptr) (fd fd' : ℤ) (c c' : Conn io.W)
      → Holds w.conns a c
      → Serves io sock fd q c
      → IsRing w.nodes q (q + 1) []
      → Holds w.conns (a + 1) c'
      → Serves io sock fd' (q + 2) c'
      → IsRing w.nodes (q + 2) (q + 2 + 1) []
      → null < w.jobs.brk
      → Holds w.socks sock s
      → Two io w (side a q c) (side (a + 1) (q + 2) c')
  fresh-Two w {s} a q fd fd' c c' held serves ring held' serves' ring' start at = record {
    one = fresh-Backlog w a q fd c held serves ring start;
    two = fresh-Backlog w (a + 1) (q + 2) fd' c' held' serves' ring' start;
    other = ground arith;
    apart = λ p i. ground (arith, i, serves.own_queue, serves'.own_queue);
    sock_one = (s, subst (λ p. Holds w.socks p s) (sym serves.owner) at);
    sock_two = (s, subst (λ p. Holds w.socks p s) (sym serves'.owner) at);
  }

  -- The two connections that a socket accepts one after the other, and then any calls of `write` on
  -- them.
  pub record Served (w : World io.W) (fd fd' : ℤ) (calls : List (Bool × Attempt)) (u : World io.W)
      : Type 0 where
    pub accepted : World io.W
    pub conn_one : Conn io.W
    pub conn_two : Conn io.W
    pub serves_one : Serves io sock fd w.nodes.brk conn_one
    pub serves_two : Serves io sock fd' (w.nodes.brk + 2) conn_two
    pub told : accepted.trace ≡ w.trace
    pub both :
        Both io client quiet accepted
          (side w.conns.brk w.nodes.brk conn_one)
          (side (w.conns.brk + 1) (w.nodes.brk + 2) conn_two)
          calls
          u

  -- From acceptance on two connections of a socket are served side by side: after both are
  -- accepted, whatever `accept` returned, any interleaving of calls of `write` on the two, of data
  -- shorter than 2 ^ 64, returns each time, and on each of them just what its own calls left over
  -- waits, in their order. The kernel is told of nothing but these calls, each over the descriptor
  -- of its connection. There is memory at hand, and the callbacks leave the world alone.
  pub session_lem :
      {s : Sock io.W} (w : World io.W) (fd fd' : ℤ) (cb args : Ptr) (calls : List (Bool × Attempt))
      → Holds w.socks sock s
      → null < w.conns.brk
      → null < w.nodes.brk
      → null < w.jobs.brk
      → 2 ≤ w.conns.room
      → length calls + 4 ≤ w.nodes.room
      → length calls ≤ w.jobs.room
      → AllFit calls
      → Returns
          (λ _ u. Served w fd fd' calls u)
          ((do
            accept_all io sock client (fd ∷ fd' ∷ [])
            write_both io client quiet w.conns.brk (w.conns.brk + 1) cb args calls)
            w)
  session_lem {s = s} w fd fd' cb args calls at start node_start job_start room node_room job_room
        fits =
      Returns.bind
        (accept_all_lem io sock client (fd ∷ fd' ∷ []) w at (quiet-Minds s) start node_start room
          (omega arith))
        λ _ v (crowd, kept, left).
          let one = crowd.0 in
          let two = crowd.1.0 in
          let (c, held, serves, ring) = one in
          let (c', held', serves', ring') = two in
          let jobs : v.jobs ≡ w.jobs = kept.jobs in
          let owner = subst (λ h. Holds h sock s) (sym kept.socks) at in
          let begun = subst (λ h. null < h.brk) (sym jobs) job_start in
          let job_left = subst (λ h. length calls ≤ h.room) (sym jobs) job_room in
          Returns.mono
            (write_both_lem io client quiet v (side w.conns.brk w.nodes.brk c)
              (side (w.conns.brk + 1) (w.nodes.brk + 2) c') cb args calls
              (fresh-Two v w.conns.brk w.nodes.brk fd fd' c c' held serves ring held' serves' ring'
                begun owner)
              fits (omega arith) job_left)
            λ _ u k. record {
              accepted = v;
              conn_one = c;
              conn_two = c';
              serves_one = serves;
              serves_two = serves';
              told = kept.trace;
              both = k;
            }
