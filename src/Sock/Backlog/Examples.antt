-- ===== src/Sock/Backlog/Examples.antt =====
-- Calls and turns in the world of `Sample`.
use iojxd.Prelude.{List, ◌≡◌, Bool, false, some, refl, [], ◌∷◌, arith}
use iojxd.Memory.{Run, ok}
use iojxd.Memory.Cells.{with_cell, Holds-self}
use iojxd.Memory.Returns.{Returns, returns}
use iojxd.Sock.State.{World}
use iojxd.Sock.Write.{write}
use iojxd.Sock.Sending.{write_partial}
use iojxd.Sock.Resuming.{on_writable_idle}
use iojxd.Sock.Backlog.Turns.{Steps, stay, call, turn, steps-Kept}
use iojxd.Sock.Kernel.{taken}
use iojxd.Sock.Backlog.{Backlog, Attempt, Kept}
use iojxd.Sock.Sample.{
  one_cell, libev, quiet, a_sock, a_conn, no_jobs, world, no_jobs-IsRing, first-Holds,
}

in_order : Backlog libev (world no_jobs) 1 2 a_conn [] []
in_order = record {
  ring = no_jobs-IsRing;
  waiting = tt;
  conn = first-Holds a_conn;
  launched = tt;
  runs = λ e. ground (arith, e);
  start = omega arith;
}

-- A turn with nothing queued, and then the first of the calls.
abbrev turned : World libev.W
turned = record (world no_jobs) {
  conns = with_cell (one_cell a_conn) 1 (
      some (record a_conn { write_launched = false; event_write = libev.stop a_conn.event_write }));
}

abbrev one : List Attempt
one = record { data_ = 4 ∷ 5 ∷ 6 ∷ []; result = taken 2 } ∷ []

run_of :
    {S A : Type 0} {P : A → S → Type 0} {r : Run S A}
    → Returns P r
    → (a : A) × (s : S) × (r ≡ ok a s)
run_of (returns {a = a} {s = s} p) = (a, s, refl)

called :
    (out : Bool) × (v : World libev.W) × (write libev quiet 1
        (4 ∷ 5 ∷ 6 ∷ [])
        (taken 2)
        43
        44
        turned
      ≡ ok out v)
called = run_of (
    write_partial libev quiet turned (Holds-self (one_cell a_conn) (omega arith) _) (4 ∷ 5 ∷ 6 ∷ [])
      43 44 2 (first-Holds a_sock) no_jobs-IsRing (omega arith) (omega arith) (omega arith)
      (omega arith))

stepped : Steps libev quiet 1 (world no_jobs) one called.1
stepped =
    turn (taken 1 ∷ [])
      (on_writable_idle libev quiet (world no_jobs) (taken 1 ∷ []) (first-Holds a_conn)
        no_jobs-IsRing)
      (call (4 ∷ 5 ∷ 6 ∷ []) (taken 2) 43 44 called.0 (omega arith) (omega arith) (omega arith)
        called.2 stay)

steps-Kept_example : Kept libev (world no_jobs) 1 2 a_conn [] one called.1
steps-Kept_example =
    steps-Kept libev quiet 1 (λ k w. refl) (world no_jobs) called.1 2 a_conn a_sock [] [] one
      stepped in_order (first-Holds a_sock)
