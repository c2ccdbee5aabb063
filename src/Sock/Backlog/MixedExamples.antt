-- ===== src/Sock/Backlog/MixedExamples.antt =====
-- Two connections in one world, with calls on them in turn.
use iojxd.Prelude.{pos, refl, Bool, true, false, some, none, List, [], ◌∷◌, arith}
use iojxd.Memory.{Heap, write}
use iojxd.Memory.Returns.{Returns}
use iojxd.CycQueue.{Node, node}
use iojxd.Sock.State.{Conn, World}
use iojxd.Sock.Kernel.{taken, failed}
use iojxd.Sock.Sample.{libev, quiet, one_cell, a_sock, a_conn, no_jobs, world, first-Holds}
use iojxd.Sock.Backlog.{Attempt}
use iojxd.Sock.Backlog.Pair.{Side, Two}
use iojxd.Sock.Backlog.Mixed.{Both, write_both, write_both_lem}

abbrev b_conn : Conn libev.W
b_conn = record a_conn { fd = pos 8; buf_write = 3 }

abbrev two_queues : Heap Node
two_queues = record {
  brk = 5;
  room = 9;
  cell = write (write no_jobs.cell 3 (some (node none (some 4)))) 4 (some (node none (some 4)));
}

abbrev both : World libev.W
both = record (world two_queues) {
  conns = record { brk = 3; room = 9; cell = write (one_cell a_conn).cell 2 (some b_conn) };
}

abbrev first : Side libev
first = record { ctx = 1; ph = 2; conn = a_conn; cells = []; waits = [] }

abbrev second : Side libev
second = record { ctx = 2; ph = 4; conn = b_conn; cells = []; waits = [] }

side_by_side : Two libev both first second
unfolding write
side_by_side = record {
  one = record {
    ring = record {
      tag = none;
      junk = none;
      points = refl;
      links = refl;
      distinct = (refl, (refl, tt));
      below = omega arith;
    };
    waiting = tt;
    conn = record { above = omega arith; holds = refl };
    launched = tt;
    runs = λ e. ground (arith, e);
    start = omega arith;
  };
  two = record {
    ring = record {
      tag = none;
      junk = none;
      points = refl;
      links = refl;
      distinct = (refl, (refl, tt));
      below = omega arith;
    };
    waiting = tt;
    conn = record { above = omega arith; holds = refl };
    launched = tt;
    runs = λ e. ground (arith, e);
    start = omega arith;
  };
  other = refl;
  apart = λ a i. ground (arith, i);
  sock_one = (a_sock, first-Holds a_sock);
  sock_two = (a_sock, first-Holds a_sock);
}

abbrev in_turn : List (Bool × Attempt)
in_turn =
    (true, record { data_ = 4 ∷ 5 ∷ 6 ∷ []; result = taken 2 })
    ∷ (false, record { data_ = 7 ∷ []; result = taken 0 })
    ∷ (true, record { data_ = 8 ∷ 9 ∷ []; result = taken 1 })
    ∷ (false, record { data_ = 7 ∷ 7 ∷ []; result = failed })
    ∷ []

write_both_lem_example :
    Returns
      (λ _ v. Both libev quiet (λ k w. refl) both first second in_turn v)
      (write_both libev quiet (λ k w. refl) 1 2 43 44 in_turn both)
write_both_lem_example =
    write_both_lem libev quiet (λ k w. refl) both first second 43 44 in_turn side_by_side
      (omega arith, (omega arith, (omega arith, (omega arith, tt)))) (omega arith) (omega arith)
