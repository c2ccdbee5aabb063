-- ===== src/Sock/Sample.antt =====
-- A listening socket with one connection, in a concrete world.
use iojxd.Prelude.{refl, pos, true, some, none, [], ◌∷◌, arith}
use iojxd.Memory.{Heap, ok, write}
use iojxd.Memory.Cells.{Holds}
use iojxd.Ev.{Watchers}
use iojxd.Ev.Model.{plain_watchers}
use iojxd.CycQueue.{Node, node}
use iojxd.CycQueue.Ring.{IsRing}
use iojxd.Sock.State.{Handler, Target, tcp, Sock, Conn, WriteJob, World, Action, Call}
use iojxd.Sock.Conn.{zero_conn, freectx}
use iojxd.Sock.Tcp.{zero_sock}

abbrev pub libev : Watchers Handler Target
libev = plain_watchers Handler Target

-- Callbacks that do nothing.
abbrev pub quiet : Call → Action libev.W (Unit {0})
quiet call w = ok tt w

-- Callbacks that free the connection 1.
abbrev pub frees : Call → Action libev.W (Unit {0})
frees call = freectx 3 1

abbrev pub one_cell : {A : Type 0} → A → Heap A
one_cell a = record { brk = 2; room = 9; cell = write (λ q. none) 1 (some a) }

abbrev pub new_sock : Sock libev.W
new_sock = record zero_sock { cb_close = 40; cb_accept = 41; default_ctx = 1 }

abbrev pub a_sock : Sock libev.W
a_sock = record new_sock { fd = pos 5; type = tcp }

abbrev pub a_conn : Conn libev.W
a_conn = record (zero_conn libev) {
  sock = 1;
  fd = pos 7;
  buf_write = 1;
  size_bufread = 4096;
  buf_read = some 4097;
  cb_read = 42;
  active = true;
}

-- Entry 1 and placeholder 2, with no job queued and with the job 1 in node 3.
abbrev pub no_jobs : Heap Node
no_jobs = record {
  brk = 4;
  room = 9;
  cell = write (write (λ q. none) 1 (some (node none (some 2)))) 2 (some (node none (some 2)));
}

abbrev pub one_job : Heap Node
one_job = record {
  brk = 4;
  room = 9;
  cell =
      write (write (write (λ q. none) 1 (some (node none (some 3)))) 2 (some (node none (some 3))))
        3 (some (node (some 1) (some 2)));
}

abbrev pub rest : WriteJob
rest = record {
  bytes = 8 ∷ 9 ∷ [];
  len_remain = 2;
  cb = 43;
  data_org = some (8 ∷ 9 ∷ []);
  cb_args = none;
}

abbrev pub world : Heap Node → World libev.W
world h = record {
  socks = one_cell a_sock;
  conns = one_cell a_conn;
  nodes = h;
  jobs = one_cell rest;
  connects = record { brk = 1; room = 9; cell = λ q. none };
  trace = [];
}

pub no_jobs-IsRing : IsRing no_jobs 1 2 []
unfolding write
no_jobs-IsRing = record {
  tag = none;
  junk = none;
  points = refl;
  links = refl;
  distinct = (refl, (refl, tt));
  below = omega arith;
}

pub one_job-IsRing : IsRing one_job 1 2 ((3, 1) ∷ [])
unfolding write
one_job-IsRing = record {
  tag = none;
  junk = none;
  points = refl;
  links = (refl, refl);
  distinct = (refl, (refl, (refl, tt)));
  below = omega arith;
}

pub first-Holds : {A : Type 0} (a : A) → Holds (one_cell a) 1 a
unfolding write
first-Holds a = record { above = omega arith; holds = refl }
