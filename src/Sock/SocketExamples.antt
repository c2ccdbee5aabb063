-- ===== src/Sock/SocketExamples.antt =====
-- The theorems on sockets in the world of `Sample`.
use iojxd.Prelude.{◌≡◌, refl, pos, minus_one, true, false, some, [], ◌∷◌, arith}
use iojxd.Memory.{ok}
use iojxd.Memory.Returns.{Returns, returns}
use iojxd.Memory.Cells.{Holds, with_cell}
use iojxd.Sock.State.{ev_write, Sock, World, Action, Call, on_failed, closed}
use iojxd.Sock.Conn.{freectx}
use iojxd.Sock.Write.{call_context}
use iojxd.Sock.Tcp.{on_connect, createnconnect, done, in_progress, refused, disconnect}
use iojxd.Sock.Accepting.{Keeps}
use iojxd.Sock.Connecting.{
  pending_args, Marks, Settled, on_connect_joins, pending, connect_watcher, createnconnect_lem,
}
use iojxd.Sock.Ending.{shut, disconnect_lem, Gone, freectx-Gone}
use iojxd.Sock.Sample.{
  libev, quiet, one_cell, new_sock, a_sock, a_conn, no_jobs, one_job, world, one_job-IsRing,
  first-Holds,
}

quiet-Keeps : Keeps libev (world no_jobs) (first-Holds a_sock) minus_one quiet
unfolding call_context
quiet-Keeps v c held = returns (c, held, refl, refl)

disconnect_lem_example :
    disconnect libev 1 (world no_jobs)
    ≡ ok tt (record (world no_jobs) {
      conns = with_cell (one_cell a_conn) 1 (some (shut libev a_conn));
      trace = closed (pos 5) ∷ closed (pos 7) ∷ [];
    })
disconnect_lem_example =
    disconnect_lem libev (world no_jobs) (first-Holds a_conn) (first-Holds a_sock) refl

freectx-Gone_example :
    Returns (λ _ v. Gone (world one_job) 1 1 2 ((3, 1) ∷ []) v) (freectx 2 1 (world one_job))
freectx-Gone_example =
    freectx-Gone 2 (world one_job) ((3, 1) ∷ []) (first-Holds a_conn) one_job-IsRing (omega arith)

-- A socket that connects on the descriptor 5, with its arguments at 1.
abbrev connecting_sock : Sock libev.W
connecting_sock = record new_sock {
  fd = pos 5;
  event_connect = some (libev.start libev.blank);
  connect_args = 1;
}

connecting-Holds : Holds (one_cell connecting_sock) 1 connecting_sock
connecting-Holds = first-Holds connecting_sock

abbrev connecting_world : World libev.W
connecting_world = record (world no_jobs) {
  socks = one_cell connecting_sock;
  connects = one_cell (pending_args libev quiet (world no_jobs) (first-Holds a_sock) 45 46 47);
}

-- A success callback that closes a descriptor of its own.
abbrev marking : Call → Action libev.W (Unit {0})
marking call v = ok tt (record v { trace = closed (pos 9) ∷ v.trace })

marking-Marks : Marks libev marking connecting_world connecting-Holds 45 46 47 (closed (pos 9))
marking-Marks v there = returns (refl, refl, refl, refl)

-- `getsockopt` returns 0, or returns -1 and stores no error.
on_connect_joins_example :
    let Ends =
      Settled libev marking connecting_world connecting-Holds 45 46 47 1
        (libev.start libev.blank)
        (closed (pos 9)) in
    Returns (λ _ v. Ends v) (on_connect libev marking 1 1 (pos 0) 0 true connecting_world)
    × Returns (λ _ v. Ends v) (on_connect libev marking 1 1 minus_one 0 true connecting_world)
on_connect_joins_example =
    on_connect_joins libev marking connecting_world connecting-Holds 45 46 47
      (libev.start libev.blank) (closed (pos 9)) (first-Holds _) refl marking-Marks (omega arith)
      (omega arith) (omega arith) (omega arith) (omega arith)

createnconnect_lem_example :
    let w = record (world no_jobs) { socks = one_cell new_sock } in
    let at = first-Holds new_sock in
    let e = connect_watcher libev marking w at 45 46 47 (pos 5) in
    let after = pending libev marking w at 45 46 47 (pos 5) in
    (createnconnect libev marking 1 (pos 5) done 45 46 47 w ≡ ok tt (after 46 (libev.start e)))
    × (createnconnect libev marking 1 (pos 5) in_progress 45 46 47 w
        ≡ ok tt (after 46 (libev.start e)))
    × (createnconnect libev marking 1 (pos 5) refused 45 46 47 w
        ≡ marking (on_failed 46 1 47) (after 46 e))
    × (createnconnect libev marking 1 (pos 5) refused 45 0 47 w ≡ ok tt (after 0 e))
    × (libev.is_active (libev.start e) ≡ true)
    × (libev.cfg (libev.start e) ≡ some (record { fd = pos 5; interest = ev_write }))
    × (libev.is_active e ≡ false)
createnconnect_lem_example =
    createnconnect_lem libev marking (record (world no_jobs) { socks = one_cell new_sock })
      (first-Holds new_sock) 45 46 47 (pos 5) refl (omega arith) (omega arith) (omega arith)
