-- ===== src/Sock/Examples.antt =====
-- The theorems on connections, and runs of writes, in the world of `Sample`.
use iojxd.Prelude.{◌≡◌, refl, pos, some, none, [], ◌∷◌, arith}
use iojxd.Memory.{malloc, ok, err, bad_access, write, load, put, store, free, ◌>>◌}
use iojxd.Memory.Returns.{Returns, returns}
use iojxd.CycQueue.{
  free_queue, drain, check_entry, is_empty, get_next, get_value, front, dequeue, enqueue, set_value,
  set_next,
}
use iojxd.Sock.State.{
  get_conn, get_job, set_conn, get_sock, set_job, on_context, on_read, on_failed, wrote, closed,
  Call, Action,
}
use iojxd.Sock.Kernel.{taken, bytes, Received, to_size, sent}
use iojxd.Sock.Conn.{freectx}
use iojxd.Sock.Write
use iojxd.Sock.Write.{call_context, on_writable}
use iojxd.Sock.Read.{on_readable}
use iojxd.Memory.Returns.{Fails, After}
use iojxd.Sock.Resuming.{on_writable-Fails}
use iojxd.Sock.Reading.{read_all, stream_lem, at_end-Fails}
use iojxd.Memory.Cells.{with_cell}
use iojxd.Sock.Ending.{shut}
use iojxd.Sock.Sample.{
  one_cell, libev, quiet, frees, a_sock, a_conn, no_jobs, one_job, rest, world, one_job-IsRing,
  first-Holds,
}

-- The loop on the two bytes of `rest`: it sends them, in one turn or in two, and faults.
write_cb_faults :
    (on_writable libev quiet (taken 2 ∷ []) 1 (world one_job) ≡ err bad_access)
    × (on_writable libev quiet (taken 1 ∷ taken 1 ∷ []) 1 (world one_job) ≡ err bad_access)
unfolding on_writable Write.write_loop Write.write_front Write.finish_job Write.keep_job
    call_context Write.free_block front dequeue check_entry is_empty get_next get_value set_next
    get_conn get_job set_job load put store free write to_size sent
write_cb_faults = (refl, refl)

-- Of two writes the second sends its first byte, 7, before the rest of the first, 5 and 6.
second_write_overtakes :
    Returns
      (λ out v. v.trace ≡ wrote (pos 7) (7 ∷ []) ∷ wrote (pos 7) (4 ∷ []) ∷ [])
      ((do
        Write.write libev quiet 1 (4 ∷ 5 ∷ 6 ∷ []) (taken 1) 43 44
        Write.write libev quiet 1 (7 ∷ 8 ∷ []) (taken 1) 43 44)
        (world no_jobs))
unfolding Write.write Write.queue_rest Write.launch_unless enqueue check_entry get_next get_value
    set_next set_value get_conn set_conn get_sock set_job malloc load put store write to_size sent
second_write_overtakes = returns refl

on_writable-Fails_example :
    Fails (on_writable libev quiet (taken 1 ∷ taken 1 ∷ []) 1 (world one_job))
on_writable-Fails_example =
    on_writable-Fails libev quiet (taken 1 ∷ taken 1 ∷ []) (world one_job) rest (first-Holds a_conn)
      one_job-IsRing (first-Holds rest)

-- A client that notes what it reads, and the end.
abbrev notes : Call → Action libev.W (Unit {0})
notes (on_read cb ctx none n) v = ok tt v
notes (on_read cb ctx (some bs) n) v = ok tt (record v { trace = wrote (pos n) bs ∷ v.trace })
notes (on_context cb ctx args) v = ok tt (record v { trace = closed (pos 9) ∷ v.trace })
notes (on_failed cb sock args) v = ok tt v

-- Two pieces with an error between them.
stream_lem_example :
    read_all libev notes 1
      (bytes (4 ∷ 5 ∷ []) ∷ Received.failed ∷ bytes (6 ∷ []) ∷ bytes [] ∷ [])
      (world no_jobs)
    ≡ ok tt (record (world no_jobs) {
      conns = with_cell (one_cell a_conn) 1 (some (shut libev a_conn));
      trace =
          closed (pos 7)
          ∷ closed (pos 9)
          ∷ wrote (pos 1) (6 ∷ [])
          ∷ wrote (pos 2) (4 ∷ 5 ∷ [])
          ∷ [];
    })
stream_lem_example =
    stream_lem libev notes 1 (λ bs n. wrote (pos n) bs) (closed (pos 9)) 4097 refl
      (record { block = refl; room = omega arith }) refl refl (λ bs n v. refl) (λ v. refl)
      (bytes (4 ∷ 5 ∷ []) ∷ Received.failed ∷ bytes (6 ∷ []) ∷ []) (world no_jobs)
      (first-Holds a_conn) (first-Holds a_sock)
      (omega arith, omega arith, (omega arith, omega arith, tt))

close-frees :
    After (λ _ v. v.conns.cell 1 ≡ none) (frees (on_context 40 1 (some 0)) (world no_jobs))
unfolding freectx free_queue drain check_entry is_empty get_next get_value get_conn load put free
    write
close-frees = refl

at_end-Fails_example : Fails (on_readable libev frees 1 (bytes []) (world no_jobs))
at_end-Fails_example =
    at_end-Fails libev frees (world no_jobs) 4097 (first-Holds a_conn) (first-Holds a_sock) refl
      (record { block = refl; room = omega arith }) refl close-frees
