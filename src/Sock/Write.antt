-- ===== src/Sock/Write.antt =====
-- `ixfd_commonsock_write` and the callback that goes on with what it could not write.
use iojxd.Prelude.{
  ℕ, ◌-◌, Bool, true, false, Option, none, some, List, [], ◌∷◌, ltb, leb, if◌then◌else◌, length,
  drop,
}
use iojxd.Memory.{
  Ptr, null, bad_access, out_of_fuel, pure, fail, ◌>>=◌, ◌>>◌, is_null, malloc, free as free_cell,
}
use iojxd.CycQueue
use iojxd.Ev.{Watchers}
use iojxd.Sock.State.{
  Handler, Target, Conn, WriteJob, wrote, Action, Call, on_context, conns, nodes, jobs, log,
  get_sock, get_conn, set_conn, get_job, set_job,
}
use iojxd.Sock.Kernel.{Written, to_size, sent}

-- A new `ixfd_sock_write_ctx`.
abbrev pub blank_job : WriteJob
blank_job = record { bytes = []; len_remain = 0; cb = null; data_org = none; cb_args = none }

-- `free((void *) ctx_write->data_org)`
unfoldable pub free_block : {W : Type 0} → Ptr → Option (List ℕ) → Action W (Unit {0})
free_block job none = fail bad_access
free_block job (some block) = do j ← get_job job; set_job job (record j { data_org = none })

-- What is not written yet, when `write` returned `n`.
abbrev pub unwritten : ℕ → List ℕ → List ℕ
unwritten n data_ = if ltb 0 n then drop n data_ else data_

module _ (io : Watchers Handler Target) (client : Call → Action io.W (Unit {0})) where
  -- `if (cb != NULL) cb(ctx, args)`
  unfoldable pub call_context : Ptr → Ptr → Option Ptr → Action io.W (Unit {0})
  call_context cb ctx args = if is_null cb then pure tt else client (on_context cb ctx args)

  -- `if (!ctx->write_launched) { ... }`
  unfoldable pub launch_unless : Bool → Ptr → Conn io.W → Action io.W (Unit {0})
  launch_unless true ctx c = pure tt
  launch_unless false ctx c = do
    get_sock c.sock
    set_conn ctx (record c { write_launched = true; event_write = io.start c.event_write })

  -- The job that keeps the rest of the data. `cb_args` is not stored.
  unfoldable pub queue_rest : Ptr → List ℕ → Ptr → Action io.W (Unit {0})
  queue_rest ctx rest cb = do
    job ← jobs (malloc blank_job)
    set_job job
        (record blank_job { bytes = rest; len_remain = length rest; cb = cb; data_org = some rest })
    c ← get_conn ctx
    nodes (CycQueue.enqueue c.buf_write job)
    launch_unless c.write_launched ctx c

  -- `ixfd_commonsock_write`, when the system call returns `r`.
  unfoldable pub write : Ptr → List ℕ → Written → Ptr → Ptr → Action io.W Bool
  write ctx bytes r cb args = do
    c ← get_conn ctx
    log (wrote c.fd (sent r bytes))
    if leb (length bytes) (to_size r)
        then (do call_context cb ctx (some args); pure true)
        else (do queue_rest ctx (unwritten (to_size r) bytes) cb; pure false)

  -- A job that was written whole.
  unfoldable pub finish_job : Ptr → Conn io.W → Ptr → WriteJob → Action io.W (Unit {0})
  finish_job ctx c job j = do
    nodes (CycQueue.dequeue c.buf_write)
    call_context j.cb ctx j.cb_args
    k ← get_job job
    free_block job k.data_org
    conns (free_cell ctx)

  -- A job of which `n` bytes were written.
  unfoldable pub keep_job : Ptr → WriteJob → ℕ → Action io.W (Unit {0})
  keep_job job j n =
      if ltb 0 n
      then set_job job (record j { len_remain = j.len_remain - n; bytes = drop n j.bytes })
      else pure tt

  -- A turn of the loop, on the job at the front of the queue.
  unfoldable pub write_front : Ptr → Conn io.W → Written → Action io.W (Unit {0})
  write_front ctx c r = do
    job ← nodes (CycQueue.front c.buf_write)
    j ← get_job job
    log (wrote c.fd (sent r j.bytes))
    if leb j.len_remain (to_size r) then finish_job ctx c job j else keep_job job j (to_size r)

  -- The loop of `ixfd_commonsock_write_cb`; `rs` are the results of its system calls. Without a
  -- result left the loop has not ended.
  unfoldable pub write_loop : List Written → Ptr → Action io.W (Unit {0})
  write_loop [] ctx = do
    c ← get_conn ctx
    done ← nodes (CycQueue.is_empty c.buf_write)
    if done then pure tt else fail out_of_fuel
  write_loop (r ∷ rs) ctx = do
    c ← get_conn ctx
    done ← nodes (CycQueue.is_empty c.buf_write)
    if done then pure tt else (do write_front ctx c r; write_loop rs ctx)

  -- `ixfd_commonsock_write_cb`
  unfoldable pub on_writable : List Written → Ptr → Action io.W (Unit {0})
  on_writable rs ctx = do
    write_loop rs ctx
    c ← get_conn ctx
    set_conn ctx (record c { write_launched = false; event_write = io.stop c.event_write })
