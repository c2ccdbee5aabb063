-- ===== src/Sock/Read.antt =====
-- `ixfd_commonsock_read_cb` and `ixfd_commonsock_read`.
use iojxd.Prelude.{ℕ, ◌+◌, ℤ, minus_one, not, none, some, List, [], leb, if◌then◌else◌}
use iojxd.Memory.{Ptr, null, bad_access, pure, fail, ◌>>=◌, ◌>>◌, assert, is_null}
use iojxd.Ev.{Watchers}
use iojxd.Sock.State.{Handler, Target, Conn, Action, Call, on_read, get_sock, get_conn}
use iojxd.Sock.Kernel.{Received, bytes, failed, Sign, positive, negative, zero, sign_of}
use iojxd.Sock.Conn.{close}
use iojxd.Sock.Write.{call_context}

-- `memset(ctx->buf_read, 0, ctx->size_bufread + 1)` within the block.
unfoldable pub clear_buffer : {W : Type 0} → Conn W → Action W (Unit {0})
clear_buffer c = elim c.buf_read [
  | none ↦ fail bad_access
  | some size ↦ if leb (c.size_bufread + 1) size then pure tt else fail bad_access
]

abbrev pub contents : Received → List ℕ
contents (bytes bs) = bs
contents failed = []

module _ (io : Watchers Handler Target) (client : Call → Action io.W (Unit {0})) where
  -- The three branches on the result of `read`.
  unfoldable pub on_result : Ptr → Received → Sign → Action io.W (Unit {0})
  on_result ctx r (positive n) = do
    c ← get_conn ctx
    if is_null c.cb_read then pure tt else client (on_read c.cb_read ctx (some (contents r)) n)
  on_result ctx r negative = pure tt
  on_result ctx r zero = do
    c ← get_conn ctx
    s ← get_sock c.sock
    call_context io client s.cb_close ctx (some null)
    close io ctx

  -- `ixfd_commonsock_read_cb`, when the system call returns `r`.
  unfoldable pub on_readable : Ptr → Received → Action io.W (Unit {0})
  on_readable ctx r = do
    assert (not (is_null ctx))
    c ← get_conn ctx
    s ← get_sock c.sock
    if s.passive_read
        then (if is_null c.cb_read then fail bad_access else client (on_read c.cb_read ctx none 0))
        else (do clear_buffer c; on_result ctx r (sign_of r))

-- `ixfd_commonsock_read`: the value that it returns, when the system call returns `r`.
module _ (io : Watchers Handler Target) where
  unfoldable pub read_result : Ptr → Sign → Action io.W ℤ
  read_result ctx (positive n) = pure (ℤ.pos n)
  read_result ctx negative = pure minus_one
  read_result ctx zero = do close io ctx; pure (ℤ.pos 0)

  unfoldable pub read : Ptr → Ptr → Received → Action io.W ℤ
  read ctx buf r = do
    assert (not (is_null ctx))
    assert (not (is_null buf))
    c ← get_conn ctx
    read_result ctx (sign_of r)
