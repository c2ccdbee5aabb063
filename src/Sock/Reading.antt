-- ===== src/Sock/Reading.antt =====
-- `ixfd_commonsock_read_cb`: data, an error, and the end of the stream.
use iojxd.Prelude.{
  ℕ, ◌+◌, ◌<◌, ◌^◌, ◌%◌, ◌≡◌, true, false, none, some, List, [], ◌∷◌, ◌++◌, arith, ltb, leb, ◌==◌,
  length, if◌then◌else◌, not, Bool-cases, inl, inr,
}
use iojxd.Memory.{Ptr, null, is_null, ok, ◌>>◌, pure}
use iojxd.Memory.Cells.{Holds, not_null, with_cell}
use iojxd.Ev.{Watchers}
use iojxd.Sock.State.{
  Handler, Target, Sock, Conn, World, Event, closed, Action, Call, on_read, on_context,
}
use iojxd.Sock.Kernel.{Received, bytes, failed, sign_of, sign_of_count, positive}
use iojxd.Sock.Conn.{close}
use iojxd.Sock.Ending.{shut, close-ok}
use iojxd.Sock.Write.{call_context}
use iojxd.Sock.Read.{clear_buffer, on_result, on_readable}
use iojxd.Sock.Access.{get_conn-ok, get_sock-ok, get_conn-freed}
use iojxd.Memory.Returns.{Fails, After, Fails-After}

-- The read buffer has room for what `read` may store and for a zero after it.
pub record Fits {W : Type 0} (c : Conn W) (size : ℕ) : Type 0 where
  pub block : c.buf_read ≡ some size
  pub room : c.size_bufread < size

clear-ok :
    {W : Type 0} (c : Conn W) (size : ℕ) (w : World W) → Fits c size → clear_buffer c w ≡ ok tt w
unfolding clear_buffer
clear-ok c size w fits =
    let room = fits.room in
    let enough : leb (c.size_bufread + 1) size ≡ true = ground arith in rw (fits.block, enough)

sign-positive : (n : ℕ) → 0 < n → n < 2 ^ 31 → sign_of_count n ≡ positive n
unfolding sign_of_count
sign-positive n some_ small =
    let whole : n % 2 ^ 32 ≡ n = omega arith in
    let nonzero : (n == 0) ≡ false = ground arith in
    let below : ltb n (2 ^ 31) ≡ true = ground arith in rw (whole, nonzero, below)

close-freed :
    (io : Watchers Handler Target) (ctx : Ptr) (w : World io.W)
    → w.conns.cell ctx ≡ none
    → Fails (close io ctx w)
unfolding close
close-freed io ctx w e = elim (Bool-cases (not (is_null ctx))) [
  | inl real ↦ rw (real, get_conn-freed ctx w e) tt
  | inr bad ↦ rw bad tt
]

module _ (io : Watchers Handler Target) (client : Call → Action io.W (Unit {0})) (w : World io.W)
    {ctx : Ptr} {c : Conn io.W} {s : Sock io.W} (size : ℕ) (conn : Holds w.conns ctx c)
    (sock : Holds w.socks c.sock s) (active_read : s.passive_read ≡ false)
    (fits : Fits c size) where
  at_data :
      (bs : List ℕ)
      → 0 < length bs
      → length bs < 2 ^ 31
      → on_readable io client ctx (bytes bs) w
        ≡ (if is_null c.cb_read
              then pure tt
              else client (on_read c.cb_read ctx (some bs) (length bs)))
            w
  unfolding on_readable on_result sign_of
  at_data bs some_ small =
      let real = not_null conn in
      rw (
        real,
        get_conn-ok w conn,
        get_sock-ok w sock,
        active_read,
        clear-ok c size w fits,
        sign-positive (length bs) some_ small,
        get_conn-ok w conn,
      )

  at_error : on_readable io client ctx failed w ≡ ok tt w
  unfolding on_readable on_result sign_of
  at_error =
      let real = not_null conn in
      rw (real, get_conn-ok w conn, get_sock-ok w sock, active_read, clear-ok c size w fits)

  at_end :
      on_readable io client ctx (bytes []) w
      ≡ (do call_context io client s.cb_close ctx (some null); close io ctx) w
  unfolding on_readable on_result sign_of sign_of_count
  at_end =
      let real = not_null conn in
      rw (
        real,
        get_conn-ok w conn,
        get_sock-ok w sock,
        active_read,
        clear-ok c size w fits,
        get_conn-ok w conn,
        get_sock-ok w sock,
      )

  -- If the close callback frees the connection, or leaves its address without an object in any
  -- other way, the end of the stream makes `ixfd_commonsock_read_cb` close freed memory.
  pub at_end-Fails :
      is_null s.cb_close ≡ false
      → After (λ _ v. v.conns.cell ctx ≡ none) (client (on_context s.cb_close ctx (some null)) w)
      → Fails (on_readable io client ctx (bytes []) w)
  unfolding call_context
  at_end-Fails given gone =
      rw (at_end, given)
        (Fails-After (λ _ v. v.conns.cell ctx ≡ none)
          (client (on_context s.cb_close ctx (some null)) w) (λ _. close io ctx) gone
          λ _ v e. close-freed io ctx v e)

module _ (io : Watchers Handler Target) (client : Call → Action io.W (Unit {0})) (ctx : Ptr) where
  -- The loop's turns at a connection, with what `read` returns at each.
  abbrev pub read_all : List Received → Action io.W (Unit {0})
  read_all [] = pure tt
  read_all (r ∷ rs) = do on_readable io client ctx r; read_all rs

  -- An error, or bytes: some, and fewer than 2 ^ 31.
  abbrev pub AreChunks : List Received → Type 0
  AreChunks [] = Unit
  AreChunks (failed ∷ rs) = AreChunks rs
  AreChunks (bytes bs ∷ rs) = (0 < length bs) × (length bs < 2 ^ 31) × AreChunks rs

  -- The trace after the chunks, of each of which the client notes the bytes and the number.
  abbrev pub noted : (List ℕ → ℕ → Event) → List Received → List Event → List Event
  noted note [] t = t
  noted note (failed ∷ rs) t = noted note rs t
  noted note (bytes bs ∷ rs) t = noted note rs (note bs (length bs) ∷ t)

  module _ (note : List ℕ → ℕ → Event) (ended : Event) {c : Conn io.W} {s : Sock io.W} (size : ℕ)
      (active_read : s.passive_read ≡ false) (fits : Fits c size)
      (reads : is_null c.cb_read ≡ false) (closes : is_null s.cb_close ≡ false)
      (on_bytes : (bs : List ℕ) (n : ℕ) (v : World io.W)
        → client (on_read c.cb_read ctx (some bs) n) v
          ≡ ok tt (record v { trace = note bs n ∷ v.trace }))
      (on_end : (v : World io.W)
        → client (on_context s.cb_close ctx (some null)) v
          ≡ ok tt (record v { trace = ended ∷ v.trace })) where
    -- A stream that comes in any number of turns, with errors between them, and then ends: the read
    -- callback is called once for each piece, in order, with its bytes and their number, and not
    -- for an error; then the close callback is called once, and then the connection is closed, its
    -- descriptor and its read watcher, and nothing else has changed. The conditions: the connection
    -- is not passive, its buffer fits, each piece has fewer than 2 ^ 31 bytes, and the callbacks
    -- are there and each notes its call in the trace.
    pub stream_lem :
        (rs : List Received) (w : World io.W)
        → Holds w.conns ctx c
        → Holds w.socks c.sock s
        → AreChunks rs
        → read_all (rs ++ bytes [] ∷ []) w
          ≡ ok tt (record w {
            conns = with_cell w.conns ctx (some (shut io c));
            trace = closed c.fd ∷ ended ∷ noted note rs w.trace;
          })
    unfolding call_context
    stream_lem [] w conn sock chunks =
        let v = record w { trace = ended ∷ w.trace } in
        rw (
          at_end io client w size conn sock active_read fits,
          closes,
          on_end w,
          close-ok io v conn sock,
        )
    stream_lem (failed ∷ rs) w conn sock chunks =
        rw (at_error io client w size conn sock active_read fits) (stream_lem rs w conn sock chunks)
    stream_lem (bytes bs ∷ rs) w conn sock chunks =
        rw
          (
            at_data io client w size conn sock active_read fits bs chunks.0 chunks.1,
            reads,
            on_bytes bs (length bs) w,
          )
          (stream_lem rs (record w { trace = note bs (length bs) ∷ w.trace }) conn sock chunks.2)
