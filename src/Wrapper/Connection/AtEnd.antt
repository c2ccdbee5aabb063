-- ===== src/Wrapper/Connection/AtEnd.antt =====
-- The end of the stream on a connection that Lua holds, and on one that it has dropped.
use iojxd.Prelude.{
  ℕ, zero, suc, ◌+◌, ◌<◌, ◌≡◌, refl, Bool, true, false, arith, ◌==◌, length, ap, ◌∙◌, ◌∷◌, some,
}
use iojxd.Memory.{Ptr, Run, and_then, ok, err, bad_access}
use iojxd.Memory.Cells.{Holds, with_cell}
use iojxd.Memory.Returns.{Returns, returns}
use iojxd.Ev.{Watchers}
use iojxd.CycQueue.Ring.{Cells, IsRing}
use iojxd.Sock.State.{Handler, Target, Sock, Conn, World, closed}
use iojxd.Sock.Conn.{freectx, close}
use iojxd.Sock.Ending.{shut, close-ok, freectx-Gone}
use iojxd.Wrapper.Counting
use iojxd.Wrapper.{RefCounts, Object, in_impl, on_impl, ref, retain, keep, destroy, drop}
use iojxd.Wrapper.Connection.{
  Attached, wrapped, wrap, construct, cb_accept, attached_end, Act, destructor, un_ref, cb_close,
  at_end,
}

-- What Lua holds when its function is done.
abbrev pub held : Bool → ℕ → ℕ → ℕ
held true n k = n + k
held false n k = n

module _ (rc : RefCounts) (io : Watchers Handler Target) (fuel : ℕ) (ctx : Ptr) where
  abbrev pub object : rc.R → Bool → World io.W → Object rc.R (World io.W)
  object r b w = Counting.object rc (World io.W) r b true w

  -- A command on an implementation that returns, after which the rest faults.
  late :
      {P : World io.W → Type 0} (o : Object rc.R (World io.W)) {m : Run (World io.W) (Unit {0})}
      (k k' : Unit {0} → Act rc io fuel ctx)
      → Returns (λ _ v. P v) m
      → ((v : World io.W) → and_then (k tt (record o { impl = v })) k' ≡ err bad_access)
      → and_then (and_then (in_impl rc (World io.W) o m) k) k' ≡ err bad_access
  late o k k' (returns p) then' = then' _

  -- The last reference frees the connection, and the object is gone when `un_ref` stores into it.
  un_ref_last :
      (r : rc.R) (w : World io.W) {P : World io.W → Type 0}
      → rc.count r ≡ 1
      → Returns (λ _ v. P v) (freectx fuel ctx w)
      → un_ref rc io fuel ctx (object r true w) ≡ err bad_access
  unfolding un_ref drop destroy
  un_ref_last r w e freed =
      let last : (rc.count (rc.release r) == 0) ≡ true = rw (rc.count-release r 0 e) in
      rw last (late (object (rc.release r) true w) _ _ freed λ v. refl)

  pub un_ref_more :
      (n : ℕ) (r : rc.R) (w : World io.W)
      → rc.count r ≡ suc (suc n)
      → un_ref rc io fuel ctx (object r true w) ≡ ok tt (object (rc.release r) false w)
  unfolding un_ref
  un_ref_more n r w e =
      rw (Counting.drop_more rc (World io.W) (destructor rc io fuel ctx) r true true w e)

  called :
      (given : Bool) (n k : ℕ) (r : rc.R) (w : World io.W)
      → rc.count r ≡ suc n
      → (r' : rc.R) × (rc.count r' ≡ suc (held given n k))
        × (cb_close rc io fuel ctx given (keep rc (World io.W) k) (object r true w)
            ≡ un_ref rc io fuel ctx (object r' true w))
  unfolding cb_close retain
  called true n k r w e =
      let (r', run, e') =
        Counting.keep_lem rc (World io.W) k (suc (suc n)) (rc.retain r) true true w
          (rc.count-retain r ∙ ap suc e) in
      let more : rc.count r' ≡ suc (suc (n + k)) = omega (arith, e') in
      (
        rc.release r',
        rc.count-release r' (suc (n + k)) more,
        rw (
          run,
          Counting.drop_more rc (World io.W) (destructor rc io fuel ctx) r' true true w more,
        ),
      )
  called false n k r w e = (r, e, refl)

  -- The world after the connection `c` is closed.
  abbrev pub shut_world : World io.W → Conn io.W → World io.W
  shut_world w c = record w {
    conns = with_cell w.conns ctx (some (shut io c));
    trace = closed c.fd ∷ w.trace;
  }

  -- What the end of the stream comes to when Lua is left with that many references.
  abbrev pub Ends : World io.W → Conn io.W → ℕ → Run (Object rc.R (World io.W)) (Unit {0}) → Type 0
  Ends w c zero run = run ≡ err bad_access
  Ends w c (suc m) run =
      Returns
        (λ _ p.
          (rc.count p.counts ≡ suc m)
          × (p.this_ref ≡ false)
          × (p.alive ≡ true)
          × (p.impl ≡ shut_world w c))
        run

  module _ (w : World io.W) {ph : Ptr} {c : Conn io.W} {s : Sock io.W} {xs : Cells}
      (conn : Holds w.conns ctx c) (sock : Holds w.socks c.sock s)
      (ring : IsRing w.nodes c.buf_write ph xs) (enough : length xs < fuel) where
    lets_go :
        (m : ℕ) (r : rc.R)
        → rc.count r ≡ suc m
        → Ends w c m (
            and_then
              (un_ref rc io fuel ctx (object r true w))
              (λ _. on_impl rc (World io.W) (close io ctx)))
    lets_go zero r e = rw (un_ref_last r w e (freectx-Gone fuel w xs conn ring enough))
    lets_go (suc m) r e =
        rw (un_ref_more m r w e, close-ok io w conn sock)
          (returns (rc.count-release r (suc m) e, refl, refl, refl))

    -- At the end of the stream on a connection of which Lua holds n references, the close callback,
    -- if Lua has set one, may keep k more. If Lua is left with none, the object frees the
    -- connection and itself while it lets go of itself, stores into its own freed memory, and the
    -- fault is certain; otherwise the connection is closed, and what is left is counted by Lua's
    -- references alone.
    pub at_end-Ends :
        (given : Bool) (n k : ℕ) (r : rc.R)
        → rc.count r ≡ suc n
        → Ends w c
            (held given n k)
            (at_end rc io fuel ctx given (keep rc (World io.W) k) (object r true w))
    unfolding at_end
    at_end-Ends given n k r e =
        let (r', e', run) = called given n k r w e in rw run (lets_go (held given n k) r' e')

  -- What `Ends` says, of a connection whose `data` may be NULL.
  abbrev pub AttachedEnds :
      World io.W → Conn io.W → ℕ → Run (Attached rc io fuel ctx) (Unit {0}) → Type 0
  AttachedEnds w c zero run = run ≡ err bad_access
  AttachedEnds w c (suc m) run =
      Returns
        (λ _ a.
          (p : Object rc.R (World io.W)) × (a ≡ wrapped p)
          × (rc.count p.counts ≡ suc m)
          × (p.this_ref ≡ false)
          × (p.alive ≡ true)
          × (p.impl ≡ shut_world w c))
        run

  wraps :
      (w : World io.W) (c : Conn io.W) (m : ℕ) (run : Run (Object rc.R (World io.W)) (Unit {0}))
      → Ends w c m run
      → AttachedEnds w c m (wrap rc io fuel ctx run)
  wraps w c zero run e = rw e
  wraps w c (suc m) _ (returns p) = returns (_, refl, p.0, p.1, p.2, p.3)

  module _ (w : World io.W) {ph : Ptr} {c : Conn io.W} {s : Sock io.W} {xs : Cells}
      (conn : Holds w.conns ctx c) (sock : Holds w.socks c.sock s)
      (ring : IsRing w.nodes c.buf_write ph xs) (enough : length xs < fuel) where
    -- From the acceptance of a connection to the end of its stream. Without an accept function in
    -- Lua the connection has no object, and the end of the stream is a fault. With one that keeps n
    -- references, and a close function, if any, that keeps k more, it is a fault if Lua is left
    -- with none; otherwise the connection is closed and counted by Lua's references alone.
    pub accepted_life :
        (given : Bool) (n k : ℕ) (r : rc.R)
        → rc.count r ≡ 0
        → (and_then
              (cb_accept rc io fuel ctx false r (keep rc (World io.W) n) w)
              (λ _. attached_end rc io fuel ctx given (keep rc (World io.W) k))
            ≡ err bad_access)
          × AttachedEnds w c (held given n k) (
              and_then
                (cb_accept rc io fuel ctx true r (keep rc (World io.W) n) w)
                (λ _. attached_end rc io fuel ctx given (keep rc (World io.W) k)))
    unfolding cb_accept construct attached_end ref retain
    accepted_life given n k r none =
        let one = rc.count-retain r ∙ ap suc none in
        let two = rc.count-retain (rc.retain r) ∙ ap suc one in
        let (r', run, e) =
          Counting.keep_lem rc (World io.W) n 2 (rc.retain (rc.retain r)) true true w two in
        let more : rc.count r' ≡ suc (suc n) = omega (arith, e) in
        (
          refl,
          rw
              (
                run,
                Counting.drop_more rc (World io.W) (destructor rc io fuel ctx) r' true true w more,
              )
              (wraps w c (held given n k) _ (
                at_end-Ends w conn sock ring enough given n k (rc.release r')
                  (rc.count-release r' (suc n) more))),
        )
