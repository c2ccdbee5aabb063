-- ===== src/Wrapper/Connection/Life/History.antt =====
-- Every event on a connection does what the specification of its life says.
use iojxd.Prelude.{
  ℕ, zero, suc, ◌+◌, ◌<◌, ◌≡◌, refl, Bool, true, false, Option, none, some, List, [], ◌∷◌, arith,
  ◌==◌, length, ap, ◌∙◌, sym, subst,
}
use iojxd.Memory.{Ptr, Run, and_then, ok}
use iojxd.Memory.Cells.{Holds, Holds-self}
use iojxd.Memory.Returns
use iojxd.Memory.Returns.{Returns, returns}
use iojxd.Ev.{Watchers}
use iojxd.CycQueue.Ring.{Cells, IsRing}
use iojxd.Sock.State.{Handler, Target, Sock, Conn, World}
use iojxd.Sock.Ending.{shut, close-ok, freectx-Gone}
use iojxd.Wrapper.Counting
use iojxd.Wrapper.{RefCounts, Object, ref, retain, keep, destroy, drop}
use iojxd.Wrapper.Connection.{destructor, close, cb_read, wrapped, construct, cb_accept}
use iojxd.Wrapper.Connection.AtEnd.{object, held, shut_world, un_ref_more, at_end-Ends, Ends}
use iojxd.Wrapper.Connection.Life.{
  Event, read, read_closing, closing, collect, ending, Phase, opened, closed, gone, faulted, left,
  ended, spec_step, spec, perform, run, Is, is_open, is_closed, is_gone, Reaches, Meets,
}

module _ (rc : RefCounts) (io : Watchers Handler Target) (fuel : ℕ) (ctx : Ptr) where
  module _ (w : World io.W) {ph : Ptr} {c : Conn io.W} {s : Sock io.W} {xs : Cells}
      (conn : Holds w.conns ctx c) (sock : Holds w.socks c.sock s)
      (ring : IsRing w.nodes c.buf_write ph xs) (enough : length xs < fuel) where
    -- The last reference to a closed connection, and one of others.
    drop_closed :
        (n : ℕ) (r : rc.R)
        → rc.count r ≡ suc n
        → Reaches rc io fuel ctx w c ph xs (left n) (
            drop rc
              (World io.W)
              (destructor rc io fuel ctx)
              (object rc io fuel ctx r false (shut_world rc io fuel ctx w c)))
    unfolding drop destroy
    drop_closed zero r e =
        let last : (rc.count (rc.release r) == 0) ≡ true = rw (rc.count-release r 0 e) in
        let v = shut_world rc io fuel ctx w c in
        rw last (
          Counting.impl-bind rc (World io.W) (object rc io fuel ctx (rc.release r) false v)
            (λ _ p. ok tt (record p { alive = false }))
            (freectx-Gone fuel v xs (Holds-self w.conns conn.above (shut io c)) ring enough)
            λ _ u g. returns (is_gone _ refl g))
    drop_closed (suc m) r e =
        rw
          (Counting.drop_more rc (World io.W) (destructor rc io fuel ctx) r false true
            (shut_world rc io fuel ctx w c) e)
          (returns (is_closed (rc.release r) (rc.count-release r (suc m) e)))

    close_opened :
        (m : ℕ) (r : rc.R)
        → rc.count r ≡ suc (suc m)
        → close rc io fuel ctx (object rc io fuel ctx r true w)
          ≡ ok tt (object rc io fuel ctx (rc.release r) false (shut_world rc io fuel ctx w c))
    unfolding close
    close_opened m r e =
        rw (
          close-ok io w conn sock,
          un_ref_more rc io fuel ctx m r (shut_world rc io fuel ctx w c) e,
        )

    read_opened :
        (given : Bool) (n k : ℕ) (r : rc.R)
        → rc.count r ≡ suc n
        → Reaches rc io fuel ctx w c ph xs
            (opened (held given n k))
            (cb_read rc io fuel ctx given (keep rc (World io.W) k) (object rc io fuel ctx r true w))
    unfolding cb_read retain
    read_opened false n k r e = returns (is_open r e)
    read_opened true n k r e =
        let (r', ran, e') =
          Counting.keep_lem rc (World io.W) k (suc (suc n)) (rc.retain r) true true w
            (rc.count-retain r ∙ ap suc e) in
        let more : rc.count r' ≡ suc (suc (n + k)) = omega (arith, e') in
        rw (ran, Counting.drop_more rc (World io.W) (destructor rc io fuel ctx) r' true true w more)
          (returns (is_open (rc.release r') (rc.count-release r' (suc (n + k)) more)))

    read_closing_opened :
        (n k : ℕ) (r : rc.R)
        → rc.count r ≡ suc n
        → Reaches rc io fuel ctx w c ph xs
            (left (n + k))
            (perform rc io fuel ctx (read_closing k) (object rc io fuel ctx r true w))
    unfolding perform cb_read retain
    read_closing_opened n k r e =
        let (r', ran, e') =
          Counting.keep_lem rc (World io.W) k (suc (suc n)) (rc.retain r) true true w
            (rc.count-retain r ∙ ap suc e) in
        let more : rc.count r' ≡ suc (suc (n + k)) = omega (arith, e') in
        rw (ran, close_opened (n + k) r' more)
          (drop_closed (n + k) (rc.release r') (rc.count-release r' (suc (n + k)) more))

  -- A closed connection's object, by its members.
  as_object :
      (v : World io.W) (p : Object rc.R (World io.W))
      → p.this_ref ≡ false
      → p.alive ≡ true
      → p.impl ≡ v
      → object rc io fuel ctx p.counts false v ≡ p
  as_object v p e e' e'' =
      sym λ i. record { counts = p.counts; this_ref = e i; alive = e' i; impl = e'' i }

  Ends-Reaches :
      (w : World io.W) (c : Conn io.W) (ph : Ptr) (xs : Cells) (m : ℕ)
      (t : Run (Object rc.R (World io.W)) (Unit {0}))
      → Ends rc io fuel ctx w c m t
      → Reaches rc io fuel ctx w c ph xs (ended m) t
  Ends-Reaches w c ph xs zero t e = e
  Ends-Reaches w c ph xs (suc m) t r = Returns.mono r λ _ p h.
      subst (Is rc io fuel ctx w c ph xs (closed m))
        (as_object (shut_world rc io fuel ctx w c) p h.1 h.2 h.3) (is_closed p.counts h.0)

  -- The rest of a history, after an event.
  then_rest :
      (w : World io.W) (c : Conn io.W) (ph : Ptr) (xs : Cells) (es : List Event) (q : Phase)
      (t : Run (Object rc.R (World io.W)) (Unit {0}))
      → Reaches rc io fuel ctx w c ph xs q t
      → ((o : Object rc.R (World io.W))
          → Is rc io fuel ctx w c ph xs q o
          → Meets rc io fuel ctx w c ph xs (spec es q) (run rc io fuel ctx es o))
      → Meets rc io fuel ctx w c ph xs (spec es q) (and_then t (λ _. run rc io fuel ctx es))
  then_rest w c ph xs es (opened n) _ (returns p) rest = rest _ p
  then_rest w c ph xs es (closed m) _ (returns p) rest = rest _ p
  then_rest w c ph xs es gone _ (returns p) rest = rest _ p
  then_rest w c ph xs [] faulted t e rest = rw e refl
  then_rest w c ph xs (x ∷ es) faulted t e rest = tt

  module _ (w : World io.W) {ph : Ptr} {c : Conn io.W} {s : Sock io.W} {xs : Cells}
      (conn : Holds w.conns ctx c) (sock : Holds w.socks c.sock s)
      (ring : IsRing w.nodes c.buf_write ph xs) (enough : length xs < fuel) where
    perform_lem :
        (e : Event) (p : Phase) (o : Object rc.R (World io.W))
        → Is rc io fuel ctx w c ph xs p o
        → Meets rc io fuel ctx w c ph xs (spec_step p e) (perform rc io fuel ctx e o)
    unfolding perform
    perform_lem (read given k) _ _ (is_open {n = n} r x) =
        read_opened w conn sock ring enough given n k r x
    perform_lem (read_closing k) _ _ (is_open {n = n} r x) =
        read_closing_opened w conn sock ring enough n k r x
    perform_lem closing _ _ (is_open {n = zero} r x) = tt
    perform_lem closing _ _ (is_open {n = suc m} r x) =
        rw (close_opened w conn sock ring enough m r x)
          (returns (is_closed (rc.release r) (rc.count-release r (suc m) x)))
    perform_lem collect _ _ (is_open {n = zero} r x) = tt
    perform_lem collect _ _ (is_open {n = suc m} r x) =
        rw (Counting.drop_more rc (World io.W) (destructor rc io fuel ctx) r true true w x)
          (returns (is_open (rc.release r) (rc.count-release r (suc m) x)))
    perform_lem (ending given k) _ _ (is_open {n = n} r x) =
        Ends-Reaches w c ph xs (held given n k) _
          (at_end-Ends rc io fuel ctx w conn sock ring enough given n k r x)
    perform_lem (read given k) _ _ (is_closed r x) = tt
    perform_lem (read_closing k) _ _ (is_closed r x) = tt
    perform_lem closing _ _ (is_closed r x) = tt
    perform_lem collect _ _ (is_closed {m = m} r x) = drop_closed w conn sock ring enough m r x
    perform_lem (ending given k) _ _ (is_closed r x) = tt
    perform_lem e _ _ (is_gone p x g) = tt

    next :
        (es : List Event) (e : Event) (q : Option Phase) (p : Phase) (o : Object rc.R (World io.W))
        → Meets rc io fuel ctx w c ph xs q (perform rc io fuel ctx e o)
        → ((q : Phase) (o : Object rc.R (World io.W))
            → Is rc io fuel ctx w c ph xs q o
            → Meets rc io fuel ctx w c ph xs (spec es q) (run rc io fuel ctx es o))
        → Meets rc io fuel ctx w c ph xs
            (elim q [ none ↦ none | some q ↦ spec es q ])
            (and_then (perform rc io fuel ctx e o) (λ _. run rc io fuel ctx es))
    next es e none p o m rest = tt
    next es e (some q) p o m rest = then_rest w c ph xs es q (perform rc io fuel ctx e o) m (rest q)

    history_lem :
        (es : List Event) (p : Phase) (o : Object rc.R (World io.W))
        → Is rc io fuel ctx w c ph xs p o
        → Meets rc io fuel ctx w c ph xs (spec es p) (run rc io fuel ctx es o)
    history_lem [] (opened n) o i = returns i
    history_lem [] (closed n) o i = returns i
    history_lem [] gone o i = returns i
    history_lem [] faulted o i = elim i [ ]
    history_lem (e ∷ es) p o i =
        next es e (spec_step p e) p o (perform_lem e p o i) (λ q u j. history_lem es q u j)

    -- An accepted connection of which Lua's accept function keeps n references has an object, and
    -- from then on any history of data, of which Lua's functions keep more references and may close
    -- the connection, of calls of `close`, of references collected, and of the end of the stream,
    -- comes to what the specification says: the object is there as long as the connection is open
    -- or Lua holds a reference, and is then deleted with the connection, its descriptor closed and
    -- its write queue freed, and the only fault is the end of the stream on a connection to which
    -- Lua is left with no reference.
    pub connection_life :
        (n : ℕ) (r : rc.R) (es : List Event)
        → rc.count r ≡ 0
        → (r' : rc.R) × (cb_accept rc io fuel ctx true r (keep rc (World io.W) n) w
            ≡ ok tt (wrapped (object rc io fuel ctx r' true w)))
          × Meets rc io fuel ctx w c ph xs
              (spec es (opened n))
              (run rc io fuel ctx es (object rc io fuel ctx r' true w))
    unfolding cb_accept construct ref retain
    connection_life n r es none_yet =
        let one = rc.count-retain r ∙ ap suc none_yet in
        let two = rc.count-retain (rc.retain r) ∙ ap suc one in
        let (r', ran, e) =
          Counting.keep_lem rc (World io.W) n 2 (rc.retain (rc.retain r)) true true w two in
        let more : rc.count r' ≡ suc (suc n) = omega (arith, e) in
        let kept = rc.count-release r' (suc n) more in
        (
          rc.release r',
          rw (
            ran,
            Counting.drop_more rc (World io.W) (destructor rc io fuel ctx) r' true true w more,
          ),
          history_lem es (opened n) (object rc io fuel ctx (rc.release r') true w)
              (is_open (rc.release r') kept),
        )
