-- ===== src/Wrapper/Connection/Life.antt =====
-- The life of an accepted connection between Lua, which counts its references, and the socket.
pub mod History
use iojxd.Prelude.{
  ℕ, zero, suc, ◌+◌, ◌<◌, ◌≡◌, refl, Bool, true, false, Option, none, some, List, [], ◌∷◌, arith,
  ◌==◌, length, ap, ◌∙◌, sym, subst,
}
use iojxd.Memory.{Ptr, Run, and_then, ok, err, bad_access, pure, ◌>>◌}
use iojxd.Memory.Cells.{Holds, Holds-self}
use iojxd.Memory.Returns
use iojxd.Memory.Returns.{Returns, returns}
use iojxd.Ev.{Watchers}
use iojxd.CycQueue.Ring.{Cells, IsRing}
use iojxd.Sock.State.{Handler, Target, Sock, Conn, World}
use iojxd.Sock.Ending.{shut, close-ok, Gone, freectx-Gone}
use iojxd.Wrapper.Counting
use iojxd.Wrapper.{RefCounts, Object, retain, keep, destroy, drop}
use iojxd.Wrapper.Connection.{Act, destructor, un_ref, close, cb_read, at_end}
use iojxd.Wrapper.Connection.AtEnd.{object, held, shut_world, un_ref_more, at_end-Ends, Ends}

-- What happens to a connection: data for Lua's function, if one is set, which keeps some more
-- references; data for a function that closes the connection as well; a call of `close`; a
-- reference that Lua collects; the end of the stream, with what the close function keeps.
pub data Event : Type 0 where
  read : Bool → ℕ → Event
  read_closing : ℕ → Event
  closing collect : Event
  ending : Bool → ℕ → Event

-- How many references Lua holds to an open connection, how many beyond one to a closed one, and
-- that there is no object any more, or a fault.
pub data Phase : Type 0 where
  opened : ℕ → Phase
  closed : ℕ → Phase
  gone faulted : Phase

-- A closed connection with so many references.
abbrev pub left : ℕ → Phase
left zero = gone
left (suc m) = closed m

-- The end of the stream, at which Lua is left with so many references.
abbrev pub ended : ℕ → Phase
ended zero = faulted
ended (suc m) = closed m

-- The specification: `none` where the event cannot happen. Lua acts through references that it
-- holds, and closes a connection at most once.
abbrev pub spec_step : Phase → Event → Option Phase
spec_step (opened n) (read given k) = some (opened (held given n k))
spec_step (opened n) (read_closing k) = some (left (n + k))
spec_step (opened zero) closing = none
spec_step (opened (suc m)) closing = some (closed m)
spec_step (opened zero) collect = none
spec_step (opened (suc m)) collect = some (opened m)
spec_step (opened n) (ending given k) = some (ended (held given n k))
spec_step (closed m) collect = some (left m)
spec_step (closed m) e = none
spec_step gone e = none
spec_step faulted e = none

abbrev pub spec : List Event → Phase → Option Phase
spec [] p = some p
spec (e ∷ es) p = elim (spec_step p e) [ none ↦ none | some q ↦ spec es q ]

module _ (rc : RefCounts) (io : Watchers Handler Target) (fuel : ℕ) (ctx : Ptr) where
  unfoldable pub perform : Event → Act rc io fuel ctx
  perform (read given k) = cb_read rc io fuel ctx given (keep rc (World io.W) k)
  perform (read_closing k) =
      cb_read rc io fuel ctx true (do keep rc (World io.W) k; close rc io fuel ctx)
  perform closing = close rc io fuel ctx
  perform collect = drop rc (World io.W) (destructor rc io fuel ctx)
  perform (ending given k) = at_end rc io fuel ctx given (keep rc (World io.W) k)

  abbrev pub run : List Event → Act rc io fuel ctx
  run [] = pure tt
  run (e ∷ es) = do perform e; run es

  -- The object of a connection that was `c` in the world `w`, with its write queue. Once it is
  -- gone, so are the connection and the queue, and nothing else has changed since the close.
  pub data Is (w : World io.W) (c : Conn io.W) (ph : Ptr) (xs : Cells)
      : Phase → Object rc.R (World io.W) → Type 0 where
    is_open :
        {n : ℕ} (r : rc.R)
        → rc.count r ≡ suc n
        → Is w c ph xs (opened n) (object rc io fuel ctx r true w)
    is_closed :
        {m : ℕ} (r : rc.R)
        → rc.count r ≡ suc m
        → Is w c ph xs (closed m) (object rc io fuel ctx r false (shut_world rc io fuel ctx w c))
    is_gone :
        (p : Object rc.R (World io.W))
        → p.alive ≡ false
        → Gone (shut_world rc io fuel ctx w c) ctx c.buf_write ph xs p.impl
        → Is w c ph xs gone p

  abbrev pub Reaches :
      World io.W
      → Conn io.W
      → Ptr
      → Cells
      → Phase
      → Run (Object rc.R (World io.W)) (Unit {0})
      → Type 0
  Reaches w c ph xs (opened n) t = Returns (λ _ p. Is w c ph xs (opened n) p) t
  Reaches w c ph xs (closed m) t = Returns (λ _ p. Is w c ph xs (closed m) p) t
  Reaches w c ph xs gone t = Returns (λ _ p. Is w c ph xs gone p) t
  Reaches w c ph xs faulted t = t ≡ err bad_access

  -- Where the specification gives a phase, the run comes to it.
  abbrev pub Meets :
      World io.W
      → Conn io.W
      → Ptr
      → Cells
      → Option Phase
      → Run (Object rc.R (World io.W)) (Unit {0})
      → Type 0
  Meets w c ph xs none t = Unit
  Meets w c ph xs (some q) t = Reaches w c ph xs q t
