-- ===== src/CycQueue/Enqueue.antt =====
-- `ixut_cycqueue_enqueue`: the value comes last, in a node of its own.
use iojxd.Prelude.{ℕ, ◌+◌, ◌-◌, ◌<◌, ◌≡◌, refl, true, false, some, none, [], ◌∷◌, ◌++◌, arith, ◌==◌}
use iojxd.Memory.{Ptr, Heap, ok, null, write}
use iojxd.Memory.Cells.{
  has, Below-has, Below-fresh, Below-mono, Below-append, Distinct-snoc, Holds, with_cell,
  SameOutside, malloc-ok, Holds-self, Holds-write, extended, ne-of-has,
}
use iojxd.Memory.Returns.{Returns, returns}
use iojxd.CycQueue.{Node, node, enqueue}
use iojxd.CycQueue.Ring.{
  Cells, addresses, addresses-append, footprint, last, last-snoc, last_value, IsRing, Links-snoc,
  has-last, get_next-ok, set_next-ok, set_value-ok,
}
use iojxd.CycQueue.Inspect.{check_entry-ok, entry-Holds, last-Holds}

abbrev valued : Heap Node → ℕ → Heap Node
valued h v = with_cell (extended h (node none none)) h.brk (some (node (some v) none))

abbrev linked : Heap Node → Ptr → ℕ → Heap Node
linked h ph v = with_cell (valued h v) h.brk (some (node (some v) (some ph)))

module _ {h : Heap Node} {entry ph : Ptr} {xs : Cells} (r : IsRing h entry ph xs) (v : ℕ) where
  abbrev hooked : Heap Node
  hooked = with_cell (linked h ph v) (last ph xs) (some (node (last_value r.junk xs) (some h.brk)))

  -- What `enqueue` leaves: the new node at the old break, linked in behind the last one.
  abbrev enqueued : Heap Node
  enqueued = with_cell hooked entry (some (node r.tag (some h.brk)))

  last-bounds : (null < last ph xs) × (last ph xs < h.brk)
  last-bounds = Below-has h.brk (last ph xs) (ph ∷ addresses xs) r.below.2 (has-last ph xs)

  brk-pos : null < h.brk
  brk-pos = omega (arith, r.below.0, r.below.1)

  entry-ne-last : (entry == last ph xs) ≡ false
  entry-ne-last = ne-of-has entry (last ph xs) (ph ∷ addresses xs) r.distinct.0 (has-last ph xs)

  entry-ne-brk : (entry == h.brk) ≡ false
  entry-ne-brk = ground (arith, r.below.1)

  last-ne-brk : (last ph xs == h.brk) ≡ false
  last-ne-brk = ground (arith, last-bounds)

  enqueue-run : null < h.room → enqueue entry v h ≡ ok tt enqueued
  unfolding enqueue
  enqueue-run room = rw (
    check_entry-ok r,
    malloc-ok (node none none) h room,
    set_value-ok blank v,
    get_next-ok entry-valued,
    get_next-ok last-valued,
    set_next-ok new ph,
    set_next-ok last-linked h.brk,
    set_next-ok entry-hooked h.brk,
  )
    where
      blank : Holds (extended h (node none none)) h.brk (node none none)
      blank = record { above = brk-pos; holds = (Holds-self h brk-pos (node none none)).holds }

      kept : {p : Ptr} {n : Node} → Holds h p n → (p == h.brk) ≡ false → Holds (valued h v) p n
      kept {p} {n} at ne = Holds-write middle h.brk (some (node (some v) none)) ne
        where
          middle : Holds (extended h (node none none)) p n
          middle = record {
            above = at.above;
            holds = (Holds-write at h.brk (some (node none none)) ne).holds;
          }

      entry-valued : Holds (valued h v) entry (node r.tag (some (last ph xs)))
      entry-valued = kept (entry-Holds r) entry-ne-brk

      last-valued : Holds (valued h v) (last ph xs) (node (last_value r.junk xs) (some ph))
      last-valued = kept (last-Holds r) last-ne-brk

      new : Holds (valued h v) h.brk (node (some v) none)
      new = Holds-self (extended h (node none none)) brk-pos (node (some v) none)

      last-linked : Holds (linked h ph v) (last ph xs) (node (last_value r.junk xs) (some ph))
      last-linked = Holds-write last-valued h.brk (some (node (some v) (some ph))) last-ne-brk

      entry-hooked : Holds hooked entry (node r.tag (some (last ph xs)))
      entry-hooked =
          Holds-write (Holds-write entry-valued h.brk (some (node (some v) (some ph))) entry-ne-brk)
            (last ph xs) _ entry-ne-last

  enqueued-IsRing : IsRing enqueued entry ph (xs ++ (h.brk, v) ∷ [])
  unfolding write
  enqueued-IsRing = record {
    tag = r.tag;
    junk = r.junk;
    points = rw (last-snoc ph xs h.brk v) (ground arith);
    links =
        Links-snoc h ph enqueued ph r.junk xs h.brk v r.links r.distinct.1
          (ground (arith, entry-ne-last)) spared (ground (arith, entry-ne-brk, last-ne-brk));
    distinct =
        rw (addresses-append xs ((h.brk, v) ∷ []))
          (Distinct-snoc h.brk (footprint entry ph xs) r.distinct fresh);
    below = rw (addresses-append xs ((h.brk, v) ∷ [])) (
        Below-append (h.brk + 1) (footprint entry ph xs) (h.brk ∷ [])
          (Below-mono h.brk (h.brk + 1) (footprint entry ph xs) r.below (omega arith))
          (brk-pos, omega arith, tt));
  }
    where
      fresh : has h.brk (footprint entry ph xs) ≡ false
      fresh = Below-fresh h.brk h.brk (footprint entry ph xs) r.below (omega arith)

      spared :
          (a : Ptr)
          → (a == last ph xs) ≡ false
          → has a (ph ∷ addresses xs) ≡ true
          → enqueued.cell a ≡ h.cell a
      spared a ne mem = ground (
        arith,
        ne-of-has entry a (ph ∷ addresses xs) r.distinct.0 mem,
        ne-of-has h.brk a (footprint entry ph xs) fresh,
      )

  enqueued-SameOutside : SameOutside (h.brk ∷ footprint entry ph xs) h enqueued
  unfolding write
  enqueued-SameOutside a out =
      ground (arith, ne-of-has a (last ph xs) (ph ∷ addresses xs), has-last ph xs)

-- `enqueue` puts the value last, in one new node, and writes only there and in the queue's own
-- nodes.
pub enqueue-append :
    {h : Heap Node} {entry ph : Ptr} {xs : Cells} (v : ℕ)
    → IsRing h entry ph xs
    → null < h.room
    → Returns
        (λ _ g.
          IsRing g entry ph (xs ++ (h.brk, v) ∷ [])
          × SameOutside (h.brk ∷ footprint entry ph xs) h g
          × (g.room ≡ h.room - 1)
          × (g.brk ≡ h.brk + 1))
        (enqueue entry v h)
enqueue-append v r room =
    rw (enqueue-run r v room) (returns (enqueued-IsRing r v, enqueued-SameOutside r v, refl, refl))
