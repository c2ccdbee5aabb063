-- ===== src/CycQueue/Inspect.antt =====
-- `ixut_cycqueue_empty` and `ixut_cycqueue_front`: what they return on a queue, and that they write
-- nothing.
use iojxd.Prelude.{ℕ, ◌≡◌, Bool, true, false, some, [], ◌∷◌, arith, ◌==◌}
use iojxd.Memory.{Ptr, Heap, ok, err, aborted, Cmd, pure, fail}
use iojxd.Memory.Cells.{Below-has, Holds, not_null}
use iojxd.CycQueue.{Node, node, check_entry, is_empty, front}
use iojxd.CycQueue.Ring.{
  Cells, addresses, last, last_value, IsRing, Links-first, Links-last, first, last-ne, has-last,
  get_next-ok, get_value-ok,
}

module _ {h : Heap Node} {entry ph : Ptr} {xs : Cells} (r : IsRing h entry ph xs) where
  pub entry-Holds : Holds h entry (node r.tag (some (last ph xs)))
  entry-Holds = record { above = r.below.0; holds = r.points }

  pub last-Holds : Holds h (last ph xs) (node (last_value r.junk xs) (some ph))
  last-Holds = record {
    above = (Below-has h.brk (last ph xs) (ph ∷ addresses xs) r.below.2 (has-last ph xs)).0;
    holds = Links-last h ph ph r.junk xs r.links;
  }

  pub placeholder-Holds : Holds h ph (node r.junk (some (first ph xs)))
  placeholder-Holds = record { above = r.below.2.0; holds = Links-first h ph ph r.junk xs r.links }

  pub check_entry-ok : check_entry entry h ≡ ok tt h
  unfolding check_entry
  check_entry-ok = rw (not_null entry-Holds, get_next-ok entry-Holds, not_null last-Holds)

  is_empty-ok : is_empty entry h ≡ ok (last ph xs == ph) h
  unfolding is_empty
  is_empty-ok = rw (check_entry-ok, get_next-ok entry-Holds, get_next-ok last-Holds)

pub is_empty-nil :
    {h : Heap Node} {entry ph : Ptr} → IsRing h entry ph [] → is_empty entry h ≡ ok true h
is_empty-nil {ph} r = rw (is_empty-ok r) (ground (arith, ◌==◌))

module _ {h : Heap Node} {entry ph a : Ptr} {v : ℕ} {xs : Cells}
    (r : IsRing h entry ph ((a, v) ∷ xs)) where
  pub placeholder-ne-last : (ph == last a xs) ≡ false
  placeholder-ne-last = last-ne ph a xs r.distinct.1.0

  pub is_empty-cons : is_empty entry h ≡ ok false h
  is_empty-cons = rw (is_empty-ok r) (ground (arith, placeholder-ne-last))

  pub first-Holds : Holds h a (node (some v) (some (first ph xs)))
  first-Holds = record { above = r.below.2.2.0; holds = Links-first h ph a (some v) xs r.links.1 }

  pub front-cons : front entry h ≡ ok v h
  unfolding front
  front-cons = rw (
    check_entry-ok r,
    get_next-ok (entry-Holds r),
    get_next-ok (last-Holds r),
    placeholder-ne-last,
    get_next-ok (placeholder-Holds r),
    get_value-ok first-Holds,
  )

-- On an empty queue the third assertion of `front` fails.
pub front-nil :
    {h : Heap Node} {entry ph : Ptr} → IsRing h entry ph [] → front entry h ≡ err aborted
unfolding front
front-nil {ph} r =
    rw (check_entry-ok r, get_next-ok (entry-Holds r), get_next-ok (last-Holds r))
      (ground (arith, ◌==◌))

-- What `front` should do, by the values in the queue.
abbrev pub spec_front : Cells → Cmd (Heap Node) ℕ
spec_front [] = fail aborted
spec_front ((_, v) ∷ xs) = pure v

abbrev pub spec_empty : Cells → Bool
spec_empty [] = true
spec_empty (x ∷ xs) = false

-- On every queue, `empty` tells exactly whether there is no value, `front` returns the oldest one
-- or fails its assertion where there is none, and neither writes anything.
pub inspect_lem :
    {h : Heap Node} {entry ph : Ptr} (xs : Cells)
    → IsRing h entry ph xs
    → (is_empty entry h ≡ ok (spec_empty xs) h) × (front entry h ≡ spec_front xs h)
inspect_lem [] r = (is_empty-nil r, front-nil r)
inspect_lem ((a, v) ∷ xs) r = (is_empty-cons r, front-cons r)
