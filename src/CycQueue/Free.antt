-- ===== src/CycQueue/Free.antt =====
-- `ixut_cycqueue_free`: the loop that empties the queue, and the end of every node.
use iojxd.Prelude.{
  ℕ, zero, suc, ◌<◌, ◌≡◌, refl, true, false, List, [], ◌∷◌, arith, length, none, some,
}
use iojxd.Memory.{Ptr, Heap, write}
use iojxd.Memory.Cells.{has, Holds, with_cell, SameOutside, Holds-write, free-ok}
use iojxd.Memory.Returns
use iojxd.Memory.Returns.{Returns, returns}
use iojxd.CycQueue.{Node, node, drain, free_queue}
use iojxd.CycQueue.Ring.{Cells, addresses, footprint, IsRing, get_next-ok}
use iojxd.CycQueue.Inspect.{check_entry-ok, entry-Holds, last-Holds, is_empty-nil, is_empty-cons}
use iojxd.CycQueue.Dequeue.{dequeue-cons}

-- Every object of the queue is gone, and nothing else has changed.
abbrev pub Freed : List Ptr → Heap Node → Heap Node → Type 0
Freed ps h g = ((a : Ptr) → has a ps ≡ true → g.cell a ≡ none) × SameOutside ps h g

-- The queue is empty, its former nodes are gone, and nothing outside it has changed.
abbrev pub Drained : Ptr → Ptr → Cells → Heap Node → Heap Node → Type 0
Drained entry ph xs h g =
    IsRing g entry ph []
    × ((a : Ptr) → has a (addresses xs) ≡ true → g.cell a ≡ none)
    × SameOutside (footprint entry ph xs) h g

first-out :
    {h : Heap Node} {entry ph a : Ptr} {v : ℕ} {xs : Cells}
    → IsRing h entry ph ((a, v) ∷ xs)
    → has a (footprint entry ph xs) ≡ false
first-out r = ground (arith, r.distinct.0, r.distinct.1.0, r.distinct.1.1.0)

module _ {entry ph : Ptr} where
  -- With one round more than there are nodes the loop frees them all.
  pub drain-Drained :
      (k : ℕ) {h : Heap Node} (xs : Cells)
      → IsRing h entry ph xs
      → length xs < k
      → Returns (λ _ g. Drained entry ph xs h g) (drain k entry h)
  unfolding drain
  drain-Drained zero xs r fuel = absurd (omega arith)
  drain-Drained (suc k) [] r fuel = rw (is_empty-nil r) (returns (r, λ a i. cc, λ a o. refl))
  drain-Drained (suc k) ((a, v) ∷ xs) r fuel = rw (is_empty-cons r) (
      Returns.bind (dequeue-cons r) λ out g d.
        Returns.mono (drain-Drained k xs d.1 (omega arith)) λ _ f e. (
          e.0,
          λ b mem. ground (arith, e.1 b, e.2 a (first-out r), d.2),
          λ b out. ground (arith, e.2 b, d.3 b),
        ))

  -- `free` gives back every node of the queue, whatever it holds, and touches nothing else.
  pub free_queue-Freed :
      (k : ℕ) {h : Heap Node} (xs : Cells)
      → IsRing h entry ph xs
      → length xs < k
      → Returns (λ _ g. Freed (footprint entry ph xs) h g) (free_queue k entry h)
  unfolding free_queue write
  free_queue-Freed k xs r fuel = rw (check_entry-ok r) (
      Returns.bind (drain-Drained k xs r fuel) λ _ g d.
        let gone : Holds (with_cell g ph none) entry (node d.0.tag (some ph)) =
          Holds-write (entry-Holds d.0) ph none (ground (arith, d.0.distinct.0)) in
        rw (get_next-ok (entry-Holds d.0), free-ok (last-Holds d.0), free-ok gone)
          (returns (λ b mem. ground (arith, d.1 b), λ b out. ground (arith, d.2 b))))
