-- ===== src/CycQueue/Dequeue.antt =====
-- `ixut_cycqueue_dequeue`: the oldest value leaves, and its node is freed.
use iojxd.Prelude.{ℕ, ◌≡◌, refl, true, some, none, [], ◌∷◌, arith, ◌==◌, if◌then◌else◌}
use iojxd.Memory.{Ptr, Heap, ok, err, bad_access, pure, ◌>>=◌, ◌>>◌, free, write}
use iojxd.Memory.Cells.{
  has, Holds, with_cell, SameOutside, Holds-self, Holds-write, free-ok, not_null, ne-of-has,
}
use iojxd.Memory.Returns.{Returns, returns}
use iojxd.CycQueue.{Node, node, dequeue, get_next, set_next, get_value, is_empty, check_entry}
use iojxd.CycQueue.Ring.{
  Cells, addresses, footprint, first, last, IsRing, Links-frame, get_next-ok, set_next-ok,
  get_value-ok, last-ne, get_next-freed,
}
use iojxd.CycQueue.Inspect.{check_entry-ok, entry-Holds, last-Holds, placeholder-Holds, first-Holds}

module _ {h : Heap Node} {entry ph a : Ptr} {v : ℕ} {xs : Cells}
    (r : IsRing h entry ph ((a, v) ∷ xs)) where
  -- The placeholder skips the first node.
  abbrev skipped : Heap Node
  skipped = with_cell h ph (some (node r.junk (some (first ph xs))))

  entry-skipped : Holds skipped entry (node r.tag (some (last a xs)))
  entry-skipped =
      Holds-write (entry-Holds r) ph (some (node r.junk (some (first ph xs))))
        (ground (arith, r.distinct.0))

  first-skipped : Holds skipped a (node (some v) (some (first ph xs)))
  first-skipped =
      Holds-write (first-Holds r) ph (some (node r.junk (some (first ph xs))))
        (ground (arith, r.distinct.1.0))

  -- The run up to the test whether the first node is also the last.
  dequeue-start :
      dequeue entry h
      ≡ ((if a == last a xs then (do after' ← get_next a; set_next entry after') else pure tt)
            >> (do ret ← get_value a; free a; pure ret))
          skipped
  unfolding dequeue
  dequeue-start = rw (
    check_entry-ok r,
    get_next-ok (entry-Holds r),
    get_next-ok (last-Holds r),
    get_next-ok (placeholder-Holds r),
    get_next-ok (first-Holds r),
    set_next-ok (placeholder-Holds r) (first ph xs),
    get_next-ok entry-skipped,
  )

  -- The heap when the entry points at `tail` again and the first node is freed.
  abbrev dequeued : Heap Node → Heap Node
  dequeued g = with_cell g a none

  taken :
      (g : Heap Node)
      → Holds g a (node (some v) (some (first ph xs)))
      → (do ret ← get_value a; free a; pure ret) g ≡ ok v (dequeued g)
  taken g at = rw (get_value-ok at, free-ok at)

-- What `dequeue` leaves: the ring of the other nodes, the first node freed, the rest untouched.
abbrev pub Dequeued : Heap Node → Ptr → Ptr → Ptr → ℕ → Cells → ℕ → Heap Node → Type 0
Dequeued h entry ph a v xs out g =
    (out ≡ v)
    × IsRing g entry ph xs
    × (g.cell a ≡ none)
    × SameOutside (footprint entry ph ((a, v) ∷ xs)) h g
    × (g.room ≡ h.room)
    × (g.brk ≡ h.brk)

module _ {h : Heap Node} {entry ph a : Ptr} {v : ℕ} where
  dequeue-one :
      IsRing h entry ph ((a, v) ∷ []) → Returns (Dequeued h entry ph a v []) (dequeue entry h)
  unfolding write
  dequeue-one r =
      let same : (a == a) ≡ true = ground arith in
      rw
        (
          dequeue-start r,
          same,
          get_next-ok (first-skipped r),
          set_next-ok (entry-skipped r) ph,
          taken r _ still,
        )
        (returns (
          refl,
          record {
            tag = r.tag;
            junk = r.junk;
            points = ground (arith, r.distinct.0);
            links = ground (arith, r.distinct.0, r.distinct.1.0);
            distinct = (ground (arith, r.distinct.0), (refl, tt));
            below = (r.below.0, r.below.1, (r.below.2.0, r.below.2.1, tt));
          },
          ground arith,
          λ c out. ground arith,
          refl,
          refl,
        ))
    where
      still :
          Holds
            (with_cell (skipped r) entry (some (node r.tag (some ph))))
            a
            (node (some v) (some ph))
      still =
          Holds-write (first-skipped r) entry (some (node r.tag (some ph)))
            (ground (arith, r.distinct.0))

  dequeue-more :
      {b : Ptr} {w : ℕ} {xs : Cells}
      → IsRing h entry ph ((a, v) ∷ (b, w) ∷ xs)
      → Returns (Dequeued h entry ph a v ((b, w) ∷ xs)) (dequeue entry h)
  unfolding write
  dequeue-more {b} {w} {xs} r =
      rw (dequeue-start r, last-ne a b xs r.distinct.1.1.0, taken r _ (first-skipped r))
        (returns (
          refl,
          record {
            tag = r.tag;
            junk = r.junk;
            points = ground (arith, r.distinct.0);
            links = (
              ground (arith, r.distinct.1.0),
              Links-frame h ph (with_cell (skipped r) a none) b (some w) xs r.links.1.1 spared,
            );
            distinct =
                (ground (arith, r.distinct.0), (ground (arith, r.distinct.1.0), r.distinct.1.1.1));
            below = (r.below.0, r.below.1, (r.below.2.0, r.below.2.1, r.below.2.2.2));
          },
          ground arith,
          λ c out. ground arith,
          refl,
          refl,
        ))
    where
      spared :
          (c : Ptr)
          → has c (b ∷ addresses xs) ≡ true
          → write (write h.cell ph (some (node r.junk (some b)))) a none c ≡ h.cell c
      spared c mem = ground (
        arith,
        ne-of-has a c (b ∷ addresses xs) r.distinct.1.1.0 mem,
        ne-of-has ph c (a ∷ b ∷ addresses xs) r.distinct.1.0,
      )

  -- `dequeue` returns the oldest value, frees its node and keeps the ring of the others.
  pub dequeue-cons :
      {xs : Cells}
      → IsRing h entry ph ((a, v) ∷ xs)
      → Returns (Dequeued h entry ph a v xs) (dequeue entry h)
  dequeue-cons {xs = []} r = dequeue-one r
  dequeue-cons {xs = (b, w) ∷ xs} r = dequeue-more r

module _ {h : Heap Node} {entry ph v : Ptr} (r : IsRing h entry ph [])
    (e : h.cell ph ≡ some (node (some v) (some ph))) where
  placeholder : Holds h ph (node (some v) (some ph))
  placeholder = record { above = r.below.2.0; holds = e }

  abbrev rewritten : Heap Node
  rewritten = with_cell h ph (some (node (some v) (some ph)))

  placeholder-rewritten : Holds rewritten ph (node (some v) (some ph))
  placeholder-rewritten = Holds-self h r.below.2.0 (node (some v) (some ph))

  entry-rewritten : Holds rewritten entry (node r.tag (some ph))
  entry-rewritten =
      Holds-write (entry-Holds r) ph (some (node (some v) (some ph))) (ground (arith, r.distinct.0))

  -- The heap after `dequeue` on the empty queue.
  abbrev broken : Heap Node
  broken = with_cell (with_cell rewritten entry (some (node r.tag (some ph)))) ph none

  dequeue-nil-run : dequeue entry h ≡ ok v broken
  unfolding dequeue
  dequeue-nil-run =
      let same : (ph == ph) ≡ true = ground arith in
      let still : Holds (with_cell rewritten entry (some (node r.tag (some ph)))) ph
          (node (some v) (some ph)) =
        Holds-write placeholder-rewritten entry (some (node r.tag (some ph)))
          (ground (arith, r.distinct.0)) in
      rw (
        check_entry-ok r,
        get_next-ok (entry-Holds r),
        get_next-ok placeholder,
        get_next-ok placeholder,
        get_next-ok placeholder,
        set_next-ok placeholder ph,
        get_next-ok entry-rewritten,
        same,
        get_next-ok placeholder-rewritten,
        set_next-ok entry-rewritten ph,
        get_value-ok still,
        free-ok still,
      )

  is_empty-broken : is_empty entry broken ≡ err bad_access
  unfolding is_empty check_entry write
  is_empty-broken =
      let at : Holds broken entry (node r.tag (some ph)) = record {
        above = r.below.0;
        holds = ground (arith, r.distinct.0);
      } in
      rw (
        not_null at,
        get_next-ok at,
        not_null placeholder,
        get_next-ok at,
        get_next-freed ph broken (ground arith),
      )

  -- On an empty queue nothing stops `dequeue`: it returns the placeholder's filler and frees the
  -- placeholder, and the next test for emptiness reads freed memory.
  pub dequeue-nil :
      Returns
        (λ out g. (out ≡ v) × (g.cell ph ≡ none) × (is_empty entry g ≡ err bad_access))
        (dequeue entry h)
  unfolding write
  dequeue-nil = rw dequeue-nil-run (returns (refl, ground arith, is_empty-broken))
