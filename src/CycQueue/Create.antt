-- ===== src/CycQueue/Create.antt =====
-- `ixut_cycqueue_create`: the empty ring in two new nodes.
use iojxd.Prelude.{◌+◌, ◌-◌, ◌<◌, ◌≡◌, refl, false, Option, some, none, [], arith, ◌==◌}
use iojxd.Memory.{Ptr, Heap, ok, null, write}
use iojxd.Memory.Cells.{Holds, with_cell, extended, SameOutside, malloc-ok}
use iojxd.Memory.Returns.{Returns, returns}
use iojxd.CycQueue.{Node, node, placeholder_value, create}
use iojxd.CycQueue.Ring.{footprint, IsRing, set_next-ok, set_value-ok}

abbrev filled : Option Ptr → Node
filled q = node (some placeholder_value) q

abbrev two_blank : Heap Node → Heap Node
two_blank h = extended (extended h (node none none)) (node none none)

-- The heap after each of the four stores: both fillers, the entry's successor, the placeholder's.
abbrev filled_one : Heap Node → Heap Node
filled_one h = with_cell (two_blank h) h.brk (some (filled none))

abbrev filled_both : Heap Node → Heap Node
filled_both h = with_cell (filled_one h) (h.brk + 1) (some (filled none))

abbrev pointed : Heap Node → Heap Node
pointed h = with_cell (filled_both h) h.brk (some (filled (some (h.brk + 1))))

abbrev created : Heap Node → Heap Node
created h = with_cell (pointed h) (h.brk + 1) (some (filled (some (h.brk + 1))))

module _ (h : Heap Node) (start : null < h.brk) where
  apart : (h.brk == h.brk + 1) ≡ false
  apart = ground arith

  entry-blank : Holds (two_blank h) h.brk (node none none)
  unfolding write
  entry-blank = record { above = start; holds = ground arith }

  placeholder-blank : Holds (filled_one h) (h.brk + 1) (node none none)
  unfolding write
  placeholder-blank = record { above = omega arith; holds = ground arith }

  entry-filled : Holds (filled_both h) h.brk (filled none)
  unfolding write
  entry-filled = record { above = start; holds = ground arith }

  placeholder-filled : Holds (pointed h) (h.brk + 1) (filled none)
  unfolding write
  placeholder-filled = record { above = omega arith; holds = ground arith }

  create-run : 1 < h.room → create h ≡ ok h.brk (created h)
  unfolding create
  create-run room = rw (
    malloc-ok (node none none) h (omega arith),
    malloc-ok (node none none) (extended h (node none none)) (omega arith),
    set_value-ok entry-blank placeholder_value,
    set_value-ok placeholder-blank placeholder_value,
    set_next-ok entry-filled (h.brk + 1),
    set_next-ok placeholder-filled (h.brk + 1),
  )

  -- `create` makes the empty queue out of two new nodes, and writes nowhere else.
  pub create-empty :
      1 < h.room
      → Returns
          (λ entry g.
            (entry ≡ h.brk)
            × IsRing g entry (h.brk + 1) []
            × (g.cell (h.brk + 1) ≡ some (node (some placeholder_value) (some (h.brk + 1))))
            × SameOutside (footprint entry (h.brk + 1) []) h g
            × (g.brk ≡ h.brk + 2)
            × (g.room ≡ h.room - 2))
          (create h)
  unfolding write
  create-empty room = rw (create-run room) (
      returns (
        refl,
        record {
          tag = some placeholder_value;
          junk = some placeholder_value;
          points = ground arith;
          links = ground arith;
          distinct = (ground arith, (refl, tt));
          below = (start, omega arith, (omega arith, omega arith, tt));
        },
        ground arith,
        λ a out. ground arith,
        omega arith,
        omega arith,
      ))
