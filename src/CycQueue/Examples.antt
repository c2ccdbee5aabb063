-- ===== src/CycQueue/Examples.antt =====
-- The queue of test/test_cycqueue.cxx, and the theorems at concrete heaps.
use iojxd.Prelude.{◌≡◌, refl, true, false, some, none, List, [], ◌∷◌, arith}
use iojxd.Memory.{Ptr, Heap, write, malloc, load, store, free}
use iojxd.Memory.Returns.{Returns, returns}
use iojxd.CycQueue.{
  Node, node, get_next, get_value, set_next, set_value, create, check_entry, is_empty, enqueue,
  front, dequeue, drain, free_queue,
}
use iojxd.CycQueue.Ring.{Cells, IsRing}
use iojxd.CycQueue.Session.{
  Op, put as put_op, take, peek, test, Seen, done, value, flag, perform, session,
}
use iojxd.CycQueue.Lifecycle.{lifecycle, lifecycle_lem}

abbrev blank_heap : Heap Node
blank_heap = record { brk = 1; room = 100; cell = λ a. none }

-- The calls of `test_cycqueue`, in its order.
abbrev test_calls : List Op
test_calls =
    test
    ∷ put_op 1
    ∷ test
    ∷ peek
    ∷ take
    ∷ test
    ∷ put_op 2
    ∷ put_op 3
    ∷ put_op 4
    ∷ peek
    ∷ put_op 5
    ∷ take
    ∷ take
    ∷ take
    ∷ put_op 6
    ∷ take
    ∷ peek
    ∷ take
    ∷ test
    ∷ []

abbrev test_results : List Seen
test_results =
    flag true
    ∷ done
    ∷ flag false
    ∷ value 1
    ∷ value 1
    ∷ flag true
    ∷ done
    ∷ done
    ∷ done
    ∷ value 2
    ∷ done
    ∷ value 2
    ∷ value 3
    ∷ value 4
    ∷ done
    ∷ value 5
    ∷ value 6
    ∷ value 6
    ∷ flag true
    ∷ []

test_cycqueue_results : Returns (λ out g. out ≡ test_results) (lifecycle 1 test_calls blank_heap)
unfolding lifecycle session perform create check_entry is_empty enqueue front dequeue drain
    free_queue get_next get_value set_next set_value malloc load store free
test_cycqueue_results = returns refl

lifecycle_lem_example :
    Returns
      (λ out g. (out ≡ test_results) × ((a : Ptr) → g.cell a ≡ blank_heap.cell a))
      (lifecycle 1 test_calls blank_heap)
lifecycle_lem_example =
    lifecycle_lem 1 test_calls test_results [] blank_heap refl (λ a le. refl) (omega arith)
      (omega arith) (omega arith)

-- Entry 1, placeholder 2, and the values 7 and 8 in the nodes 3 and 4.
abbrev two_cells : Cells
two_cells = (3, 7) ∷ (4, 8) ∷ []

abbrev two_heap : Heap Node
two_heap = record {
  brk = 5;
  room = 9;
  cell =
      write
        (write
          (write (write (λ a. none) 1 (some (node none (some 4)))) 2 (some (node none (some 3)))) 3
          (some (node (some 7) (some 4))))
        4 (some (node (some 8) (some 2)));
}

two-IsRing : IsRing two_heap 1 2 two_cells
unfolding write
two-IsRing = record {
  tag = none;
  junk = none;
  points = refl;
  links = (refl, (refl, refl));
  distinct = (refl, (refl, (refl, (refl, tt))));
  below = omega arith;
}

-- The empty queue with the entry 1 and the placeholder 2.
abbrev empty_heap : Heap Node
empty_heap = record {
  brk = 3;
  room = 9;
  cell = write (write (λ a. none) 1 (some (node none (some 2)))) 2 (some (node (some 5) (some 2)));
}

empty-IsRing : IsRing empty_heap 1 2 []
unfolding write
empty-IsRing = record {
  tag = none;
  junk = some 5;
  points = refl;
  links = refl;
  distinct = (refl, (refl, tt));
  below = omega arith;
}
