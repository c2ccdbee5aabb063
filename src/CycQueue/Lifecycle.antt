-- ===== src/CycQueue/Lifecycle.antt =====
-- A queue's whole life: created, used and freed.
use iojxd.Prelude.{
  ℕ, ◌+◌, ◌≤◌, ◌<◌, ◌≡◌, refl, true, some, List, [], ◌∷◌, arith, length, subst, Bool-cases, inl,
  inr, sym, ap, ◌∙◌,
}
use iojxd.Memory.{Ptr, Heap, null, pure, ◌>>=◌, ◌>>◌}
use iojxd.Memory.Cells.{has}
use iojxd.Memory.Returns
use iojxd.Memory.Returns.{Returns, returns}
use iojxd.CycQueue.{Node, Queue, create, free_queue}
use iojxd.CycQueue.Ring.{Cells, values, footprint}
use iojxd.CycQueue.Create.{create-empty}
use iojxd.CycQueue.Free.{Freed, free_queue-Freed}
use iojxd.CycQueue.Session.{Op, Seen, spec, session, puts, Above, Rep, IsFresh, Meets, session-spec}

-- What a client such as test/test_cycqueue.cxx does.
unfoldable pub lifecycle : ℕ → List Op → Queue (List Seen)
lifecycle fuel ops = do entry ← create; os ← session entry ops; free_queue fuel entry; pure os

Above-has : (b a : ℕ) (ps : List Ptr) → Above b ps → has a ps ≡ true → b ≤ a
Above-has b a [] h mem = cc
Above-has b a (p ∷ ps) h mem = ground (arith, Above-has b a ps h.1)

length-values : (xs : Cells) → length (values xs) ≡ length xs
length-values [] = refl
length-values (x ∷ xs) = omega (arith, length-values xs)

-- An address of the freed queue was allocated since `base`, any other is as in `base`.
restored :
    {base f : Heap Node} (k : Heap Node) {entry ph : Ptr} {zs : Cells}
    → IsFresh base
    → Rep base f entry ph zs
    → Freed (footprint entry ph zs) f k
    → (a : Ptr) → k.cell a ≡ base.cell a
restored {base} k {entry} {ph} {zs} fresh rep freed a =
    elim (Bool-cases (has a (footprint entry ph zs))) [
      | inl mem ↦
          freed.0 a mem ∙ sym (fresh a (Above-has base.brk a (footprint entry ph zs) rep.new mem))
      | inr out ↦ freed.1 a out ∙ rep.same a out
    ]

-- A session that follows the list specification gives its observations, from the creation of the
-- queue on, and once the queue is freed the heap holds what it held before: nothing leaks, and no
-- other object is written.
pub lifecycle_lem :
    (fuel : ℕ) (ops : List Op) (os : List Seen) (ys : List ℕ) (h : Heap Node)
    → spec ops [] ≡ some (os, ys)
    → IsFresh h
    → null < h.brk
    → 2 + puts ops ≤ h.room
    → length ys < fuel
    → Returns (λ out g. (out ≡ os) × ((a : Ptr) → g.cell a ≡ h.cell a)) (lifecycle fuel ops h)
unfolding lifecycle
lifecycle_lem fuel ops os ys h e fresh start room enough =
    Returns.bind (create-empty h start (omega arith)) λ entry g c.
      let rep : Rep h g entry (h.brk + 1) [] = record {
        ring = c.1;
        same = c.3;
        new = (omega arith, (omega arith, tt));
        grown = omega arith;
      } in
      Returns.bind
        (subst (λ t. Meets h entry (h.brk + 1) g (puts ops) t (session entry ops g)) e
          (session-spec fresh ops [] rep (omega arith)))
        λ out f (same, (zs, rep', vals), _).
          Returns.bind
            (free_queue-Freed fuel zs rep'.ring (omega (arith, length-values zs, ap length vals)))
            λ _ k freed. returns (same, λ a. restored k fresh rep' freed a)
