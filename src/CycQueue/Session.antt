-- ===== src/CycQueue/Session.antt =====
-- Sequences of queue operations against a first-in first-out list.
use iojxd.Prelude.{
  ℕ, ◌+◌, ◌≤◌, ◌≡◌, refl, Bool, true, false, Option, some, none, List, [], ◌∷◌, ◌++◌, arith, ap,
  subst,
}
use iojxd.Memory.{Run, and_then, Ptr, Heap, pure, ◌>>=◌, ◌>>◌}
use iojxd.Memory.Cells.{has, has-append, SameOutside}
use iojxd.Memory.Returns
use iojxd.Memory.Returns.{Returns, returns}
use iojxd.CycQueue.{Node, Queue, is_empty, enqueue, front, dequeue}
use iojxd.CycQueue.Ring.{Cells, addresses-append, values, values-append, footprint, IsRing}
use iojxd.CycQueue.Inspect.{is_empty-nil, is_empty-cons, front-cons}
use iojxd.CycQueue.Enqueue.{enqueue-append}
use iojxd.CycQueue.Dequeue.{dequeue-cons}

pub data Op : Type 0 where
  put : ℕ → Op
  take peek test : Op

pub data Seen : Type 0 where
  done : Seen
  value : ℕ → Seen
  flag : Bool → Seen

-- The specification: `take` and `peek` are not for the empty queue.
abbrev pub spec_step : Op → List ℕ → Option (Seen × List ℕ)
spec_step (put v) xs = some (done, xs ++ v ∷ [])
spec_step take [] = none
spec_step take (x ∷ xs) = some (value x, xs)
spec_step peek [] = none
spec_step peek (x ∷ xs) = some (value x, x ∷ xs)
spec_step test [] = some (flag true, [])
spec_step test (x ∷ xs) = some (flag false, x ∷ xs)

abbrev pub observe : Seen → Option (List Seen × List ℕ) → Option (List Seen × List ℕ)
observe o none = none
observe o (some (os, ys)) = some (o ∷ os, ys)

abbrev pub spec : List Op → List ℕ → Option (List Seen × List ℕ)
spec [] xs = some ([], xs)
spec (op ∷ ops) xs = elim (spec_step op xs) [ none ↦ none | some (o, ys) ↦ observe o (spec ops ys) ]

unfoldable pub perform : Ptr → Op → Queue Seen
perform entry (put v) = do enqueue entry v; pure done
perform entry take = do v ← dequeue entry; pure (value v)
perform entry peek = do v ← front entry; pure (value v)
perform entry test = do b ← is_empty entry; pure (flag b)

unfoldable pub session : Ptr → List Op → Queue (List Seen)
session entry [] = pure []
session entry (op ∷ ops) = do o ← perform entry op; os ← session entry ops; pure (o ∷ os)

abbrev pub cost : Op → ℕ
cost (put v) = 1
cost take = 0
cost peek = 0
cost test = 0

-- The allocations of a session.
abbrev pub puts : List Op → ℕ
puts [] = 0
puts (op ∷ ops) = cost op + puts ops

abbrev pub Above : ℕ → List Ptr → Type 0
Above b [] = Unit
Above b (p ∷ ps) = (b ≤ p) × Above b ps

Above-append : (b : ℕ) (ps qs : List Ptr) → Above b ps → Above b qs → Above b (ps ++ qs)
Above-append b [] qs h k = k
Above-append b (p ∷ ps) qs h k = (h.0, Above-append b ps qs h.1 k)

-- `g` is the heap `base` with the queue added, all of whose nodes were allocated since.
pub record Rep (base g : Heap Node) (entry ph : Ptr) (xs : Cells) : Type 0 where
  pub ring : IsRing g entry ph xs
  pub same : SameOutside (footprint entry ph xs) base g
  pub new : Above base.brk (footprint entry ph xs)
  pub grown : base.brk ≤ g.brk

abbrev pub IsFresh : Heap Node → Type 0
IsFresh h = (a : Ptr) → h.brk ≤ a → h.cell a ≡ none

-- The observation and the list of the specification, with the room that the step cost.
abbrev pub Performed :
    Heap Node → Ptr → Ptr → Heap Node → ℕ → {O : Type 0} → O → List ℕ → O → Heap Node → Type 0
Performed base entry ph h n o ys out g =
    (out ≡ o) × ((zs : Cells) × Rep base g entry ph zs × (values zs ≡ ys)) × (h.room ≤ g.room + n)

-- Where the specification gives a result, the run returns it.
abbrev pub Meets :
    Heap Node
    → Ptr
    → Ptr
    → Heap Node
    → ℕ
    → {O : Type 0} → Option (O × List ℕ)
    → Run (Heap Node) O
    → Type 0
Meets base entry ph h n none run = Unit
Meets base entry ph h n (some (o, ys)) run = Returns (Performed base entry ph h n o ys) run

Meets-observe :
    (base : Heap Node) (entry ph : Ptr) (t : Option (List Seen × List ℕ)) (o out : Seen) (n m : ℕ)
    (h g : Heap Node) (r : Run (Heap Node) (List Seen))
    → Meets base entry ph g m t r
    → out ≡ o
    → h.room ≤ g.room + n
    → Meets base entry ph h (n + m) (observe o t) (and_then r (λ os. pure (out ∷ os)))
Meets-observe base entry ph none o out n m h g r meets e le = tt
Meets-observe base entry ph (some (os, ys)) o out n m h g r meets e le =
    Returns.bind meets λ outs f p. returns (cc (e, p.0), p.1, omega (arith, p.2))

module _ {base : Heap Node} (fresh : IsFresh base) {entry ph : Ptr} where
  enqueued-Rep :
      {xs : Cells} (v : ℕ) {h g : Heap Node}
      → Rep base h entry ph xs
      → IsRing g entry ph (xs ++ (h.brk, v) ∷ [])
      → SameOutside (h.brk ∷ footprint entry ph xs) h g
      → h.brk ≤ g.brk
      → Rep base g entry ph (xs ++ (h.brk, v) ∷ [])
  enqueued-Rep {xs} v {h} rep ring same le =
      let snoc = addresses-append xs ((h.brk, v) ∷ []) in
      record {
        ring = ring;
        same = λ a out.
            let out' : has a (footprint entry ph xs ++ h.brk ∷ []) ≡ false = rw snoc at out in
            ground (arith, has-append a (footprint entry ph xs) (h.brk ∷ []), same a, rep.same a);
        new =
            rw snoc
              (Above-append base.brk (footprint entry ph xs) (h.brk ∷ []) rep.new (rep.grown, tt));
        grown = omega (arith, rep.grown);
      }

  dequeued-Rep :
      {xs : Cells} {a : Ptr} {v : ℕ} {h g : Heap Node}
      → Rep base h entry ph ((a, v) ∷ xs)
      → IsRing g entry ph xs
      → g.cell a ≡ none
      → SameOutside (footprint entry ph ((a, v) ∷ xs)) h g
      → g.brk ≡ h.brk
      → Rep base g entry ph xs
  dequeued-Rep {xs} {a} rep ring gone same e = record {
    ring = ring;
    same = λ b out. ground (arith, same b, rep.same b, fresh b, rep.new.1.1.0);
    new = (rep.new.0, (rep.new.1.0, rep.new.1.1.1));
    grown = omega (arith, rep.grown);
  }

  perform-spec :
      (op : Op) (xs : Cells) {h : Heap Node}
      → Rep base h entry ph xs
      → cost op ≤ h.room
      → Meets base entry ph h (cost op) (spec_step op (values xs)) (perform entry op h)
  unfolding perform
  perform-spec (put v) xs {h} rep room = Returns.bind (enqueue-append v rep.ring room) λ _ g d.
      returns (
        refl,
        (
          xs ++ (h.brk, v) ∷ [],
          enqueued-Rep v rep d.0 d.1 (omega arith),
          values-append xs ((h.brk, v) ∷ []),
        ),
        omega arith,
      )
  perform-spec take [] rep room = tt
  perform-spec take ((a, v) ∷ xs) rep room =
      Returns.bind (dequeue-cons rep.ring)
        λ out g d. returns (ap value d.0, (xs, dequeued-Rep rep d.1 d.2 d.3 d.5, refl), omega arith)
  perform-spec peek [] rep room = tt
  perform-spec peek ((a, v) ∷ xs) rep room =
      rw (front-cons rep.ring) (returns (refl, ((a, v) ∷ xs, rep, refl), omega arith))
  perform-spec test [] rep room =
      rw (is_empty-nil rep.ring) (returns (refl, ([], rep, refl), omega arith))
  perform-spec test ((a, v) ∷ xs) rep room =
      rw (is_empty-cons rep.ring) (returns (refl, ((a, v) ∷ xs, rep, refl), omega arith))

  then-rest :
      (ops : List Op) (t : Option (Seen × List ℕ)) (n : ℕ) (h : Heap Node)
      (r : Run (Heap Node) Seen)
      → Meets base entry ph h n t r
      → ((zs : Cells) (g : Heap Node)
          → Rep base g entry ph zs
          → puts ops ≤ g.room
          → Meets base entry ph g (puts ops) (spec ops (values zs)) (session entry ops g))
      → n + puts ops ≤ h.room
      → Meets base entry ph h
          (n + puts ops)
          (elim t [ none ↦ none | some (o, ys) ↦ observe o (spec ops ys) ])
          (and_then r (λ o. do os ← session entry ops; pure (o ∷ os)))
  then-rest ops none n h r first rest room = tt
  then-rest ops (some (o, ys)) n h r (returns {a = out} {s = g} (e, (zs, rep, vals), le)) rest
        room =
      Meets-observe base entry ph (spec ops ys) o out n (puts ops) h g (session entry ops g)
        (subst (λ l. Meets base entry ph g (puts ops) (spec ops l) (session entry ops g)) vals
          (rest zs g rep (omega arith)))
        e le

  pub session-spec :
      (ops : List Op) (xs : Cells) {h : Heap Node}
      → Rep base h entry ph xs
      → puts ops ≤ h.room
      → Meets base entry ph h (puts ops) (spec ops (values xs)) (session entry ops h)
  unfolding session
  session-spec [] xs rep room = returns (refl, (xs, rep, refl), omega arith)
  session-spec (op ∷ ops) xs {h} rep room =
      then-rest ops (spec_step op (values xs)) (cost op) h (perform entry op h)
        (perform-spec op xs rep (omega arith)) (λ zs g r m. session-spec ops zs r m) room
