-- ===== src/CycQueue/Ring.antt =====
-- The shape that the queue operations keep: the entry, the placeholder and the ring of nodes.
use iojxd.Prelude.{
  ℕ, ◌≡◌, refl, true, false, Option, none, some, List, [], ◌∷◌, ◌++◌, arith, ◌==◌, ap,
}
use iojxd.Memory.{Ptr, Heap, ok, err, bad_access}
use iojxd.Memory.Cells.{has, Distinct, Below, Holds, with_cell, load-ok, load-freed, store-ok}
use iojxd.CycQueue.{Node, node, get_next, get_value, set_next, set_value}

-- Address and value of each node, the oldest first.
abbrev pub Cells : Type 0
Cells = List (Ptr × ℕ)

abbrev pub addresses : Cells → List Ptr
addresses [] = []
addresses ((a, _) ∷ xs) = a ∷ addresses xs

abbrev pub values : Cells → List ℕ
values [] = []
values ((_, v) ∷ xs) = v ∷ values xs

abbrev pub last : Ptr → Cells → Ptr
last p [] = p
last p ((a, _) ∷ xs) = last a xs

-- What the placeholder points at.
abbrev pub first : Ptr → Cells → Ptr
first p [] = p
first p ((a, _) ∷ xs) = a

abbrev pub last_value : Option ℕ → Cells → Option ℕ
last_value d [] = d
last_value d ((_, v) ∷ xs) = last_value (some v) xs

-- From the node `p` the successors lead through `xs`, and the last of them points at `stop`.
abbrev pub Links : Heap Node → Ptr → Ptr → Option ℕ → Cells → Type 0
Links h stop p d [] = h.cell p ≡ some (node d (some stop))
Links h stop p d ((a, v) ∷ xs) = (h.cell p ≡ some (node d (some a))) × Links h stop a (some v) xs

abbrev pub footprint : Ptr → Ptr → Cells → List Ptr
footprint entry ph xs = entry ∷ ph ∷ addresses xs

pub record IsRing (h : Heap Node) (entry ph : Ptr) (xs : Cells) : Type 0 where
  pub tag : Option ℕ
  pub junk : Option ℕ
  pub points : h.cell entry ≡ some (node tag (some (last ph xs)))
  pub links : Links h ph ph junk xs
  pub distinct : Distinct (footprint entry ph xs)
  pub below : Below h.brk (footprint entry ph xs)

-- The field accesses, each at an object that holds what is read.
module _ {h : Heap Node} {p : Ptr} {d q : Option ℕ} (at : Holds h p (node d q)) where
  pub set_next-ok : (r : Ptr) → set_next p r h ≡ ok tt (with_cell h p (some (node d (some r))))
  unfolding set_next
  set_next-ok r = rw (load-ok at, store-ok at (node d (some r)))

  pub set_value-ok : (v : ℕ) → set_value p v h ≡ ok tt (with_cell h p (some (node (some v) q)))
  unfolding set_value
  set_value-ok v = rw (load-ok at, store-ok at (node (some v) q))

pub get_next-ok :
    {h : Heap Node} {p q : Ptr} {d : Option ℕ} → Holds h p (node d (some q)) → get_next p h ≡ ok q h
unfolding get_next
get_next-ok at = rw (load-ok at)

pub get_next-freed : (p : Ptr) (h : Heap Node) → h.cell p ≡ none → get_next p h ≡ err bad_access
unfolding get_next
get_next-freed p h e = rw (load-freed p h e)

pub get_value-ok :
    {h : Heap Node} {p : Ptr} {v : ℕ} {q : Option ℕ}
    → Holds h p (node (some v) q)
    → get_value p h ≡ ok v h
unfolding get_value
get_value-ok at = rw (load-ok at)

pub last-ne : (q a : Ptr) (xs : Cells) → has q (a ∷ addresses xs) ≡ false → (q == last a xs) ≡ false
last-ne q a [] out = ground arith
last-ne q a ((b, _) ∷ xs) out = last-ne q b xs (ground arith)

module _ (h : Heap Node) (stop : Ptr) where
  -- The first node of a chain.
  pub Links-first :
      (p : Ptr) (d : Option ℕ) (xs : Cells)
      → Links h stop p d xs
      → h.cell p ≡ some (node d (some (first stop xs)))
  Links-first p d [] l = l
  Links-first p d ((a, v) ∷ xs) l = l.0

  -- The last node of a chain.
  pub Links-last :
      (p : Ptr) (d : Option ℕ) (xs : Cells)
      → Links h stop p d xs
      → h.cell (last p xs) ≡ some (node (last_value d xs) (some stop))
  Links-last p d [] l = l
  Links-last p d ((a, v) ∷ xs) l = Links-last a (some v) xs l.1

  -- A chain survives whatever spares its nodes.
  pub Links-frame :
      (g : Heap Node) (p : Ptr) (d : Option ℕ) (xs : Cells)
      → Links h stop p d xs
      → ((a : Ptr) → has a (p ∷ addresses xs) ≡ true → g.cell a ≡ h.cell a)
      → Links g stop p d xs
  Links-frame g p d [] l same = ground (arith, same p)
  Links-frame g p d ((a, v) ∷ xs) l same =
      (ground (arith, same p), Links-frame g a (some v) xs l.1 λ b i. same b (ground arith))

  -- A new node after the last one.
  pub Links-snoc :
      (g : Heap Node) (p : Ptr) (d : Option ℕ) (xs : Cells) (n v : ℕ)
      → Links h stop p d xs
      → Distinct (p ∷ addresses xs)
      → g.cell (last p xs) ≡ some (node (last_value d xs) (some n))
      → ((a : Ptr)
          → (a == last p xs) ≡ false
          → has a (p ∷ addresses xs) ≡ true
          → g.cell a ≡ h.cell a)
      → g.cell n ≡ some (node (some v) (some stop))
      → Links g stop p d (xs ++ (n, v) ∷ [])
  Links-snoc g p d [] n v l dis end same new = (end, new)
  Links-snoc g p d ((a, w) ∷ xs) n v l dis end same new = (
    ground (arith, same p, last-ne p a xs dis.0),
    Links-snoc g a (some w) xs n v l.1 dis.1 end (λ b o i. same b o (ground arith)) new,
  )

pub has-last : (p : Ptr) (xs : Cells) → has (last p xs) (p ∷ addresses xs) ≡ true
has-last p [] = ground arith
has-last p ((a, v) ∷ xs) = ground (arith, has-last a xs)

pub addresses-append : (xs ys : Cells) → addresses (xs ++ ys) ≡ addresses xs ++ addresses ys
addresses-append [] ys = refl
addresses-append (x ∷ xs) ys = ap (◌∷◌ x.0) (addresses-append xs ys)

pub values-append : (xs ys : Cells) → values (xs ++ ys) ≡ values xs ++ values ys
values-append [] ys = refl
values-append (x ∷ xs) ys = ap (◌∷◌ x.1) (values-append xs ys)

pub last-snoc : (p : Ptr) (xs : Cells) (n v : ℕ) → last p (xs ++ (n, v) ∷ []) ≡ n
last-snoc p [] n v = refl
last-snoc p ((a, _) ∷ xs) n v = last-snoc a xs n v
