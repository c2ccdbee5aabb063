-- ===== src/Memory/Cells.antt =====
-- Objects at addresses, sets of addresses, and what a command leaves alone.
use iojxd.Prelude.{
  ap, fun_ext, Bool-cases, inl, inr, ℕ, ◌+◌, ◌-◌, ◌<◌, ◌≤◌, ◌≡◌, refl, Bool, true, false, ◌||◌,
  Option, none, some, List, [], ◌∷◌, ◌++◌, arith, ◌==◌,
}
use iojxd.Memory.{Ptr, null, Heap, ok, err, bad_access, is_null, malloc, load, store, free, write}

abbrev pub has : Ptr → List Ptr → Bool
has a [] = false
has a (b ∷ bs) = (a == b) || has a bs

abbrev pub Distinct : List Ptr → Type 0
Distinct [] = Unit
Distinct (a ∷ ps) = (has a ps ≡ false) × Distinct ps

-- Every address is in use: above NULL and below the break.
abbrev pub Below : ℕ → List Ptr → Type 0
Below b [] = Unit
Below b (a ∷ ps) = (null < a) × (a < b) × Below b ps

pub Below-has : (b a : ℕ) (ps : List Ptr) → Below b ps → has a ps ≡ true → (null < a) × (a < b)
Below-has b a [] h i = cc
Below-has b a (c ∷ cs) h i = ground (arith, Below-has b a cs h.2)

pub Below-fresh : (b c : ℕ) (ps : List Ptr) → Below b ps → b ≤ c → has c ps ≡ false
Below-fresh b c [] h le = refl
Below-fresh b c (a ∷ ps) h le = ground (arith, Below-fresh b c ps h.2)

pub Below-mono : (b c : ℕ) (ps : List Ptr) → Below b ps → b ≤ c → Below c ps
Below-mono b c [] h le = tt
Below-mono b c (a ∷ ps) h le = (h.0, omega arith, Below-mono b c ps h.2 le)

pub Below-append : (b : ℕ) (ps bs : List Ptr) → Below b ps → Below b bs → Below b (ps ++ bs)
Below-append b [] bs h k = k
Below-append b (a ∷ ps) bs h k = (h.0, h.1, Below-append b ps bs h.2 k)

pub has-append : (a : ℕ) (ps bs : List Ptr) → has a (ps ++ bs) ≡ (has a ps || has a bs)
has-append a [] bs = refl
has-append a (c ∷ cs) bs = ground (arith, has-append a cs bs)

pub ne-of-has : (a b : ℕ) (ps : List Ptr) → has a ps ≡ false → has b ps ≡ true → (a == b) ≡ false
ne-of-has a b ps out mem = ground arith

pub Distinct-snoc :
    (c : ℕ) (ps : List Ptr) → Distinct ps → has c ps ≡ false → Distinct (ps ++ c ∷ [])
Distinct-snoc c [] d out = (refl, tt)
Distinct-snoc c (a ∷ ps) d out =
    (ground (arith, has-append a ps (c ∷ [])), Distinct-snoc c ps d.1 (ground arith))

module _ {A : Type 0} where
  -- `g` differs from `h` at most at the addresses of `ps`.
  abbrev pub SameOutside : List Ptr → Heap A → Heap A → Type 0
  SameOutside ps h g = (a : Ptr) → has a ps ≡ false → g.cell a ≡ h.cell a

  pub record Holds (h : Heap A) (p : Ptr) (v : A) : Type 0 where
    pub above : null < p
    pub holds : h.cell p ≡ some v

  abbrev pub with_cell : Heap A → Ptr → Option A → Heap A
  with_cell h p c = record h { cell = write h.cell p c }

  module _ {h : Heap A} {p : Ptr} {v : A} (at : Holds h p v) where
    pub not_null : is_null p ≡ false
    not_null = ground arith

    pub load-ok : load p h ≡ ok v h
    unfolding load
    load-ok = rw (not_null, at.holds)

    pub store-ok : (w : A) → store p w h ≡ ok tt (with_cell h p (some w))
    unfolding store
    store-ok w = rw load-ok

    pub free-ok : free p h ≡ ok tt (with_cell h p none)
    unfolding free
    free-ok = rw (not_null, load-ok)

  pub load-freed : (p : Ptr) (h : Heap A) → h.cell p ≡ none → load p h ≡ err bad_access
  unfolding load
  load-freed p h e = ground arith

  pub Holds-self : (h : Heap A) {p : Ptr} → null < p → (w : A) → Holds (with_cell h p (some w)) p w
  unfolding write
  Holds-self h above w = record { above = above; holds = ground arith }

  pub Holds-write :
      {h : Heap A} {p : Ptr} {v : A}
      → Holds h p v
      → (q : Ptr) (c : Option A) → (p == q) ≡ false
      → Holds (with_cell h q c) p v
  unfolding write
  Holds-write at q c ne = record { above = at.above; holds = rw ne at.holds }

  -- The heap after a `malloc`.
  abbrev pub extended : Heap A → A → Heap A
  extended h blank = record (with_cell h h.brk (some blank)) { brk = h.brk + 1; room = h.room - 1 }

  pub Holds-blank : (h : Heap A) → null < h.brk → (blank : A) → Holds (extended h blank) h.brk blank
  unfolding write
  Holds-blank h start blank = record { above = start; holds = ground arith }

  pub malloc-ok :
      (blank : A) (h : Heap A) → null < h.room → malloc blank h ≡ ok h.brk (extended h blank)
  unfolding malloc
  malloc-ok blank h r = let e : (h.room == 0) ≡ false = ground arith in rw e

  -- The second of two writes to a cell is the one that counts.
  pub with_cell_again :
      (h : Heap A) (p : Ptr) (a b : Option A) → with_cell (with_cell h p a) p b ≡ with_cell h p b
  unfolding write
  with_cell_again h p a b = ap (λ f. record h { cell = f }) (fun_ext again)
    where
      again : (q : Ptr) → write (write h.cell p a) p b q ≡ write h.cell p b q
      again q = elim (Bool-cases (q == p)) [ inl e ↦ rw e refl | inr e ↦ rw e refl ]
