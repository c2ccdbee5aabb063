-- ===== src/Binding/Keeping.antt =====
-- The callbacks that are kept for good.
use iojxd.Prelude.{◌+◌, ◌<◌, ◌≤◌, ◌≡◌, refl, List, [], ◌∷◌, arith, length, Bool}
use iojxd.Memory.{Ptr, null, Heap, ok, pure, ◌>>=◌, write}
use iojxd.Memory.Cells.{Holds, Holds-self, extended}
use iojxd.Binding.{
  Block, ref, Action, Keeper, spawn_process, sock_write, timer_start, fork, childw_start,
  keep_callback, kept_callback,
}
use iojxd.Binding.Connecting.{with_ref, new_ref-ok, get_ref-ok, called, call_ref-ok}

module _ (V : Type 0) where
  -- One registration after the other.
  abbrev pub keep_all : List V → Action V (List Ptr)
  keep_all [] = pure []
  keep_all (v ∷ vs) = do p ← keep_callback V v; ps ← keep_all vs; pure (p ∷ ps)

  -- A reference at each address, to its own value.
  abbrev pub Refs : Heap (Block V) → List Ptr → List V → Type 0
  Refs g [] [] = Unit
  Refs g [] (v ∷ vs) = ⊥
  Refs g (p ∷ ps) [] = ⊥
  Refs g (p ∷ ps) (v ∷ vs) = Holds g p (ref v) × Refs g ps vs

  kept_by_later :
      (h : Heap (Block V)) (v : V) (p : Ptr) (b : Block V)
      → p < h.brk
      → Holds h p b
      → Holds (with_ref V h v) p b
  unfolding write
  kept_by_later h v p b below at = record { above = at.above; holds = ground (arith, at.holds) }

  -- The registrations leave what was there before.
  keep_all-Refs :
      (vs : List V) (h : Heap (Block V))
      → null < h.brk
      → length vs ≤ h.room
      → (ps : List Ptr) × (g : Heap (Block V)) × (keep_all vs h ≡ ok ps g)
        × Refs g ps vs
        × (g.brk ≡ h.brk + length vs)
        × ((p : Ptr) (b : Block V) → p < h.brk → Holds h p b → Holds g p b)
  unfolding keep_callback
  keep_all-Refs [] h start room = ([], h, refl, tt, omega arith, λ p b below at. at)
  keep_all-Refs (v ∷ vs) h start room =
      let (ps, g, run, refs, brk, keeps) =
        keep_all-Refs vs (with_ref V h v) (omega arith) (omega arith) in
      (
        h.brk ∷ ps,
        g,
        rw (new_ref-ok V h v start (omega arith), run),
        (keeps h.brk (ref v) (omega arith) (Holds-self (extended h (ref v)) start (ref v)), refs),
        omega (arith, brk),
        λ p b below at. keeps p b (omega arith) (kept_by_later h v p b below at),
      )

  module _ (is_nil : V → Bool) (invoke : V → Action V (Unit {0})) where
    -- What the callback of a keeper does with its function.
    abbrev pub answer : Keeper → V → Action V (Unit {0})
    answer spawn_process v = called V is_nil invoke v
    answer sock_write v = called V is_nil invoke v
    answer timer_start v = called V is_nil invoke v
    answer fork v = invoke v
    answer childw_start v = called V is_nil invoke v

    kept_callback-answer :
        (k : Keeper) {g : Heap (Block V)} {p : Ptr} {v : V}
        → Holds g p (ref v)
        → kept_callback V is_nil invoke k p g ≡ answer k v g
    unfolding kept_callback
    kept_callback-answer spawn_process at = call_ref-ok V is_nil invoke at
    kept_callback-answer sock_write at = call_ref-ok V is_nil invoke at
    kept_callback-answer timer_start at = call_ref-ok V is_nil invoke at
    kept_callback-answer fork at = rw (get_ref-ok V at)
    kept_callback-answer childw_start at = call_ref-ok V is_nil invoke at

    -- Each address answers for its own value, whichever function has kept it.
    abbrev pub Answers : Heap (Block V) → List Ptr → List V → Type 0
    Answers g [] [] = Unit
    Answers g [] (v ∷ vs) = ⊥
    Answers g (p ∷ ps) [] = ⊥
    Answers g (p ∷ ps) (v ∷ vs) =
        ((k : Keeper) → kept_callback V is_nil invoke k p g ≡ answer k v g) × Answers g ps vs

    Refs-Answers :
        (g : Heap (Block V)) (ps : List Ptr) (vs : List V) → Refs g ps vs → Answers g ps vs
    Refs-Answers g [] [] r = tt
    Refs-Answers g [] (v ∷ vs) r = r
    Refs-Answers g (p ∷ ps) [] r = r
    Refs-Answers g (p ∷ ps) (v ∷ vs) r = (λ k. kept_callback-answer k r.0, Refs-Answers g ps vs r.1)

    -- With memory at hand, after any number of functions have been kept, a reference to each is
    -- there, and each callback calls its own one and frees nothing: nil is skipped, but by the
    -- callback of `ixlb_fork`. The heap has grown by a block for each.
    pub kept_lem :
        (vs : List V) (h : Heap (Block V))
        → null < h.brk
        → length vs ≤ h.room
        → (ps : List Ptr) × (g : Heap (Block V)) × (keep_all vs h ≡ ok ps g)
          × Refs g ps vs
          × Answers g ps vs
          × (g.brk ≡ h.brk + length vs)
    kept_lem vs h start room =
        let (ps, g, run, refs, brk, keeps) = keep_all-Refs vs h start room in
        (ps, g, run, refs, Refs-Answers g ps vs refs, brk)
