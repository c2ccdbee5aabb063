-- ===== src/Wrapper/Counting.antt =====
-- Counting references to an object.
use iojxd.Prelude.{ℕ, zero, suc, ◌+◌, ◌≡◌, refl, Bool, false, arith, ◌==◌, ap, ◌∙◌}
use iojxd.Memory.{Run, Cmd, and_then, ok}
use iojxd.Memory.Returns.{Returns, returns}
use iojxd.Wrapper.{RefCounts, Object, Action, in_impl, retain, keep, drop}

module _ (rc : RefCounts) (I : Type 0) where
  abbrev pub object : rc.R → Bool → Bool → I → Object rc.R I
  object r b alive i = record { counts = r; this_ref = b; alive = alive; impl = i }

  pub keep_lem :
      (k n : ℕ) (r : rc.R) (b alive : Bool) (i : I)
      → rc.count r ≡ n
      → (r' : rc.R) × (keep rc I k (object r b alive i) ≡ ok tt (object r' b alive i))
        × (rc.count r' ≡ n + k)
  unfolding keep retain
  keep_lem zero n r b alive i e = (r, refl, omega (arith, e))
  keep_lem (suc k) n r b alive i e =
      let (r', run', e') =
        keep_lem k (suc n) (rc.retain r) b alive i (rc.count-retain r ∙ ap suc e) in
      (r', run', omega (arith, e'))

  -- One reference fewer, and others left.
  pub drop_more :
      (destructor : Cmd I (Unit {0})) {n : ℕ} (r : rc.R) (b alive : Bool) (i : I)
      → rc.count r ≡ suc (suc n)
      → drop rc I destructor (object r b alive i) ≡ ok tt (object (rc.release r) b alive i)
  unfolding drop
  drop_more destructor {n} r b alive i e =
      let more : (rc.count (rc.release r) == 0) ≡ false =
        rw (rc.count-release r (suc n) e) (ground arith) in
      rw more

  -- A command of the implementation that returns, within a longer command and at its end.
  pub impl-bind :
      {P : I → Type 0} {Q : Unit {0} → Object rc.R I → Type 0} (o : Object rc.R I)
      {m : Run I (Unit {0})} (k : Unit {0} → Action rc I (Unit {0}))
      → Returns (λ _ j. P j) m
      → ((u : Unit {0}) (j : I) → P j → Returns Q (k u (record o { impl = j })))
      → Returns Q (and_then (in_impl rc I o m) k)
  impl-bind o k (returns p) next = next _ _ p

  pub impl-last :
      {P : I → Type 0} {Q : Unit {0} → Object rc.R I → Type 0} (o : Object rc.R I)
      {m : Run I (Unit {0})}
      → Returns (λ _ j. P j) m
      → ((u : Unit {0}) (j : I) → P j → Q u (record o { impl = j }))
      → Returns Q (in_impl rc I o m)
  impl-last o (returns p) next = returns (next _ _ p)
