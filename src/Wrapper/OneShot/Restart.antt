-- ===== src/Wrapper/OneShot/Restart.antt =====
-- An object that its own callback starts again.
use iojxd.Prelude.{ℕ, zero, suc, ◌≡◌, Bool, true, false, ◌==◌, ap, ◌∙◌}
use iojxd.Memory.{Run, and_then, err, aborted, pure, ◌>>◌}
use iojxd.Memory.Returns.{Returns, returns}
use iojxd.Wrapper.{RefCounts, Object, in_impl, retain, ref, destroy, drop, un_ref}
use iojxd.Wrapper.OneShot.{Impl, Act, start, timer_callback, child_callback, callback, fire}
use iojxd.Wrapper.Counting.{drop_more}
use iojxd.Wrapper.OneShot.Life.{object}

module _ (rc : RefCounts) (im : Impl) where
  -- Lua collects that many references.
  unfoldable pub collect_times : ℕ → Act rc im
  collect_times zero = pure tt
  collect_times (suc n) = do drop rc im.I im.free; collect_times n

  impl-aborts :
      {P : im.I → Type 0} (o : Object rc.R im.I) {m : Run im.I (Unit {0})}
      (k k' : Unit {0} → Act rc im)
      → Returns (λ _ j. P j) m
      → ((j : im.I) → P j → and_then (k tt (record o { impl = j })) k' ≡ err aborted)
      → and_then (and_then (in_impl rc im.I o m) k) k' ≡ err aborted
  impl-aborts o k k' (returns p) then' = then' _ p

  -- The last reference to an object that waits.
  drop_waiting :
      (r : rc.R) (b alive : Bool) (i : im.I)
      → rc.count r ≡ 1
      → im.IsWaiting i
      → drop rc im.I im.free (object rc im r b alive i) ≡ err aborted
  unfolding drop destroy
  drop_waiting r b alive i e w =
      let last : (rc.count (rc.release r) == 0) ≡ true = rw (rc.count-release r 0 e) in
      rw (last, im.free_waiting i w)

  collects-abort :
      (n : ℕ) (r : rc.R) (i : im.I)
      → rc.count r ≡ suc n
      → im.IsWaiting i
      → collect_times (suc n) (object rc im r false true i) ≡ err aborted
  unfolding collect_times
  collects-abort zero r i e w = rw (drop_waiting r false true i e w)
  collects-abort (suc n) r i e w =
      rw (drop_more rc im.I im.free r false true i e)
        (collects-abort n (rc.release r) i (rc.count-release r (suc n) e) w)

  lets_go :
      (n : ℕ) (r : rc.R) (i : im.I)
      → rc.count r ≡ suc n
      → im.IsWaiting i
      → and_then (un_ref rc im.I im.free (object rc im r true true i)) (λ _. collect_times n)
        ≡ err aborted
  unfolding un_ref
  lets_go zero r i e w = rw (drop_waiting r false true i e w)
  lets_go (suc n) r i e w =
      rw (drop_more rc im.I im.free r false true i e)
        (collects-abort n (rc.release r) i (rc.count-release r (suc n) e) w)

  restarted :
      (b : Bool) (a : im.Arg) (n : ℕ) (r : rc.R) (i : im.I)
      → rc.count r ≡ suc n
      → im.IsIdle i
      → and_then
          (callback rc im b (start rc im a) (object rc im r true true i))
          (λ _. collect_times n)
        ≡ err aborted
  unfolding callback timer_callback child_callback start ref retain
  restarted true a n r i e free =
      impl-aborts (object rc im (rc.retain r) true true i)
        (λ _. drop rc im.I im.free >> un_ref rc im.I im.free) (λ _. collect_times n)
        (im.start-IsWaiting a i free)
        λ j w.
          let two = rc.count-retain r ∙ ap suc e in
          rw (drop_more rc im.I im.free (rc.retain r) true true j two)
            (lets_go n (rc.release (rc.retain r)) j (rc.count-release (rc.retain r) (suc n) two) w)
  restarted false a n r i e free =
      impl-aborts (object rc im r true true i) (λ _. un_ref rc im.I im.free) (λ _. collect_times n)
        (im.start-IsWaiting a i free) λ j w. lets_go n r j e w

  -- A Lua function that starts its own timer or child watcher again from the callback, as one would
  -- to repeat it, ends in a failed assertion: the callback takes away the reference that the object
  -- holds to itself, so that it waits without one, and once Lua has collected its n references, at
  -- once if it has none, the destructor frees an implementation that is still active.
  pub restart-aborts :
      (t : im.When) (a : im.Arg) (n : ℕ) (r : rc.R) (i : im.I)
      → rc.count r ≡ suc n
      → im.IsWaiting i
      → (do fire rc im t (start rc im a); collect_times n) (object rc im r true true i)
        ≡ err aborted
  unfolding fire
  restart-aborts t a n r i e w =
      impl-aborts (object rc im r true true i) (λ _. callback rc im im.counted (start rc im a))
        (λ _. collect_times n) (im.deliver-IsIdle t i w)
        λ j free. restarted im.counted a n r j e free
