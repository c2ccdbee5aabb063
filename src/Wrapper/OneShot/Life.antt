-- ===== src/Wrapper/OneShot/Life.antt =====
-- The life of a wrapped timer or child watcher against a specification that has no counts: how many
-- references Lua holds, and whether the object waits for its event.
use iojxd.Prelude.{
  ℕ, zero, suc, ◌+◌, ◌≡◌, refl, Bool, true, false, List, [], ◌∷◌, ◌||◌, ltb, ◌==◌, arith, sym,
  subst, ap, ◌∙◌,
}
use iojxd.Memory.{ok, pure, ◌>>◌}
use iojxd.Memory.Returns
use iojxd.Memory.Returns.{Returns, returns}
use iojxd.Wrapper.Counting
use iojxd.Wrapper.{keep, RefCounts, Object, retain, ref, destroy, drop, un_ref}
use iojxd.Wrapper.OneShot.{Impl, Act, start, timer_callback, child_callback, callback, fire}

-- What happens to an object: Lua copies a reference that it has, collects one, starts the object,
-- or the loop fires it and Lua's function keeps some more references.
pub data Event (Arg When : Type 0) : Type 0 where
  grab : Event Arg When
  collect : Event Arg When
  begin : Arg → Event Arg When
  fired : When → ℕ → Event Arg When

pub data Life : Type 0 where
  life : (lua : ℕ) → (waiting : Bool) → Life

-- Lua acts on an object only through a reference, and starts it only while it does not wait.
pub data Legal {Arg When : Type 0} : Life → Event Arg When → Life → Type 0 where
  grabs : {n : ℕ} {b : Bool} → Legal (life (suc n) b) grab (life (suc (suc n)) b)
  collects : {n : ℕ} {b : Bool} → Legal (life (suc n) b) collect (life n b)
  begins : {n : ℕ} {a : Arg} → Legal (life (suc n) false) (begin a) (life (suc n) true)
  fires : {n k : ℕ} {t : When} → Legal (life n true) (fired t k) (life (n + k) false)

pub data History {Arg When : Type 0} : Life → List (Event Arg When) → Life → Type 0 where
  here : {l : Life} → History l [] l
  next :
      {l m n : Life} {e : Event Arg When} {es : List (Event Arg When)}
      → Legal l e m
      → History m es n
      → History l (e ∷ es) n

module _ (rc : RefCounts) (im : Impl) where
  unfoldable pub perform : Event im.Arg im.When → Act rc im
  perform grab = retain rc im.I
  perform collect = drop rc im.I im.free
  perform (begin a) = start rc im a
  perform (fired t k) = fire rc im t (keep rc im.I k)

  unfoldable pub run : List (Event im.Arg im.When) → Act rc im
  run [] = pure tt
  run (e ∷ es) = do perform e; run es

  abbrev pub object : rc.R → Bool → Bool → im.I → Object rc.R im.I
  object = Counting.object rc im.I

  -- The object counts Lua's references and its own, which it holds while it waits; when there are
  -- none it is deleted and its implementation is freed.
  pub data Refines : Life → Object rc.R im.I → Type 0 where
    dead : (r : rc.R) (i : im.I) → im.IsFreed i → Refines (life 0 false) (object r false false i)
    idle :
        {n : ℕ} (r : rc.R) (i : im.I)
        → rc.count r ≡ suc n
        → im.IsIdle i
        → Refines (life (suc n) false) (object r false true i)
    waits :
        {n : ℕ} (r : rc.R) (i : im.I)
        → rc.count r ≡ suc n
        → im.IsWaiting i
        → Refines (life n true) (object r true true i)

  -- The last reference deletes an object that does not wait.
  drop_last :
      (r : rc.R) (b alive : Bool) (i : im.I)
      → rc.count r ≡ 1
      → im.IsIdle i
      → Returns
          (λ _ p. (j : im.I) × im.IsFreed j × (p ≡ object (rc.release r) b false j))
          (drop rc im.I im.free (object r b alive i))
  unfolding drop destroy
  drop_last r b alive i e free =
      let last : (rc.count (rc.release r) == 0) ≡ true = rw (rc.count-release r 0 e) in
      rw last (
        Counting.impl-bind rc im.I (object (rc.release r) b alive i)
          (λ _ o. ok tt (record o { alive = false })) (im.free-Returns i free)
          λ _ j f. returns (j, f, refl))

  collected :
      (n : ℕ) (r : rc.R) (i : im.I)
      → rc.count r ≡ suc n
      → im.IsIdle i
      → Returns (λ _ p. Refines (life n false) p) (drop rc im.I im.free (object r false true i))
  collected zero r i e free =
      Returns.mono (drop_last r false true i e free)
        λ _ p d. subst (λ q. Refines (life 0 false) q) (sym d.2) (dead (rc.release r) d.0 d.1)
  collected (suc n) r i e free =
      rw (Counting.drop_more rc im.I im.free r false true i e)
        (returns (idle (rc.release r) i (rc.count-release r (suc n) e) free))

  -- What is left once the object has let go of itself.
  settled :
      (n : ℕ) (r : rc.R) (i : im.I)
      → rc.count r ≡ suc n
      → im.IsIdle i
      → Returns (λ _ p. Refines (life n false) p) (un_ref rc im.I im.free (object r true true i))
  unfolding un_ref
  settled n r i e free = collected n r i e free

  called :
      (b : Bool) (n k : ℕ) (r : rc.R) (i : im.I)
      → rc.count r ≡ suc n
      → im.IsIdle i
      → Returns
          (λ _ p. Refines (life (n + k) false) p)
          (callback rc im b (keep rc im.I k) (object r true true i))
  unfolding callback timer_callback child_callback retain
  called true n k r i e free =
      let (r', run', e') =
        Counting.keep_lem rc im.I k (suc (suc n)) (rc.retain r) true true i
          (rc.count-retain r ∙ ap suc e) in
      let more : rc.count r' ≡ suc (suc (n + k)) = omega (arith, e') in
      rw (run', Counting.drop_more rc im.I im.free r' true true i more)
        (settled (n + k) (rc.release r') i (rc.count-release r' (suc (n + k)) more) free)
  called false n k r i e free =
      let (r', run', e') = Counting.keep_lem rc im.I k (suc n) r true true i e in
      let more : rc.count r' ≡ suc (n + k) = omega (arith, e') in
      rw run' (settled (n + k) r' i more free)

  started :
      (n : ℕ) (a : im.Arg) (r : rc.R) (i : im.I)
      → rc.count r ≡ suc n
      → im.IsIdle i
      → Returns (λ _ p. Refines (life (suc n) true) p) (start rc im a (object r false true i))
  unfolding start ref retain
  started n a r i e free =
      Counting.impl-last rc im.I (object (rc.retain r) true true i) (im.start-IsWaiting a i free)
        λ _ j w. waits (rc.retain r) j (rc.count-retain r ∙ ap suc e) w

  -- A legal event returns, and the object is afterwards as the specification says.
  perform-Refines :
      {l m : Life} (e : Event im.Arg im.When) (o : Object rc.R im.I)
      → Refines l o
      → Legal l e m
      → Returns (λ _ p. Refines m p) (perform e o)
  unfolding perform fire retain
  perform-Refines e _ (dead r i f) step = elim step [ ]
  perform-Refines e _ (idle r i c free) grabs =
      returns (idle (rc.retain r) i (rc.count-retain r ∙ ap suc c) free)
  perform-Refines e _ (waits r i c w) grabs =
      returns (waits (rc.retain r) i (rc.count-retain r ∙ ap suc c) w)
  perform-Refines e _ (idle {n} r i c free) collects = collected n r i c free
  perform-Refines e _ (waits r i c w) collects =
      rw (Counting.drop_more rc im.I im.free r true true i c)
        (returns (waits (rc.release r) i (rc.count-release r _ c) w))
  perform-Refines e _ (idle r i c free) (begins {a = a}) = started _ a r i c free
  perform-Refines e _ (waits {n} r i c w) (fires {k = k} {t = t}) =
      Counting.impl-bind rc im.I (object r true true i)
        (λ _. callback rc im im.counted (keep rc im.I k)) (im.deliver-IsIdle t i w)
        λ _ j free. called im.counted n k r j c free

  pub run-Refines :
      {l m : Life} (es : List (Event im.Arg im.When)) (o : Object rc.R im.I)
      → Refines l o
      → History l es m
      → Returns (λ _ p. Refines m p) (run es o)
  unfolding run
  run-Refines [] o f here = returns f
  run-Refines (e ∷ es) o f (next s h) =
      Returns.bind (perform-Refines e o f s) λ _ p g. run-Refines es p g h

  abbrev pub is_alive : Life → Bool
  is_alive (life n b) = ltb 0 n || b

  Refines-alive : {l : Life} {o : Object rc.R im.I} → Refines l o → o.alive ≡ is_alive l
  Refines-alive (dead r i f) = refl
  Refines-alive (idle r i c free) = ground arith
  Refines-alive (waits r i c w) = ground arith

  -- From the one reference that the constructor hands to Lua on, no history in which Lua acts
  -- through references that it holds and starts the object only while it does not wait ends in a
  -- fault or a failed assertion: the object stays alive as long as Lua holds a reference or it
  -- waits for its event, and is deleted, its implementation freed, when neither is so.
  pub life_lem :
      (r : rc.R) (i : im.I) (es : List (Event im.Arg im.When)) (m : Life)
      → rc.count r ≡ 1
      → im.IsIdle i
      → History (life 1 false) es m
      → Returns (λ _ p. (p.alive ≡ is_alive m) × Refines m p) (run es (object r false true i))
  life_lem r i es m one free h =
      Returns.mono (run-Refines es (object r false true i) (idle r i one free) h)
        λ _ p f. (Refines-alive f, f)
