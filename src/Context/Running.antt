-- ===== src/Context/Running.antt =====
-- `main`, and the context as a Lua program sees it.
use iojxd.Prelude.{
  ap, ℕ, ◌<◌, ◌≡◌, ◌∙◌, Bool-cases, inl, inr, true, false, none, some, List, ◌∷◌, ltb, arith,
}
use iojxd.Memory.{Ptr, null, is_null, ok, ◌>>◌}
use iojxd.Memory.Returns.{bind, Returns, returns}
use iojxd.Directory.LastSlash.{occurs}
use iojxd.Lua.{Lua, get_cur_ctx}
use iojxd.Lua.PackagePath.{package_path}
use iojxd.Lua.CurrentContext.{get_cur_ctx_lem, look_up_times, look_up_times_lem, repeated}
use iojxd.Context.{
  World, Start, Action, set, set_lua, set_loop, create_context, destroy_context, main,
}
use iojxd.Context.Creating.{world, context, started, KeepsPath, create_context_lem}

module _ (lua : Lua) where
  -- The program has its context, with its Lua state and its loop.
  pub data Ready : World lua.L → Type 0 where
    ready : (l : lua.L) → Ready (world lua (context lua true true) (some l) true)

  -- Nothing is left of the program.
  pub data Released : World lua.L → Type 0 where
    released : Released (world lua none none false)

  module _ (exe : List ℕ) (l0 : lua.L) (openlibs reg regx : lua.L → lua.L) where
    abbrev pub start : Start lua.L
    start = started lua exe l0 openlibs reg regx

    -- An action that returns and leaves the context in place.
    abbrev pub Stays : Action lua start (Unit {0}) → Type 0
    Stays m = (w : World lua.L) → Ready w → Returns (λ _ w'. Ready w') (m w)

    released-ready :
        (w : World lua.L)
        → Ready w
        → Returns
            (λ _ w'. Released w')
            ((do
              set_lua lua start none
              set_loop lua start false
              set lua start (some (record { state = false; evl = false }))
              set lua start none)
              w)
    released-ready w (ready l) = returns released

    destroy-ready :
        (collect close : Action lua start (Unit {0})) (r : Ptr) (w : World lua.L)
        → null < r
        → Stays collect
        → Stays close
        → Ready w
        → Returns (λ _ w'. Released w') (destroy_context lua start collect close r w)
    unfolding destroy_context
    destroy-ready collect close r w allocated collects closes (ready l) =
        let not_null : is_null r ≡ false = ground arith in
        rw not_null
          (bind (collects _ (ready l)) λ _ u p. bind (closes u p) λ _ v q. released-ready v q)

    -- When `malloc`, `luaL_newstate` and `ev_default_loop` succeed, the path of the executable
    -- has no zero in it, the libraries set a package path, the registrations of functions keep it
    -- and the stack, the script and the loop return and leave the context in place, and so do the
    -- destructors that `lua_gc` and `lua_close` run in the end, none of which fails an assertion:
    -- then `main` returns, whatever the number of its arguments, and the Lua state is closed, the
    -- loop destroyed and the context freed.
    pub main_lem :
        (argc : ℕ) (r : Ptr) (p : List ℕ) (dofile run collect close : Action lua start (Unit {0}))
        → null < r
        → occurs 0 exe ≡ false
        → package_path lua (openlibs l0) ≡ some p
        → KeepsPath lua reg
        → KeepsPath lua regx
        → Stays dofile
        → Stays run
        → Stays collect
        → Stays close
        → Returns
            (λ _ w'. Released w')
            (main lua start argc r dofile run collect close (world lua none none false))
    unfolding main
    main_lem argc r p dofile run collect close allocated plain has_path quiet quietx does runs
          collects closes =
        elim (Bool-cases (ltb argc 2)) [
          | inl few ↦ rw few (returns released)
          | inr enough ↦
              (let (l, created, _) =
                  create_context_lem lua exe l0 openlibs reg regx r p allocated plain has_path quiet
                    quietx in
                rw (enough, created)
                  (bind (does _ (ready l)) λ _ u i.
                    bind (runs u i)
                      λ _ v j. destroy-ready collect close r v allocated collects closes j))
        ]

    -- When `malloc`, `luaL_newstate` and `ev_default_loop` succeed, the path of the executable
    -- has no zero in it, the libraries set a package path, and the registrations of functions
    -- keep it and the stack: then `ixc_create_context` returns, and `ixlb_get_cur_ctx` returns
    -- the context after any number of earlier calls. The Lua stack then holds, on top of what the
    -- libraries left there, one value for each call.
    pub current_context_lem :
        (n : ℕ) (r : Ptr) (p : List ℕ)
        → null < r
        → occurs 0 exe ≡ false
        → package_path lua (openlibs l0) ≡ some p
        → KeepsPath lua reg
        → KeepsPath lua regx
        → (l l' l'' : lua.L) × (create_context lua start r (world lua none none false)
            ≡ ok r (world lua (context lua true true) (some l) true))
          × (look_up_times lua n l ≡ ok tt l')
          × (get_cur_ctx lua l' ≡ ok r l'')
          × (lua.stack l'' ≡ lua.light r ∷ repeated lua n (lua.light r) (lua.stack (openlibs l0)))
    current_context_lem n r p allocated plain has_path quiet quietx =
        let (l, created, left) =
          create_context_lem lua exe l0 openlibs reg regx r p allocated plain has_path quiet
            quietx in
        let (l1, looked, still, grown) = look_up_times_lem lua n r l left.has_context in
        let (l2, found, after) = get_cur_ctx_lem lua r l1 still in
        (
          l,
          l1,
          l2,
          created,
          looked,
          found,
          after.leaves
              ∙ ap (λ s. lua.light r ∷ s)
                  (grown ∙ ap (repeated lua n (lua.light r)) left.keeps_stack),
        )
