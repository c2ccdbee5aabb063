-- ===== src/Context/Loop/Fresh.antt =====
-- The loop that a process has after `ixlb_init_loop`.
use iojxd.Prelude.{suc, ◌<◌, ◌≡◌, ◌∙◌, ap, refl, true, some, ◌==◌, arith}
use iojxd.Memory.{Ptr, ok, ◌>>=◌}
use iojxd.Lua.{Lua}
use iojxd.Lua.CurrentContext.{registered, LookedUp, get_cur_ctx_lem}
use iojxd.Context.Loop.{DefaultLoop, LoopWorld, obtain, on_loop, init_loop}

module _ (lua : Lua) (ev : DefaultLoop) (context : Ptr) where
  -- `ev_default_loop (0)` and an operation on what it returns.
  on_obtained :
      (f : ev.S → ev.S) (w : LoopWorld lua.L ev.S)
      → (ev.obtain w.loops).0 ≡ true
      → (obtain lua ev context >>= on_loop lua ev context f) w
        ≡ ok tt (record w { loops = f (ev.obtain w.loops).1 })
  on_obtained f w makes =
      let there = ev.exists-obtain w.loops ∙ makes in
      let same : (ev.made (ev.obtain w.loops).1 == ev.made (ev.obtain w.loops).1) ≡ true =
        ground arith in
      rw (makes, there, same)

  -- Whatever was watched on the default loop, after `ixlb_init_loop` it is one that was made since,
  -- without watchers, which is initialised again at its next turn, and it is the loop that the
  -- context points to. No loop is used that is not there. The Lua stack keeps what the lookup of
  -- the context left there. The conditions: the context can be found, and libev can make a loop
  -- each time.
  pub init_loop_lem :
      (w : LoopWorld lua.L ev.S)
      → registered lua w.lua_state ≡ lua.light context
      → ((s : ev.S) → (ev.obtain s).0 ≡ true)
      → (l : lua.L) × (s : ev.S) × (init_loop lua ev context w
          ≡ ok tt (record { lua_state = l; evl = some (ev.made s); loops = s }))
        × LookedUp lua context w.lua_state l
        × (ev.exists s ≡ true)
        × (ev.made (ev.obtain w.loops).1 < ev.made s)
        × (ev.watched s ≡ 0)
        × (ev.renewed s ≡ true)
  unfolding init_loop
  init_loop_lem w found makes =
      let (l, looked, left) = get_cur_ctx_lem lua context w.lua_state found in
      let there : (context == context) ≡ true = ground arith in
      let s1 = (ev.obtain w.loops).1 in
      let s2 = (ev.obtain (ev.destroy s1)).1 in
      let s3 = (ev.obtain (ev.fork s2)).1 in
      let s4 = (ev.obtain (ev.destroy s3)).1 in
      let s5 = (ev.obtain s4).1 in
      let n2 =
        ev.made-obtain (ev.destroy s1) (ev.exists-destroy s1) (makes (ev.destroy s1))
        ∙ ap suc (ev.made-destroy s1) in
      let there2 = ev.exists-fork s2 ∙ (ev.exists-obtain (ev.destroy s1) ∙ makes (ev.destroy s1)) in
      let n3 = ap (λ p. ev.made p.1) (ev.obtain-existing (ev.fork s2) there2) ∙ ev.made-fork s2 in
      let n4 =
        ev.made-obtain (ev.destroy s3) (ev.exists-destroy s3) (makes (ev.destroy s3))
        ∙ ap suc (ev.made-destroy s3) in
      let here = ev.exists-obtain (ev.destroy s3) ∙ makes (ev.destroy s3) in
      let same : s5 ≡ s4 = ap (λ p. p.1) (ev.obtain-existing s4 here) in
      let stays : ev.made (ev.fork s5) ≡ ev.made s4 = ev.made-fork s5 ∙ ap ev.made same in
      (
        l,
        ev.fork s5,
        rw
            (
              on_obtained ev.destroy w (makes w.loops),
              on_obtained ev.fork (record w { loops = ev.destroy s1 }) (makes (ev.destroy s1)),
              on_obtained ev.destroy (record w { loops = ev.fork s2 }) (makes (ev.fork s2)),
              looked,
              there,
              makes (ev.destroy s3),
              on_obtained ev.fork (record { lua_state = l; evl = some (ev.made s4); loops = s4 })
                  (makes s4),
              stays,
            )
            refl,
        left,
        ev.exists-fork s5 ∙ ap ev.exists same ∙ here,
        omega (arith, n2, n3, n4, stays),
        ev.watched-fork s5
            ∙ ap ev.watched same
            ∙ ev.watched-obtain (ev.destroy s3) (ev.exists-destroy s3),
        ev.renewed-fork s5,
      )
