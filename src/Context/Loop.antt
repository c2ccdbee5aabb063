-- ===== src/Context/Loop.antt =====
-- `ixlb_init_loop` of src/luafound.cxx, which a forked process calls. libev's default loop is a
-- parameter.
pub mod Fresh
pub mod Model
mod Examples
use iojxd.Prelude.{ℕ, suc, ◌≡◌, Bool, true, false, Option, none, some, ◌==◌, ◌&&◌, if◌then◌else◌}
use iojxd.Memory.{Ptr, Run, Cmd, ok, err, bad_access, ◌>>=◌, ◌>>◌}
use iojxd.Lua.{Lua, get_cur_ctx}

-- libev's default loop: whether it is there, how many loops have been made, the number of the one
-- that is there, how many watchers are active on it, and whether it is to be initialised again at
-- its next turn.
pub record DefaultLoop : Type 1 where
  pub S : Type 0
  pub exists : S → Bool
  pub made : S → ℕ
  pub watched : S → ℕ
  pub renewed : S → Bool
  -- `ev_default_loop (0)`, which returns the loop or makes it; false is NULL.
  pub obtain : S → Bool × S
  pub obtain-existing : (s : S) → exists s ≡ true → obtain s ≡ (true, s)
  pub made-obtain :
      (s : S) → exists s ≡ false → (obtain s).0 ≡ true → made (obtain s).1 ≡ suc (made s)
  pub exists-obtain : (s : S) → exists (obtain s).1 ≡ (obtain s).0
  pub watched-obtain : (s : S) → exists s ≡ false → watched (obtain s).1 ≡ 0
  -- `ev_loop_destroy`
  pub destroy : S → S
  pub exists-destroy : (s : S) → exists (destroy s) ≡ false
  pub made-destroy : (s : S) → made (destroy s) ≡ made s
  -- `ev_loop_fork`
  pub fork : S → S
  pub exists-fork : (s : S) → exists (fork s) ≡ exists s
  pub made-fork : (s : S) → made (fork s) ≡ made s
  pub watched-fork : (s : S) → watched (fork s) ≡ watched s
  pub renewed-fork : (s : S) → renewed (fork s) ≡ true

-- A Lua state, the context's `evl`, and the default loop. A pointer to a loop is the number of the
-- loop, and `none` is NULL.
pub record LoopWorld (L S : Type 0) : Type 0 where
  pub lua_state : L
  pub evl : Option ℕ
  pub loops : S

module _ (lua : Lua) (ev : DefaultLoop) (context : Ptr) where
  abbrev pub Action : Type 0 → Type 0
  Action A = Cmd (LoopWorld lua.L ev.S) A

  abbrev pub obtain : Action (Option ℕ)
  obtain w =
      let s = (ev.obtain w.loops).1 in
      ok (if (ev.obtain w.loops).0 then some (ev.made s) else none) (record w { loops = s })

  -- An operation on a loop, which must be the one that is there.
  abbrev pub on_loop : (ev.S → ev.S) → Option ℕ → Action (Unit {0})
  on_loop f none w = err bad_access
  on_loop f (some n) w =
      if ev.exists w.loops && (n == ev.made w.loops)
      then ok tt (record w { loops = f w.loops })
      else err bad_access

  abbrev in_lua : {A : Type 0} → LoopWorld lua.L ev.S → Run lua.L A → Run (LoopWorld lua.L ev.S) A
  in_lua w (ok a l) = ok a (record w { lua_state = l })
  in_lua w (err e) = err e

  abbrev pub current_context : Action Ptr
  current_context w = in_lua w (get_cur_ctx lua w.lua_state)

  -- `ctx->evl = …`
  abbrev pub set_evl : Ptr → Option ℕ → Action (Unit {0})
  set_evl ctx p w = if ctx == context then ok tt (record w { evl = p }) else err bad_access

  unfoldable pub init_loop : Action (Unit {0})
  init_loop = do
    first ← obtain
    on_loop ev.destroy first
    second ← obtain
    on_loop ev.fork second
    third ← obtain
    on_loop ev.destroy third
    ctx ← current_context
    fresh ← obtain
    set_evl ctx fresh
    last ← obtain
    on_loop ev.fork last
