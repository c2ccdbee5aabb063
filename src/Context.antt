-- ===== src/Context.antt =====
-- src/context.cxx, `ixlu_initstate` of src/luafound.cxx and `main` of src/iojxd.cxx: the one
-- context of the program with its Lua state and libev's default loop. Lua, what it runs, and what
-- `malloc`, `luaL_newstate` and `ev_default_loop` return are parameters.
pub mod Creating
pub mod Running
pub mod Loop
mod Examples
use iojxd.Prelude.{
  ℕ, ◌≡◌, Bool, true, false, not, Option, none, some, List, ◌++◌, ltb, if◌then◌else◌,
}
use iojxd.Memory.{Ptr, Run, Cmd, ok, err, bad_access, pure, ◌>>=◌, ◌>>◌, assert, is_null}
use iojxd.Directory.{directory_name}
use iojxd.Lua.{Lua, add_packagepath, lib, register_context}
use iojxd.Lua

-- `struct ixc_context`: whether its two pointers are set.
pub record Context : Type 0 where
  pub state : Bool
  pub evl : Bool

-- The context, `none` while it is not allocated, the Lua state, `none` while it is not open, and
-- whether the default loop is there.
pub record World (L : Type 0) : Type 0 where
  pub allocated : Option Context
  pub lua_state : Option L
  pub default_loop : Bool

-- What the program is started with: the results of `ixut_execpath`, `luaL_newstate` and
-- `ev_default_loop`, and the functions that fill the Lua state.
pub record Start (L : Type 0) : Type 0 where
  pub execpath : List ℕ
  pub newstate : Option L
  pub loop : Bool
  pub openlibs : L → L
  pub reg_interface : L → L
  pub reg_interfacex : L → L

module _ (lua : Lua) (start : Start lua.L) where
  abbrev pub Action : Type 0 → Type 0
  Action A = Cmd (World lua.L) A

  -- `ctx->…`
  abbrev pub get : Action Context
  get w = elim w.allocated [ none ↦ err bad_access | some c ↦ ok c w ]

  abbrev pub set : Option Context → Action (Unit {0})
  set c w = ok tt (record w { allocated = c })

  abbrev pub set_lua : Option lua.L → Action (Unit {0})
  set_lua l w = ok tt (record w { lua_state = l })

  abbrev pub set_loop : Bool → Action (Unit {0})
  set_loop b w = ok tt (record w { default_loop = b })

  abbrev pub in_lua : {A : Type 0} → World lua.L → Run lua.L A → Run (World lua.L) A
  in_lua w (ok a l) = ok a (record w { lua_state = some l })
  in_lua w (err e) = err e

  unfoldable pub on_lua : {A : Type 0} → Cmd lua.L A → Action A
  on_lua m w = elim w.lua_state [ none ↦ err bad_access | some l ↦ in_lua w (m l) ]

  abbrev is_some : Option lua.L → Bool
  is_some none = false
  is_some (some l) = true

  abbrev pub libs_path : List ℕ
  libs_path = directory_name start.execpath b'/'

  -- `ixlu_initstate`, on the member `state` of the context.
  unfoldable pub initstate : Action (Unit {0})
  initstate = do
    c ← get
    set_lua start.newstate
    set (some (record c { state = is_some start.newstate }))
    assert (is_some start.newstate)
    on_lua (λ l. ok tt (start.openlibs l))
    on_lua (add_packagepath lua libs_path)
    on_lua (add_packagepath lua (libs_path ++ lib))

  -- `r` is what `malloc` returns. No use is made of what it finds in the context.
  unfoldable pub create_context : Ptr → Action Ptr
  create_context r = do
    set (if is_null r then none else some (record { state = false; evl = false }))
    initstate
    on_lua (λ l. ok tt (start.reg_interface l))
    on_lua (λ l. ok tt (start.reg_interfacex l))
    c ← get
    set_loop start.loop
    set (some (record c { evl = start.loop }))
    on_lua (register_context lua r)
    pure r

  -- `collect` and `close` are what `lua_gc` and `lua_close` run: the destructors of the objects
  -- that the program has left in the Lua state, which may fail an assertion of theirs.
  unfoldable pub destroy_context : (collect close : Action (Unit {0})) → Ptr → Action (Unit {0})
  destroy_context collect close ctx = do
    assert (not (is_null ctx))
    c ← get
    assert c.state
    assert c.evl
    collect
    close
    set_lua none
    set_loop false
    set (some (record { state = false; evl = false }))
    set none

  -- `main`: `dofile` is `ixlu_dofile` on the script, and `run` is `ev_run`.
  unfoldable pub main : ℕ → Ptr → (dofile run collect close : Action (Unit {0})) → Action (Unit {0})
  main argc r dofile run collect close =
      if ltb argc 2
      then pure tt
      else do ctx ← create_context r; dofile; run; destroy_context collect close ctx
