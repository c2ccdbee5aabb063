-- ===== src/Coroutine.antt =====
-- `ixlu_resume` and `ixlb_spawn_process_co` of src/luafound.cxx: a coroutine of Lua that waits for
-- the end of a child process. The Lua API and what the coroutine does when it is resumed are
-- parameters. There is one context and one coroutine; an access through any other pointer is a
-- fault.
pub mod Resuming
pub mod Model
mod Examples
use iojxd.Prelude.{ℕ, ℤ, ◌≡◌, ◌-◌, none, some, List, [], ◌∷◌, ◌++◌, length, ◌==◌, if◌then◌else◌}
use iojxd.Memory.{Ptr, null, Run, Cmd, ok, err, bad_access, fail, ◌>>=◌, ◌>>◌}
use iojxd.Ev.{Watchers}
use iojxd.Termination.{Handler, Store, get_args, spawn_process}
use iojxd.Lua.{Lua, bottom, get_cur_ctx, from_c_function}

-- What Lua does for coroutines and C functions.
pub record Threads (lua : Lua) : Type 0 where
  -- `lua_pushinteger`, as LuaBridge passes an `int`.
  pub number : ℕ → lua.V
  -- The C function `ixlu_resume` as a value.
  pub resume_function : lua.V
  -- The state as a C function sees it that is called with these arguments, the last one first.
  pub frame : List lua.V → lua.L
  pub stack-frame : (vs : List lua.V) → lua.stack (frame vs) ≡ vs
  -- `lua_xmove`: what is left in the one state, and the other one.
  pub xmove : ℕ → lua.L → lua.L → lua.L × lua.L
  pub stack-xmove :
      (moved rest : List lua.V) (l co : lua.L)
      → lua.stack l ≡ moved ++ rest
      → (lua.stack (xmove (length moved) l co).0 ≡ rest)
        × (lua.stack (xmove (length moved) l co).1 ≡ moved ++ lua.stack co)

-- The main Lua state, which is the one of the context, and the coroutine's.
pub record States (L : Type 0) : Type 0 where
  pub main : L
  pub co : L

-- Where the context and the coroutine's state are, and the callback of `ixlb_spawn_process_co`.
pub record Places : Type 0 where
  pub context : Ptr
  pub coroutine : Ptr
  pub callback : Ptr

module _ (lua : Lua) (threads : Threads lua) (ev : Watchers Handler ℕ) (places : Places) where
  abbrev pub Action : Type 0 → Type 0
  Action A = Cmd (Store ev.W (States lua.L)) A

  abbrev in_main :
      {A : Type 0} → Store ev.W (States lua.L) → Run lua.L A → Run (Store ev.W (States lua.L)) A
  in_main s (ok a l) =
      ok a (record s { client_state = record { main = l; co = s.client_state.co } })
  in_main s (err e) = err e

  abbrev in_co :
      {A : Type 0} → Store ev.W (States lua.L) → Run lua.L A → Run (Store ev.W (States lua.L)) A
  in_co s (ok a l) =
      ok a (record s { client_state = record { main = s.client_state.main; co = l } })
  in_co s (err e) = err e

  -- On the member `state` of the context at an address.
  abbrev pub on_main : {A : Type 0} → Ptr → Cmd lua.L A → Action A
  on_main ctx m s =
      if ctx == places.context then in_main s (m s.client_state.main) else err bad_access

  -- On the Lua state at an address.
  abbrev pub on_co : {A : Type 0} → Ptr → Cmd lua.L A → Action A
  on_co p m s = if p == places.coroutine then in_co s (m s.client_state.co) else err bad_access

  -- `lua_touserdata (L, 1)`
  abbrev pub first_userdata : lua.L → Ptr
  first_userdata l = elim (bottom (lua.stack l)) [ none ↦ null | some v ↦ lua.userdata v ]

  -- `ixlu_resume`: `wake n` is `lua_resume (Lco, n)`.
  unfoldable pub resume : (ℕ → Action (Unit {0})) → lua.L → Action (Unit {0})
  resume wake l =
      let v = length (lua.stack l) in
      do on_co (first_userdata l) (λ c. ok tt (threads.xmove (v - 1) l c).1); wake (v - 1)

  -- The callback of `ixlb_spawn_process_co`: `invoke` is a call of a value from C++.
  unfoldable pub child_terminated : (lua.V → List lua.V → Action (Unit {0})) → Action (Unit {0})
  child_terminated invoke = do
    args ← get_args ev (States lua.L)
    ctx ← on_co args.data_ (get_cur_ctx lua)
    r ← on_main ctx (from_c_function lua threads.resume_function)
    invoke r (
        threads.number args.term_signal
        ∷ threads.number args.status
        ∷ threads.number args.pid
        ∷ lua.light args.data_
        ∷ [])

  -- `ixlb_spawn_process_co`, when `fork` returned `pid`.
  unfoldable pub spawn_process_co : ℤ → Ptr → Action (Unit {0})
  spawn_process_co pid co = spawn_process ev (States lua.L) pid places.callback co

  -- The call of a callback by its address.
  abbrev pub dispatch : (lua.V → List lua.V → Action (Unit {0})) → Ptr → Action (Unit {0})
  dispatch invoke cb = if cb == places.callback then child_terminated invoke else fail bad_access
