-- ===== src/Coroutine/Resuming.antt =====
-- From the spawning of a process by a coroutine to what the coroutine gets when the process has
-- ended.
use iojxd.Prelude.{
  ℕ, suc, pos, ◌≡◌, ◌∙◌, ap, refl, true, some, none, List, [], ◌∷◌, ◌++◌, ◌==◌, arith,
}
use iojxd.Memory.{ok, ◌>>◌}
use iojxd.Ev.{Watchers}
use iojxd.Termination.{Handler, TermArgs, Store, spawn_process, terminated}
use iojxd.Termination.Ending.{reported, terminated_lem}
use iojxd.Lua.{Lua, bottom, get_cur_ctx, from_c_function}
use iojxd.Lua.CurrentContext.{registered, get_cur_ctx_lem}
use iojxd.Lua.Callables.{bottom_value-ok}
use iojxd.Coroutine.{
  Threads, States, Places, Action, first_userdata, resume, child_terminated, dispatch,
  spawn_process_co,
}

module _ (lua : Lua) (threads : Threads lua) (ev : Watchers Handler ℕ) (places : Places) where
  -- The values that a coroutine is resumed with, the last one first.
  abbrev pub news : ℕ → ℕ → List lua.V
  news pid status = threads.number 0 ∷ threads.number status ∷ threads.number pid ∷ []

  -- What the coroutine finds when it is resumed.
  abbrev pub awake : (pid rpid rstatus : ℕ) → States lua.L → lua.L → Store ev.W (States lua.L)
  awake pid rpid rstatus st c =
      reported ev pid rpid rstatus places.callback places.coroutine
        (record { main = lua.push threads.resume_function st.main; co = c })

  from_c_function-resume :
      (l : lua.L)
      → bottom (threads.resume_function ∷ lua.stack l) ≡ some threads.resume_function
      → from_c_function lua threads.resume_function l
        ≡ ok threads.resume_function (lua.push threads.resume_function l)
  unfolding from_c_function
  from_c_function-resume l e =
      bottom_value-ok lua (lua.push threads.resume_function l) threads.resume_function
        (ap bottom (lua.stack-push threads.resume_function l) ∙ e)

  abbrev arguments : ℕ → ℕ → List lua.V
  arguments pid status =
      threads.number 0
      ∷ threads.number status
      ∷ threads.number pid
      ∷ lua.light places.coroutine
      ∷ []

  first_userdata-frame :
      (rpid rstatus : ℕ)
      → first_userdata lua threads ev places (threads.frame (arguments rpid rstatus))
        ≡ places.coroutine
  first_userdata-frame rpid rstatus =
      let args = arguments rpid rstatus in
      rw (first_userdata, threads.stack-frame args) (lua.userdata-light places.coroutine)

  here : (places.coroutine == places.coroutine) ≡ true
  here = ground arith

  resume-news :
      (wake : ℕ → Action lua threads ev places (Unit {0})) (pid rpid rstatus : ℕ)
      (st : States lua.L) (c : lua.L)
      → resume lua threads ev places wake
          (threads.frame (arguments rpid rstatus))
          (awake pid rpid rstatus st c)
        ≡ wake 3 (
            awake pid rpid rstatus st
              (threads.xmove 3 (threads.frame (arguments rpid rstatus)) c).1)
  unfolding resume
  resume-news wake pid rpid rstatus st c =
      rw (first_userdata-frame rpid rstatus, here, threads.stack-frame (arguments rpid rstatus))
        refl

  child_terminated-resume :
      (invoke : lua.V → List lua.V → Action lua threads ev places (Unit {0})) (pid rpid rstatus : ℕ)
      (st : States lua.L) (c : lua.L)
      → get_cur_ctx lua st.co ≡ ok places.context c
      → bottom (threads.resume_function ∷ lua.stack st.main) ≡ some threads.resume_function
      → child_terminated lua threads ev places invoke
          (reported ev pid rpid rstatus places.callback places.coroutine st)
        ≡ invoke threads.resume_function (arguments rpid rstatus) (awake pid rpid rstatus st c)
  unfolding child_terminated
  child_terminated-resume invoke pid rpid rstatus st c found clear =
      let there : (places.context == places.context) ≡ true = ground arith in
      rw (here, found, there, from_c_function-resume st.main clear) refl

  -- A process that a coroutine spawns resumes it once, when libev reports the end of its child:
  -- with three values, the pid and the status that libev reports and 0 for the signal, on top of
  -- the context's pointer, which the lookup of the context leaves there, and of what the
  -- coroutine's stack held. After what the coroutine does then, both objects of the callback are
  -- freed. The main Lua state keeps the function that resumes on its stack.
  --
  -- The conditions: `fork` gave a pid; the context can be found from the coroutine; the stack of
  -- the main Lua state is empty or has the function that resumes at its bottom; a call of that
  -- function runs it on its arguments; and the coroutine returns, `after` being what it does, and
  -- leaves the two objects in place.
  pub resumed_lem :
      (wake : ℕ → Action lua threads ev places (Unit {0}))
      (invoke : lua.V → List lua.V → Action lua threads ev places (Unit {0}))
      (after : lua.L → TermArgs × ev.W × States lua.L) (n rpid rstatus : ℕ)
      (s : Store ev.W (States lua.L))
      → registered lua s.client_state.co ≡ lua.light places.context
      → bottom (threads.resume_function ∷ lua.stack s.client_state.main)
        ≡ some threads.resume_function
      → ((vs : List lua.V) (t : Store ev.W (States lua.L))
          → invoke threads.resume_function vs t
            ≡ resume lua threads ev places wake (threads.frame vs) t)
      → ((c : lua.L)
          → lua.stack c
            ≡ news rpid rstatus ++ lua.light places.context ∷ lua.stack s.client_state.co
          → wake 3 (awake (suc n) rpid rstatus s.client_state c)
            ≡ ok tt (record {
              args = some (after c).0;
              event = some (after c).1;
              client_state = (after c).2;
            }))
      → (c : lua.L) × (lua.stack c
          ≡ news rpid rstatus ++ lua.light places.context ∷ lua.stack s.client_state.co)
        × ((do
          spawn_process_co lua threads ev places (pos (suc n)) places.coroutine
          terminated ev (States lua.L) (dispatch lua threads ev places invoke) rpid rstatus)
              s
            ≡ ok tt (record { args = none; event = none; client_state = (after c).2 }))
  unfolding spawn_process_co spawn_process
  resumed_lem wake invoke after n rpid rstatus s found clear calls returns =
      let st = s.client_state in
      let (co, looked, left) = get_cur_ctx_lem lua places.context st.co found in
      let called = threads.frame (arguments rpid rstatus) in
      let c = (threads.xmove 3 called co).1 in
      let moved =
        (threads.stack-xmove (news rpid rstatus) (lua.light places.coroutine ∷ []) called co
          (threads.stack-frame (arguments rpid rstatus))).1
        ∙ ap (λ x. news rpid rstatus ++ x) left.leaves in
      let same : (places.callback == places.callback) ≡ true = ground arith in
      let run : dispatch lua threads ev places invoke places.callback
            (reported ev (suc n) rpid rstatus places.callback places.coroutine st)
          ≡ ok tt (record {
            args = some (after c).0;
            event = some (after c).1;
            client_state = (after c).2;
          }) =
        rw same (
          child_terminated-resume invoke (suc n) rpid rstatus st co looked clear
          ∙ calls (arguments rpid rstatus) (awake (suc n) rpid rstatus st co)
          ∙ resume-news wake (suc n) rpid rstatus st co
          ∙ returns c moved) in
      (
        c,
        moved,
        terminated_lem ev (States lua.L) (suc n) places.callback places.coroutine s
            (dispatch lua threads ev places invoke) rpid rstatus (after c).0 (after c).1 (after c).2
            run,
      )
