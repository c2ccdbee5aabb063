-- ===== src/Coroutine/Examples.antt =====
-- A coroutine that spawns a process, on the concrete Lua states, and keeps what it is given.
use iojxd.Prelude.{ℕ, ◌≡◌, refl, pos, none, List, [], ◌∷◌}
use iojxd.Memory.{ok, ◌>>◌}
use iojxd.Ev.{Watchers}
use iojxd.Ev.Model.{plain_watchers}
use iojxd.Termination.{Handler, TermArgs, Store, terminated}
use iojxd.Termination.Ending.{waiting}
use iojxd.Lua.{context_name}
use iojxd.Lua.Model.{Value, table, ptr, str, State, state, model, assign}
use iojxd.Lua.Sample.{no_fields}
use iojxd.Coroutine.{States, Places, Action, resume, dispatch, spawn_process_co}
use iojxd.Coroutine.Model.{threads}
use iojxd.Coroutine.Resuming.{resumed_lem}

abbrev libev : Watchers Handler ℕ
libev = plain_watchers Handler ℕ

abbrev places : Places
places = record { context = 4; coroutine = 5; callback = 6 }

abbrev fields : Value → Value → Value
fields = assign no_fields (table 1) (str context_name) (ptr 4)

abbrev start : Store libev.W (States State)
start = record {
  args = none;
  event = none;
  client_state = record { main = state [] fields; co = state (ptr 9 ∷ []) fields };
}

-- The coroutine yields again, with an empty stack.
abbrev after : State → TermArgs × libev.W × States State
after c = (
  record { data_ = 5; cb = 6; pid = 42; status = 256; term_signal = 0 },
  waiting libev 42,
  record { main = state (table 2 ∷ []) fields; co = state [] fields },
)

abbrev wake : ℕ → Action model threads libev places (Unit {0})
wake n s =
    ok tt (record s { client_state = record { main = s.client_state.main; co = state [] fields } })

abbrev invoke : Value → List Value → Action model threads libev places (Unit {0})
invoke f vs = resume model threads libev places wake (threads.frame vs)

resumed_lem_example :
    (c : State) × (c.values ≡ table 3 ∷ table 259 ∷ table 45 ∷ ptr 4 ∷ ptr 9 ∷ [])
    × ((do
      spawn_process_co model threads libev places (pos 42) 5
      terminated libev (States State) (dispatch model threads libev places invoke) 42 256)
          start
        ≡ ok tt (record {
          args = none;
          event = none;
          client_state = record { main = state (table 2 ∷ []) fields; co = state [] fields };
        }))
resumed_lem_example =
    resumed_lem model threads libev places wake invoke after 41 42 256 start refl refl
      (λ vs t. refl) (λ c e. refl)
