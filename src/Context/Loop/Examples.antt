-- ===== src/Context/Loop/Examples.antt =====
-- A loop with two watchers, in a process whose context is at the address 5.
use iojxd.Prelude.{◌<◌, ◌≡◌, refl, some, true, false, []}
use iojxd.Memory.{ok}
use iojxd.Lua.{context_name}
use iojxd.Lua.Model.{table, ptr, str, State, state, model, assign}
use iojxd.Lua.Sample.{no_fields}
use iojxd.Lua.CurrentContext.{LookedUp}
use iojxd.Context.Loop.{LoopWorld, init_loop}
use iojxd.Context.Loop.Model.{Loop, plain_loop}
use iojxd.Context.Loop.Fresh.{init_loop_lem}

abbrev forked : LoopWorld State Loop
forked = record {
  lua_state = state [] (assign no_fields (table 1) (str context_name) (ptr 5));
  evl = some 1;
  loops = record { exists = true; made = 1; watched = 2; renewed = false };
}

init_loop_lem_example :
    (l : State) × (s : Loop) × (init_loop model plain_loop 5 forked
      ≡ ok tt (record { lua_state = l; evl = some s.made; loops = s }))
    × LookedUp model 5 forked.lua_state l
    × (s.exists ≡ true)
    × (1 < s.made)
    × (s.watched ≡ 0)
    × (s.renewed ≡ true)
init_loop_lem_example = init_loop_lem model plain_loop 5 forked refl λ s. refl
