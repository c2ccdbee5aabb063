-- ===== src/Lua/Sample.antt =====
-- Concrete Lua states: without libraries, and with the package table 2 and the package path "?".
use iojxd.Prelude.{[], ◌∷◌}
use iojxd.Lua.{package_name, path_name}
use iojxd.Lua.Model.{Value, nil, str, table, State, state, assign}

abbrev pub no_fields : Value → Value → Value
no_fields t k = nil

abbrev pub bare : State
bare = state [] no_fields

abbrev pub opened : State → State
opened l = state [] (
    assign (assign no_fields (table 0) (str package_name) (table 2)) (table 2) (str path_name)
      (str (b'?' ∷ [])))
