-- ===== src/Wrapper/Server/Functions.antt =====
-- The three Lua functions of `ixlbx_tcp_base` and which of them a connection's callback calls.
-- Lua's values are a parameter.
pub mod Latest
mod Examples
use iojxd.Prelude.{◌≡◌, Bool, true, false, not, ◌&&◌, List, [], ◌∷◌, ◌++◌, if◌then◌else◌}

-- A `LuaRef` in a condition, and `isNil`.
pub record Values : Type 1 where
  pub V : Type 0
  pub in_condition : V → Bool
  pub is_nil : V → Bool
  pub nil : V
  pub is_nil-nil : is_nil nil ≡ true

pub data Name : Type 0 where
  cb_read cb_accept cb_close : Name

module _ (values : Values) where
  -- `m_ref_cbread`, `m_ref_cbaccept` and `m_ref_cbclose`
  pub record Functions : Type 0 where
    pub cbread : values.V
    pub cbaccept : values.V
    pub cbclose : values.V

  -- As the constructor of `ixlbx_tcp_base` leaves them.
  abbrev pub no_functions : Functions
  no_functions = record { cbread = values.nil; cbaccept = values.nil; cbclose = values.nil }

  unfoldable pub on_read : values.V → Functions → Functions
  on_read cb f = record f { cbread = cb }

  unfoldable pub on_accept : values.V → Functions → Functions
  on_accept cb f = record f { cbaccept = cb }

  unfoldable pub on_close : values.V → Functions → Functions
  on_close cb f = record f { cbclose = cb }

  -- `cb && !cb.isNil ()`
  unfoldable pub callable : values.V → Bool
  callable v = values.in_condition v && not (values.is_nil v)

  -- The function that a callback takes, and what it calls.
  abbrev pub function_of : Name → Functions → values.V
  function_of cb_read f = f.cbread
  function_of cb_accept f = f.cbaccept
  function_of cb_close f = f.cbclose

  abbrev pub called : Name → Functions → List values.V
  called n f = if callable (function_of n f) then function_of n f ∷ [] else []

  pub data Event : Type 0 where
    setting : Name → values.V → Event
    happening : Name → Event

  abbrev pub set_function : Name → values.V → Functions → Functions
  set_function cb_read v f = on_read v f
  set_function cb_accept v f = on_accept v f
  set_function cb_close v f = on_close v f

  -- The functions that are called, in order.
  abbrev pub run : List Event → Functions → List values.V
  run [] f = []
  run (setting n v ∷ es) f = run es (set_function n v f)
  run (happening n ∷ es) f = called n f ++ run es f
