-- ===== src/Lua/Callables.antt =====
-- `luabridge::ixex::fromCFunction` of src/lbext.hxx.
use iojxd.Prelude.{◌≡◌, ◌∙◌, ap, refl, some, List, [], ◌∷◌, ◌++◌}
use iojxd.Memory.{ok}
use iojxd.Lua.{Lua, bottom, bottom_value, from_c_function}

bottom-append : {V : Type 0} (above : List V) (v : V) → bottom (above ++ v ∷ []) ≡ some v
bottom-append [] v = refl
bottom-append (w ∷ []) v = refl
bottom-append (w ∷ x ∷ above) v = bottom-append (x ∷ above) v

module _ (lua : Lua) where
  pub bottom_value-ok :
      (l : lua.L) (v : lua.V) → bottom (lua.stack l) ≡ some v → bottom_value lua l ≡ ok v l
  unfolding bottom_value
  bottom_value-ok l v e = rw (bottom_value, e)

  -- On an empty stack `fromCFunction` makes a reference to its function; on any other one it
  -- makes a reference to the value at the bottom instead. The function stays on the stack.
  pub from_c_function_lem :
      (func v : lua.V) (above : List lua.V) (empty l : lua.L)
      → lua.stack empty ≡ []
      → lua.stack l ≡ above ++ v ∷ []
      → (from_c_function lua func empty ≡ ok func (lua.push func empty))
        × (from_c_function lua func l ≡ ok v (lua.push func l))
        × (lua.stack (lua.push func l) ≡ func ∷ lua.stack l)
  unfolding from_c_function
  from_c_function_lem func v above empty l e e' = (
    bottom_value-ok (lua.push func empty) func
        (ap bottom (lua.stack-push func empty ∙ ap (λ x. func ∷ x) e)),
    bottom_value-ok (lua.push func l) v (
        ap bottom (lua.stack-push func l ∙ ap (λ x. func ∷ x) e') ∙ bottom-append (func ∷ above) v),
    lua.stack-push func l,
  )
