-- ===== src/Wrapper/Server/Functions/Latest.antt =====
-- Which function is called, from the history alone.
use iojxd.Prelude.{◌≡◌, refl, Bool, true, false, List, [], ◌∷◌, ◌++◌, arith, if◌then◌else◌}
use iojxd.Wrapper.Server.Functions.{
  Values, Name, cb_read, cb_accept, cb_close, Functions, no_functions, on_read, on_accept, on_close,
  callable, function_of, Event, setting, happening, set_function, run,
}

abbrev pub same_name : Name → Name → Bool
same_name cb_read cb_read = true
same_name cb_accept cb_accept = true
same_name cb_close cb_close = true
same_name _ _ = false

module _ (values : Values) where
  -- The value that was last set under a name, in a history with the latest event first.
  abbrev pub latest : Name → List (Event values) → values.V
  latest n [] = values.nil
  latest n (setting m v ∷ past) = if same_name n m then v else latest n past
  latest n (happening m ∷ past) = latest n past

  -- Each event calls what was last set under its name, if that can be called.
  abbrev pub expected : (past es : List (Event values)) → List values.V
  expected past [] = []
  expected past (setting n v ∷ es) = expected (setting n v ∷ past) es
  expected past (happening n ∷ es) =
      (if callable values (latest n past) then latest n past ∷ [] else [])
      ++ expected (happening n ∷ past) es

  function_of-set :
      (n m : Name) (v : values.V) (f : Functions values)
      → function_of values n (set_function values m v f)
        ≡ (if same_name n m then v else function_of values n f)
  unfolding on_read on_accept on_close
  function_of-set cb_read cb_read v f = refl
  function_of-set cb_read cb_accept v f = refl
  function_of-set cb_read cb_close v f = refl
  function_of-set cb_accept cb_read v f = refl
  function_of-set cb_accept cb_accept v f = refl
  function_of-set cb_accept cb_close v f = refl
  function_of-set cb_close cb_read v f = refl
  function_of-set cb_close cb_accept v f = refl
  function_of-set cb_close cb_close v f = refl

  run-expected :
      (past es : List (Event values)) (f : Functions values)
      → ((n : Name) → function_of values n f ≡ latest n past)
      → run values es f ≡ expected past es
  run-expected past [] f same = refl
  run-expected past (setting m v ∷ es) f same =
      run-expected (setting m v ∷ past) es (set_function values m v f)
        λ n. rw (function_of-set n m v f, same n) refl
  run-expected past (happening m ∷ es) f same =
      rw (same m, run-expected (happening m ∷ past) es f same) refl

  nothing_set : (n : Name) → function_of values n (no_functions values) ≡ values.nil
  nothing_set cb_read = refl
  nothing_set cb_accept = refl
  nothing_set cb_close = refl

  -- In any history of a server each event of its connections calls one function, the one that was
  -- last set under the event's own name, if that can be called, and none if it cannot or if none
  -- was set; setting a function calls nothing and changes no other one.
  pub functions_lem :
      (es : List (Event values))
      → (run values es (no_functions values) ≡ expected [] es)
        × (callable values values.nil ≡ false)
  unfolding callable
  functions_lem es =
      let unset = values.is_nil-nil in
      (run-expected [] es (no_functions values) nothing_set, ground (arith, unset))
