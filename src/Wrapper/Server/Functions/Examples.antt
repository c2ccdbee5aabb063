-- ===== src/Wrapper/Server/Functions/Examples.antt =====
-- Values that are numbers: 0 for nil, and 1 for false.
use iojxd.Prelude.{ℕ, ◌≡◌, refl, false, ◌==◌, ltb, List, [], ◌∷◌}
use iojxd.Wrapper.Server.Functions.{
  Values, cb_read, cb_accept, cb_close, Event, setting, happening, no_functions, run, callable,
}
use iojxd.Wrapper.Server.Functions.Latest.{functions_lem}

abbrev numbers : Values
numbers = record {
  V = ℕ;
  in_condition = λ v. ltb 1 v;
  is_nil = λ v. v == 0;
  nil = 0;
  is_nil-nil = refl;
}

-- The accept function is set twice, the close function to false, and the read function not at all.
abbrev history : List (Event numbers)
history =
    setting cb_accept 7
    ∷ happening cb_accept
    ∷ happening cb_read
    ∷ setting cb_accept 8
    ∷ setting cb_close 1
    ∷ happening cb_close
    ∷ happening cb_accept
    ∷ []

functions_lem_example :
    (run numbers history (no_functions numbers) ≡ 7 ∷ 8 ∷ []) × (callable numbers 0 ≡ false)
unfolding callable
functions_lem_example = functions_lem numbers history
