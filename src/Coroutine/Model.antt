-- ===== src/Coroutine/Model.antt =====
-- Coroutines on the concrete Lua states: numbers and the function that resumes are distinct tables.
use iojxd.Prelude.{ℕ, zero, suc, ◌+◌, ◌≡◌, ap, refl, List, [], ◌∷◌, ◌++◌, length}
use iojxd.Lua.Model.{Value, table, State, state, model}
use iojxd.Lua.Sample.{no_fields}
use iojxd.Coroutine.{Threads}

-- What is left of the values, and the other values with what was moved on top.
abbrev pub move : ℕ → List Value → List Value → List Value × List Value
move zero vs cs = (vs, cs)
move (suc n) [] cs = ([], cs)
move (suc n) (v ∷ vs) cs = let (left, moved) = move n vs cs in (left, v ∷ moved)

pub left-move : (moved rest cs : List Value) → (move (length moved) (moved ++ rest) cs).0 ≡ rest
left-move [] rest cs = refl
left-move (v ∷ moved) rest cs = left-move moved rest cs

pub moved-move :
    (moved rest cs : List Value) → (move (length moved) (moved ++ rest) cs).1 ≡ moved ++ cs
moved-move [] rest cs = refl
moved-move (v ∷ moved) rest cs = ap (λ x. v ∷ x) (moved-move moved rest cs)

abbrev pub xmove : ℕ → State → State → State × State
xmove n l c =
    let (left, moved) = move n l.values c.values in (state left l.fields, state moved c.fields)

abbrev pub threads : Threads model
threads = record {
  number = λ n. table (n + 3);
  resume_function = table 2;
  frame = λ vs. state vs no_fields;
  stack-frame = λ vs. refl;
  xmove = xmove;
  stack-xmove =
      λ moved rest l co e. rw e (left-move moved rest co.values, moved-move moved rest co.values);
}
