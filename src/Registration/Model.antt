-- ===== src/Registration/Model.antt =====
-- A concrete registry: the open scopes and the entries, as a function.
use Prim.Native.String.{String}
use iojxd.Prelude.{◌≡◌, refl, Option, some, List, [], ◌∷◌, if◌then◌else◌}
use iojxd.Registration.{Scope, Function, names, same_key, Registry}

pub record State : Type 0 where
  pub open_scopes : List (Scope × String)
  pub entries : List String → Option Function

abbrev pub state : List (Scope × String) → (List String → Option Function) → State
state p f = record { open_scopes = p; entries = f }

abbrev pub outer : List (Scope × String) → List (Scope × String)
outer [] = []
outer (x ∷ p) = p

pub outer_lem :
    (k : Scope) (n : String) (p q : List (Scope × String)) → q ≡ (k, n) ∷ p → outer q ≡ p
outer_lem k n p q e = rw e refl

abbrev pub model : Registry
model = record {
  S = State;
  scopes = λ s. s.open_scopes;
  entry = λ s. s.entries;
  begin_scope = λ k n s. state ((k, n) ∷ s.open_scopes) s.entries;
  scopes-begin_scope = λ k n s. refl;
  entry-begin_scope = λ k n s q. refl;
  end_scope = λ k s. state (outer s.open_scopes) s.entries;
  scopes-end_scope = λ k n p s e. outer_lem k n p s.open_scopes e;
  entry-end_scope = λ k s q. refl;
  add_entry = λ n f s.
      state s.open_scopes
        (λ q. if same_key q (n ∷ names s.open_scopes) then some f else s.entries q);
  scopes-add_entry = λ n f s. refl;
  entry-add_entry = λ n f s q. refl;
  construct = λ s. s;
  scopes-construct = λ s. refl;
  entry-construct = λ s q. refl;
}
