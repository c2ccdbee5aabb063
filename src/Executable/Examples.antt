-- ===== src/Executable/Examples.antt =====
-- A small buffer, and a program with two arguments.
use iojxd.Prelude.{
  ℕ, zero, suc, false, subst, ◌≤◌, arith, ◌≡◌, refl, Option, List, some, none, [], ◌∷◌, length,
}
use iojxd.Executable.{execpath, argument_vector}
use iojxd.Executable.Buffer.{read_path, execpath_lem}
use iojxd.Directory.LastSlash.{occurs}
use iojxd.Executable.Arguments.{argument_vector_lem}

-- "/a", cut off at the size of the buffer.
abbrev link : ℕ → Option (List ℕ)
link zero = some []
link (suc zero) = some (47 ∷ [])
link (suc (suc n)) = some (47 ∷ 97 ∷ [])

length-link : (size : ℕ) (bs : List ℕ) → link size ≡ some bs → length bs ≤ size
length-link zero bs e = subst (λ o. length (read_path o) ≤ 0) e (omega arith)
length-link (suc zero) bs e = subst (λ o. length (read_path o) ≤ 1) e (omega arith)
length-link (suc (suc n)) bs e = subst (λ o. length (read_path o) ≤ suc (suc n)) e (omega arith)

occurs-link : (size : ℕ) (bs : List ℕ) → link size ≡ some bs → occurs 0 bs ≡ false
occurs-link zero bs e = subst (λ o. occurs 0 (read_path o) ≡ false) e refl
occurs-link (suc zero) bs e = subst (λ o. occurs 0 (read_path o) ≡ false) e refl
occurs-link (suc (suc n)) bs e = subst (λ o. occurs 0 (read_path o) ≡ false) e refl

execpath_lem_example : execpath 2 (λ i. 7) link ≡ some (47 ∷ 97 ∷ [])
execpath_lem_example = execpath_lem 2 (λ i. 7) link (omega arith) length-link occurs-link

argument_vector_lem_example :
    argument_vector {A = ℕ} (λ i. some 9) (5 ∷ 6 ∷ []) ≡ some (some 5 ∷ some 6 ∷ none ∷ [])
argument_vector_lem_example = argument_vector_lem (λ i. some 9) (5 ∷ 6 ∷ [])
