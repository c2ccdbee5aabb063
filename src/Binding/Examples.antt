-- ===== src/Binding/Examples.antt =====
-- An empty heap, with numbers for the Lua values and 0 for nil, and calls that leave the blocks
-- alone.
use iojxd.Prelude.{List, ℕ, ◌≡◌, refl, Bool, true, false, none, [], ◌∷◌, arith, ◌==◌}
use iojxd.Memory.{Heap, ok, err, bad_access, pure, ◌>>=◌}
use iojxd.Binding.{Block, sock_connect, sock_create, on_read}
use iojxd.Binding.Connecting.{prepared, prepared_lem, released, outcome, connect_life}
use iojxd.Binding.Keeping.{keep_all, Refs, Answers, kept_lem}
use iojxd.Binding.Reading.{Installed, set_all, last_of, heard, reading_lem}

abbrev empty : Heap (Block ℕ)
empty = record { brk = 1; room = 9; cell = λ _. none }

abbrev is_nil : ℕ → Bool
is_nil v = v == 0

connect_life_example :
    (sock_connect ℕ 7 8 empty ≡ ok 1 (prepared ℕ empty 7 8))
    × (outcome ℕ is_nil (λ _. pure tt) false 1 (prepared ℕ empty 7 8)
        ≡ ok tt (released ℕ (prepared ℕ empty 7 8) 1 2 3))
    × (outcome ℕ is_nil (λ _. pure tt) true 1 (released ℕ (prepared ℕ empty 7 8) 1 2 3)
        ≡ err bad_access)
connect_life_example =
    connect_life ℕ is_nil (λ _. pure tt) false true empty (prepared ℕ empty 7 8) 7 8 (ground arith)
      (ground arith) refl (prepared_lem ℕ empty 7 8 (ground arith))

reading_lem_example :
    (p : ℕ) × (g : Heap (Block ℕ)) × ((sock_create ℕ >>= λ d. set_all ℕ d (7 ∷ 8 ∷ [])) empty
      ≡ ok tt g)
    × Installed ℕ 1 g 1 p (last_of ℕ none (7 ∷ 8 ∷ []))
    × (on_read ℕ is_nil (λ _. pure tt) 1 g
        ≡ heard ℕ is_nil (λ _. pure tt) (last_of ℕ none (7 ∷ 8 ∷ [])) g)
reading_lem_example =
    reading_lem ℕ is_nil (λ _. pure tt) empty (7 ∷ 8 ∷ []) (ground arith) (ground arith)
      (λ a le. refl)

kept_lem_example :
    (ps : List ℕ) × (g : Heap (Block ℕ)) × (keep_all ℕ (7 ∷ 0 ∷ []) empty ≡ ok ps g)
    × Refs ℕ g ps (7 ∷ 0 ∷ [])
    × Answers ℕ is_nil (λ _. pure tt) g ps (7 ∷ 0 ∷ [])
    × (g.brk ≡ 3)
kept_lem_example = kept_lem ℕ is_nil (λ _. pure tt) (7 ∷ 0 ∷ []) empty (ground arith) (ground arith)
