-- ===== src/Executable/Arguments.antt =====
-- The argument vector of `ixlb_exec`.
use iojxd.Prelude.{
  ℕ, sym, ◌+◌, ◌≡◌, refl, Option, none, some, List, [], ◌∷◌, ◌++◌, map, append-nil, append_assoc,
  arith, length, length-append,
}
use iojxd.Executable.{uninitialised, store_at, fill, argument_vector}
use iojxd.Executable.Buffer.{store_at-append, length-uninitialised}

length-filled : {A : Type 0} (xs : List A) → length (map some xs) ≡ length xs
length-filled [] = refl
length-filled (x ∷ xs) = rw (length-filled xs)

filled-snoc :
    {A : Type 0} (xs : List A) (a : A) (cells : List (Option A))
    → map some (xs ++ a ∷ []) ++ cells ≡ map some xs ++ some a ∷ cells
filled-snoc [] a cells = refl
filled-snoc (x ∷ xs) a cells = rw (filled-snoc xs a cells)

length-snoc : {A : Type 0} (xs : List A) (a : A) → length (xs ++ a ∷ []) ≡ length xs + 1
length-snoc xs a = length-append xs (a ∷ [])

store-filled :
    {A : Type 0} (xs : List A) (y a : Option A) (cells : List (Option A))
    → store_at (length xs) a (map some xs ++ y ∷ cells) ≡ some (map some xs ++ a ∷ cells)
store-filled xs y a cells = rw (sym (length-filled xs), store_at-append (map some xs) y a cells)

-- With `done` filled in and one cell more than there are arguments left, the loop fills in the
-- rest.
fill_lem :
    {A : Type 0} (done rest : List A) (cells : List (Option A))
    → length cells ≡ length rest + 1
    → (y : Option A) × (fill (length done) rest (map some done ++ cells)
        ≡ some (map some (done ++ rest) ++ y ∷ []))
unfolding fill
fill_lem done rest [] e = absurd (omega arith)
fill_lem done [] (y ∷ []) e = (y, rw (append-nil done))
fill_lem done [] (y ∷ z ∷ cells) e = absurd (omega arith)
fill_lem done (a ∷ rest) (y ∷ cells) e =
    let (z, further) = fill_lem (done ++ a ∷ []) rest cells (omega arith) in
    (
      z,
      rw (
        fill,
        store-filled done y (some a) cells,
        sym (length-snoc done a),
        sym (filled-snoc done a cells),
        further,
        append_assoc done (a ∷ []) rest,
      ),
    )

-- `ixlb_exec` stores into no cell outside the vector that it allocates, whatever the vector holds
-- before, and hands over the arguments in their order and then NULL.
pub argument_vector_lem :
    {A : Type 0} (junk : ℕ → Option A) (stack : List A)
    → argument_vector junk stack ≡ some (map some stack ++ none ∷ [])
unfolding argument_vector
argument_vector_lem junk stack =
    let argv = uninitialised junk (length stack + 1) in
    let (y, filled) = fill_lem [] stack argv (length-uninitialised junk (length stack + 1)) in
    rw (argument_vector, filled, store-filled stack y none [])
