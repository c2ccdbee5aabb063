-- ===== src/Directory/LastSlash.antt =====
-- `directory_name` against a description by the parts of the path.
use iojxd.Prelude.{
  zero, suc, Option, ℕ, ◌≡◌, refl, Bool, true, false, none, some, List, [], ◌∷◌, ◌++◌, ◌||◌, ◌==◌,
  arith, take, length,
}
use iojxd.Directory.{rfind, directory_name}

abbrev pub occurs : ℕ → List ℕ → Bool
occurs slash [] = false
occurs slash (c ∷ cs) = (c == slash) || occurs slash cs

rfind-none : (slash : ℕ) (cs : List ℕ) → occurs slash cs ≡ false → rfind slash cs ≡ none
unfolding rfind
rfind-none slash [] e = refl
rfind-none slash (c ∷ cs) e =
    let other : (c == slash) ≡ false = ground arith in
    let rest : occurs slash cs ≡ false = ground arith in rw (rfind-none slash cs rest, other)

rfind-append :
    (slash : ℕ) (dir base : List ℕ)
    → occurs slash base ≡ false
    → rfind slash (dir ++ slash ∷ base) ≡ some (length dir)
unfolding rfind
rfind-append slash [] base e =
    let same : (slash == slash) ≡ true = ground arith in rw (rfind-none slash base e, same)
rfind-append slash (c ∷ dir) base e = rw (rfind-append slash dir base e)

take-length-append : (dir rest : List ℕ) → take (length dir) (dir ++ rest) ≡ dir
take-length-append [] [] = refl
take-length-append [] (c ∷ cs) = refl
take-length-append (c ∷ dir) rest = rw (take-length-append dir rest)

-- The directory of a path is what stands before its last slash, whatever slashes stand in it; a
-- path without a slash is its own directory.
pub directory_name_lem :
    (slash : ℕ) (dir base : List ℕ)
    → occurs slash base ≡ false
    → (directory_name (dir ++ slash ∷ base) slash ≡ dir) × (directory_name base slash ≡ base)
unfolding directory_name
directory_name_lem slash dir base e = (
  rw (directory_name, rfind-append slash dir base e, take-length-append dir (slash ∷ base)),
  rw (directory_name, rfind-none slash base e),
)

occurs-take : (c n : ℕ) (xs : List ℕ) → occurs c xs ≡ false → occurs c (take n xs) ≡ false
occurs-take c zero xs e = refl
occurs-take c (suc n) [] e = refl
occurs-take c (suc n) (x ∷ xs) e =
    let other : (x == c) ≡ false = ground arith in
    let rest : occurs c xs ≡ false = ground arith in rw (other, occurs-take c n xs rest)

-- A directory has no character that its path has not.
pub occurs-directory_name :
    (c slash : ℕ) (src : List ℕ)
    → occurs c src ≡ false
    → occurs c (directory_name src slash) ≡ false
unfolding directory_name
occurs-directory_name c slash src e = of_result (rfind slash src)
  where
    of_result : (k : Option ℕ) → occurs c (elim k [ some i ↦ take i src | none ↦ src ]) ≡ false
    of_result none = e
    of_result (some i) = occurs-take c i src e
