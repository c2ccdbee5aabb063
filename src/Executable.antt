-- ===== src/Executable.antt =====
-- `ixut_execpath` of src/platformed.cxx, as Linux compiles it, and the argument vector of
-- `ixlb_exec` in src/luafound.cxx: two arrays that are filled in place. A text is the list of its
-- characters.
pub mod Buffer
pub mod Arguments
mod Examples
use iojxd.Prelude.{
  ℕ, zero, suc, ◌+◌, ◌*◌, ◌-◌, Option, none, some, List, [], ◌∷◌, ◌++◌, ◌==◌, if◌then◌else◌, length,
  drop,
}

-- An array of so many cells that nothing has been stored into: what they hold is a parameter.
abbrev pub uninitialised {ℓ} : {A : Type ℓ} → (ℕ → A) → ℕ → List A
uninitialised junk zero = []
uninitialised junk (suc n) = junk n ∷ uninitialised junk n

-- A store into an array; `none` is one out of bounds.
unfoldable pub store_at {ℓ} : {A : Type ℓ} → ℕ → A → List A → Option (List A)
store_at i a [] = none
store_at zero a (x ∷ xs) = some (a ∷ xs)
store_at (suc i) a (x ∷ xs) = elim (store_at i a xs) [ none ↦ none | some ys ↦ some (x ∷ ys) ]

-- A `char *` as a `std::string`: up to the first zero, and `none` if there is none.
unfoldable pub c_string : List ℕ → Option (List ℕ)
c_string [] = none
c_string (c ∷ cs) =
    let rest : Option (List ℕ) = elim (c_string cs) [ none ↦ none | some t ↦ some (c ∷ t) ] in
    if c == 0 then some [] else rest

-- "ixut_exepath: error in readlink."
abbrev pub readlink_error : List ℕ
readlink_error =
    b'i' ∷ b'x' ∷ b'u' ∷ b't' ∷ b'_' ∷ b'e' ∷ b'x' ∷ b'e' ∷ b'p' ∷ b'a' ∷ b't' ∷ b'h' ∷ b':' ∷ b' '
    ∷ b'e' ∷ b'r' ∷ b'r' ∷ b'o' ∷ b'r' ∷ b' ' ∷ b'i' ∷ b'n' ∷ b' ' ∷ b'r' ∷ b'e' ∷ b'a' ∷ b'd'
    ∷ b'l' ∷ b'i' ∷ b'n' ∷ b'k' ∷ b'.' ∷ []

-- The end of `ixut_execpath`: `link` is what `readlink` stored into the buffer, or `none` for -1.
unfoldable pub terminated : List ℕ → Option (List ℕ) → Option (List ℕ)
terminated buffer none = some readlink_error
terminated buffer (some bs) = elim (store_at (length bs) 0 (bs ++ drop (length bs) buffer)) [
  | none ↦ none
  | some filled ↦ c_string filled
]

-- `path_max` is PATH_MAX, `junk` what the buffer holds before, and `readlink size` what `readlink`
-- stores of the link "/proc/self/exe" into a buffer that it is told is of that size.
unfoldable pub execpath : ℕ → (ℕ → ℕ) → (ℕ → Option (List ℕ)) → Option (List ℕ)
unfolding terminated
execpath path_max junk readlink =
    terminated (uninitialised junk (path_max * 2)) (readlink (path_max * 2 - 1))

-- The loop of `ixlb_exec`, from index `i` on.
unfoldable pub fill : {A : Type 0} → ℕ → List A → List (Option A) → Option (List (Option A))
fill i [] argv = some argv
fill i (a ∷ rest) argv = elim (store_at i (some a) argv) [
  | none ↦ none
  | some argv' ↦ fill (i + 1) rest argv'
]

-- The vector handed to `execvp`, from `malloc` on; `junk` is what the vector holds before, and
-- `none` in it is NULL.
unfoldable pub argument_vector : {A : Type 0} → (ℕ → Option A) → List A → Option (List (Option A))
argument_vector junk stack = elim (fill 0 stack (uninitialised junk (length stack + 1))) [
  | none ↦ none
  | some filled ↦ store_at (length stack) none filled
]
