-- ===== src/Directory.antt =====
-- `directory_name` of src/util.cxx: the part of a path before its last slash. A `std::string` is
-- the list of its characters.
pub mod LastSlash
mod Examples
use iojxd.Prelude.{
  ℕ, zero, suc, ◌+◌, Bool, Option, none, some, List, [], ◌∷◌, ◌==◌, take, if◌then◌else◌,
}

-- `std::string::rfind`, with `none` for `npos`.
unfoldable pub rfind : ℕ → List ℕ → Option ℕ
rfind slash [] = none
rfind slash (c ∷ cs) = elim (rfind slash cs) [
  | some k ↦ some (suc k)
  | none ↦ if c == slash then some zero else none
]

-- `src.substr(0, k)`
abbrev pub substr_to : ℕ → List ℕ → List ℕ
substr_to k src = take k src

unfoldable pub directory_name : List ℕ → ℕ → List ℕ
directory_name src slash = elim (rfind slash src) [ some k ↦ substr_to k src | none ↦ src ]
