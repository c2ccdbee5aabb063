-- ===== src/Lua.antt =====
-- The Lua API, as far as src/luafound.cxx and src/context.cxx use it, and the functions of
-- src/luafound.cxx that work on a Lua state. Lua is not part of the repository and is a parameter.
-- A text is the list of its characters.
pub mod PackagePath
pub mod CurrentContext
pub mod Callables
pub mod Model
pub mod Sample
use iojxd.Prelude.{ℕ, ◌≡◌, Bool, true, false, Option, none, some, List, [], ◌∷◌, ◌++◌, length}
use iojxd.Memory.{Ptr, Cmd, ok, err, bad_access, pure, fail, ◌>>=◌, ◌>>◌}
use iojxd.Directory.LastSlash.{occurs}

-- A Lua state, seen through its stack, the top first, and the fields of its tables, none of which
-- has metamethods. An operation says what it does where the stack holds what it needs.
pub record Lua : Type 1 where
  pub L : Type 0
  pub V : Type 0
  pub stack : L → List V
  pub field : L → V → V → V
  pub globals : V
  pub registry : V
  pub string : List ℕ → V
  pub light : Ptr → V
  -- The characters of a string up to its first zero, `none` for any other value.
  pub text : V → Option (List ℕ)
  -- The address of a userdata, and NULL for any other value.
  pub userdata : V → Ptr
  pub text-string : (s : List ℕ) → occurs 0 s ≡ false → text (string s) ≡ some s
  pub occurs-text : (v : V) (s : List ℕ) → text v ≡ some s → occurs 0 s ≡ false
  pub userdata-light : (p : Ptr) → userdata (light p) ≡ p
  -- `lua_push…`
  pub push : V → L → L
  pub stack-push : (v : V) (l : L) → stack (push v l) ≡ v ∷ stack l
  pub field-push : (v : V) (l : L) (t k : V) → field (push v l) t k ≡ field l t k
  -- `lua_pop (L, 1)`
  pub pop : L → L
  pub stack-pop : (l : L) (v : V) (rest : List V) → stack l ≡ v ∷ rest → stack (pop l) ≡ rest
  pub field-pop : (l : L) (t k : V) → field (pop l) t k ≡ field l t k
  pub getglobal : List ℕ → L → L
  pub stack-getglobal :
      (n : List ℕ) (l : L) → stack (getglobal n l) ≡ field l globals (string n) ∷ stack l
  pub field-getglobal : (n : List ℕ) (l : L) (t k : V) → field (getglobal n l) t k ≡ field l t k
  -- `lua_getfield (L, -1, n)`
  pub getfield : List ℕ → L → L
  pub stack-getfield :
      (n : List ℕ) (l : L) (t : V) (rest : List V)
      → stack l ≡ t ∷ rest
      → stack (getfield n l) ≡ field l t (string n) ∷ t ∷ rest
  pub field-getfield : (n : List ℕ) (l : L) (t k : V) → field (getfield n l) t k ≡ field l t k
  -- `lua_setfield (L, -2, n)`
  pub setfield : List ℕ → L → L
  pub stack-setfield :
      (n : List ℕ) (l : L) (v t : V) (rest : List V)
      → stack l ≡ v ∷ t ∷ rest
      → stack (setfield n l) ≡ t ∷ rest
  pub field-setfield :
      (n : List ℕ) (l : L) (v t : V) (rest : List V)
      → stack l ≡ v ∷ t ∷ rest
      → field (setfield n l) t (string n) ≡ v
  pub field-setfield_other :
      (n : List ℕ) (l : L) (v t : V) (rest : List V) (u k : V)
      → stack l ≡ v ∷ t ∷ rest
      → ¬ ((u ≡ t) × (k ≡ string n))
      → field (setfield n l) u k ≡ field l u k
  -- `lua_gettable (L, LUA_REGISTRYINDEX)`
  pub get_registry : L → L
  pub stack-get_registry :
      (l : L) (k : V) (rest : List V)
      → stack l ≡ k ∷ rest
      → stack (get_registry l) ≡ field l registry k ∷ rest
  pub field-get_registry : (l : L) (t k : V) → field (get_registry l) t k ≡ field l t k
  -- `lua_settable (L, LUA_REGISTRYINDEX)`
  pub set_registry : L → L
  pub stack-set_registry :
      (l : L) (v k : V) (rest : List V) → stack l ≡ v ∷ k ∷ rest → stack (set_registry l) ≡ rest
  pub field-set_registry :
      (l : L) (v k : V) (rest : List V)
      → stack l ≡ v ∷ k ∷ rest
      → field (set_registry l) registry k ≡ v
  pub field-set_registry_other :
      (l : L) (v k : V) (rest : List V) (u i : V)
      → stack l ≡ v ∷ k ∷ rest
      → ¬ ((u ≡ registry) × (i ≡ k))
      → field (set_registry l) u i ≡ field l u i

-- "package", "path", "_context", "/?.lua" and "/lib"
abbrev pub package_name : List ℕ
package_name = b'p' ∷ b'a' ∷ b'c' ∷ b'k' ∷ b'a' ∷ b'g' ∷ b'e' ∷ []

abbrev pub path_name : List ℕ
path_name = b'p' ∷ b'a' ∷ b't' ∷ b'h' ∷ []

abbrev pub context_name : List ℕ
context_name = b'_' ∷ b'c' ∷ b'o' ∷ b'n' ∷ b't' ∷ b'e' ∷ b'x' ∷ b't' ∷ []

abbrev pub lua_files : List ℕ
lua_files = b'/' ∷ b'?' ∷ b'.' ∷ b'l' ∷ b'u' ∷ b'a' ∷ []

abbrev pub lib : List ℕ
lib = b'/' ∷ b'l' ∷ b'i' ∷ b'b' ∷ []

-- The first and the last of a stack, its top and its index 1.
abbrev pub top : {V : Type 0} → List V → Option V
top [] = none
top (v ∷ vs) = some v

abbrev pub bottom : {V : Type 0} → List V → Option V
bottom [] = none
bottom (v ∷ []) = some v
bottom (v ∷ w ∷ vs) = bottom (w ∷ vs)

module _ (lua : Lua) where
  abbrev pub Action : Type 0 → Type 0
  Action A = Cmd lua.L A

  abbrev pub call : (lua.L → lua.L) → Action (Unit {0})
  call f l = ok tt (f l)

  -- `lua_tostring (L, -1)`, where NULL is given to `std::string`.
  unfoldable pub top_text : Action (List ℕ)
  top_text l = elim (top (lua.stack l)) [
    | none ↦ err bad_access
    | some v ↦ elim (lua.text v) [ none ↦ err bad_access | some s ↦ ok s l ]
  ]

  -- `lua_touserdata (L, -1)`
  unfoldable pub top_userdata : Action Ptr
  top_userdata l = elim (top (lua.stack l)) [
    | none ↦ err bad_access
    | some v ↦ ok (lua.userdata v) l
  ]

  -- `ixlu_add_packagepath` after the two lookups.
  unfoldable pub append_path : List ℕ → Action (Unit {0})
  append_path dir = do
    cur_path ← top_text
    call lua.pop
    call (lua.push (lua.string (cur_path ++ (b';' ∷ (dir ++ lua_files)))))
    call (lua.setfield path_name)
    call lua.pop

  unfoldable pub add_packagepath : List ℕ → Action (Unit {0})
  add_packagepath dir = do
    call (lua.getglobal package_name)
    call (lua.getfield path_name)
    append_path dir

  -- `ixlb_get_cur_ctx`
  unfoldable pub get_cur_ctx : Action Ptr
  get_cur_ctx = do call (lua.push (lua.string context_name)); call lua.get_registry; top_userdata

  -- `ixc_create_context`, from the registration on.
  unfoldable pub register_context : Ptr → Action (Unit {0})
  register_context r = do
    call (lua.push (lua.string context_name))
    call (lua.push (lua.light r))
    call lua.set_registry

  -- `lua_pushvalue (L, 1)`, as `LuaRef::fromStack (L, 1)` does it.
  unfoldable pub bottom_value : Action lua.V
  bottom_value l = elim (bottom (lua.stack l)) [ none ↦ err bad_access | some v ↦ ok v l ]

  -- `luabridge::ixex::fromCFunction`
  unfoldable pub from_c_function : lua.V → Action lua.V
  from_c_function func = do call (lua.push func); bottom_value
