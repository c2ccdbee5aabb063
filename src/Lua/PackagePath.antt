-- ===== src/Lua/PackagePath.antt =====
-- `ixlu_add_packagepath`.
use iojxd.Prelude.{
  ℕ, ◌≡◌, ◌∙◌, sym, ap, refl, false, Option, some, List, [], ◌∷◌, ◌++◌, ◌==◌, arith,
}
use iojxd.Memory.{ok}
use iojxd.Directory.LastSlash.{occurs}
use iojxd.Lua.{Lua, top_text, package_name, path_name, lua_files, append_path, add_packagepath}

pub occurs-append :
    (xs ys : List ℕ) → occurs 0 xs ≡ false → occurs 0 ys ≡ false → occurs 0 (xs ++ ys) ≡ false
occurs-append [] ys e e' = e'
occurs-append (x ∷ xs) ys e e' =
    let other : (x == 0) ≡ false = ground arith in
    let rest : occurs 0 xs ≡ false = ground arith in rw (other, occurs-append xs ys rest e')

abbrev pub with_dir : List ℕ → List ℕ → List ℕ
with_dir p dir = p ++ (b';' ∷ (dir ++ lua_files))

module _ (lua : Lua) where
  abbrev pub package_table : lua.L → lua.V
  package_table l = lua.field l lua.globals (lua.string package_name)

  abbrev pub package_path : lua.L → Option (List ℕ)
  package_path l = lua.text (lua.field l (package_table l) (lua.string path_name))

  string-package-path : ¬ (lua.string package_name ≡ lua.string path_name)
  string-package-path e =
      let texts : some package_name ≡ some path_name =
        sym (lua.text-string package_name refl) ∙ ap lua.text e ∙ lua.text-string path_name refl in
      ground (arith, texts)

  -- What `ixlu_add_packagepath` leaves: the stack, every field but the package path, and in it the
  -- directory.
  pub record Appended (dir p : List ℕ) (l l' : lua.L) : Type 0 where
    pub keeps_stack : lua.stack l' ≡ lua.stack l
    pub keeps_fields :
        (u k : lua.V)
        → ¬ ((u ≡ package_table l) × (k ≡ lua.string path_name))
        → lua.field l' u k ≡ lua.field l u k
    pub new_path : package_path l' ≡ some (with_dir p dir)

  abbrev pub looked_up : lua.L → lua.L
  looked_up l = lua.getfield path_name (lua.getglobal package_name l)

  abbrev pub assigned : lua.V → lua.L → lua.L
  assigned v l = lua.pop (lua.setfield path_name (lua.push v (lua.pop l)))

  stack-looked_up :
      (l : lua.L)
      → lua.stack (looked_up l)
        ≡ lua.field l (package_table l) (lua.string path_name) ∷ package_table l ∷ lua.stack l
  stack-looked_up l =
      let found =
        lua.stack-getfield path_name (lua.getglobal package_name l) (package_table l) (lua.stack l)
          (lua.stack-getglobal package_name l) in
      rw (found, lua.field-getglobal package_name l)

  field-looked_up : (l : lua.L) (u k : lua.V) → lua.field (looked_up l) u k ≡ lua.field l u k
  field-looked_up l u k =
      lua.field-getfield path_name (lua.getglobal package_name l) u k
      ∙ lua.field-getglobal package_name l u k

  -- The assignment, over the table and the old value.
  module _ (v w t : lua.V) (rest : List lua.V) (l : lua.L) (e : lua.stack l ≡ w ∷ t ∷ rest) where
    pushed : lua.stack (lua.push v (lua.pop l)) ≡ v ∷ t ∷ rest
    pushed = rw (lua.stack-push v (lua.pop l), lua.stack-pop l w (t ∷ rest) e)

    field-pushed : (u k : lua.V) → lua.field (lua.push v (lua.pop l)) u k ≡ lua.field l u k
    field-pushed u k = lua.field-push v (lua.pop l) u k ∙ lua.field-pop l u k

    stack-assigned : lua.stack (assigned v l) ≡ rest
    stack-assigned =
        lua.stack-pop _ t rest
          (lua.stack-setfield path_name (lua.push v (lua.pop l)) v t rest pushed)

    field-assigned : lua.field (assigned v l) t (lua.string path_name) ≡ v
    field-assigned =
        lua.field-pop _ _ _ ∙ lua.field-setfield path_name (lua.push v (lua.pop l)) v t rest pushed

    field-assigned_other :
        (u k : lua.V)
        → ¬ ((u ≡ t) × (k ≡ lua.string path_name))
        → lua.field (assigned v l) u k ≡ lua.field l u k
    field-assigned_other u k other =
        lua.field-pop _ u k
        ∙ lua.field-setfield_other path_name (lua.push v (lua.pop l)) v t rest u k pushed other
        ∙ field-pushed u k

  occurs-with_dir :
      (dir p : List ℕ) (l : lua.L)
      → occurs 0 dir ≡ false
      → package_path l ≡ some p
      → occurs 0 (with_dir p dir) ≡ false
  occurs-with_dir dir p l plain e =
      occurs-append p (b';' ∷ (dir ++ lua_files)) (lua.occurs-text _ p e)
        (occurs-append dir lua_files plain refl)

  pub top_text-ok :
      (l : lua.L) (v : lua.V) (s : List ℕ) (rest : List lua.V)
      → lua.stack l ≡ v ∷ rest
      → lua.text v ≡ some s
      → top_text lua l ≡ ok s l
  unfolding top_text
  top_text-ok l v s rest e e' = rw (top_text, e, e')

  -- The end of `ixlu_add_packagepath`, from the lookup on.
  append_path-ok :
      (dir p : List ℕ) (l : lua.L) (old : lua.V) (rest : List lua.V)
      → lua.stack l ≡ old ∷ rest
      → lua.text old ≡ some p
      → append_path lua dir l ≡ ok tt (assigned (lua.string (with_dir p dir)) l)
  unfolding append_path
  append_path-ok dir p l old rest e e' = rw (append_path, top_text-ok l old p rest e e')

  -- On a Lua state whose package path is a string, for a directory without a zero in it,
  -- `ixlu_add_packagepath` appends a semicolon, the directory and "/?.lua" to the package path;
  -- it leaves the stack and every other field as they were.
  pub add_packagepath_lem :
      (dir p : List ℕ) (l : lua.L)
      → occurs 0 dir ≡ false
      → package_path l ≡ some p
      → (l' : lua.L) × (add_packagepath lua dir l ≡ ok tt l') × Appended dir p l l'
  unfolding add_packagepath
  add_packagepath_lem dir p l plain e =
      let v = lua.string (with_dir p dir) in
      let old = lua.field l (package_table l) (lua.string path_name) in
      let t = package_table l in
      let keep : (u k : lua.V)
          → ¬ ((u ≡ t) × (k ≡ lua.string path_name))
          → lua.field (assigned v (looked_up l)) u k ≡ lua.field l u k =
        λ u k other.
          field-assigned_other v old t (lua.stack l) (looked_up l) (stack-looked_up l) u k other
          ∙ field-looked_up l u k in
      (
        assigned v (looked_up l),
        append_path-ok dir p (looked_up l) old (t ∷ lua.stack l) (stack-looked_up l) e,
        record {
          keeps_stack = stack-assigned v old t (lua.stack l) (looked_up l) (stack-looked_up l);
          keeps_fields = keep;
          new_path =
              ap lua.text (
                ap (λ u. lua.field (assigned v (looked_up l)) u (lua.string path_name))
                  (keep lua.globals (lua.string package_name) (λ both. string-package-path both.1))
                ∙ field-assigned v old t (lua.stack l) (looked_up l) (stack-looked_up l))
              ∙ lua.text-string (with_dir p dir) (occurs-with_dir dir p l plain e);
        },
      )
