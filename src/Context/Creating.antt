-- ===== src/Context/Creating.antt =====
-- `ixc_create_context`.
use iojxd.Prelude.{
  ℕ, ◌<◌, ◌≡◌, ◌∙◌, ap, sym, refl, Bool, true, false, Option, none, some, List, ◌++◌, arith,
}
use iojxd.Memory.{Ptr, null, Cmd, ok, is_null}
use iojxd.Directory.{directory_name}
use iojxd.Directory.LastSlash.{occurs, occurs-directory_name}
use iojxd.Lua.{Lua, register_context, add_packagepath, lib, package_name, path_name, context_name}
use iojxd.Lua.PackagePath.{package_path, add_packagepath_lem, with_dir, occurs-append}
use iojxd.Lua.CurrentContext.{Registered, register_context_lem, registered}
use iojxd.Context.{Context, World, Start, on_lua, libs_path, initstate, create_context}

module _ (lua : Lua) where
  abbrev pub world : Option Context → Option lua.L → Bool → World lua.L
  world c l b = record { allocated = c; lua_state = l; default_loop = b }

  abbrev pub context : Bool → Bool → Option Context
  context s e = some (record { state = s; evl = e })

  -- A start at which nothing fails, with the new Lua state.
  abbrev pub started :
      List ℕ → lua.L → (lua.L → lua.L) → (lua.L → lua.L) → (lua.L → lua.L) → Start lua.L
  started exe l openlibs reg regx = record {
    execpath = exe;
    newstate = some l;
    loop = true;
    openlibs = openlibs;
    reg_interface = reg;
    reg_interfacex = regx;
  }

  string-distinct :
      (a b : List ℕ)
      → occurs 0 a ≡ false
      → occurs 0 b ≡ false
      → ¬ (a ≡ b)
      → ¬ (lua.string a ≡ lua.string b)
  string-distinct a b plain plain' ne e =
      let texts : some a ≡ some b =
        sym (lua.text-string a plain) ∙ ap lua.text e ∙ lua.text-string b plain' in
      ne (cc)

  Registered-path :
      (r : Ptr) (l l' : lua.L) → Registered lua r l l' → package_path lua l' ≡ package_path lua l
  Registered-path r l l' left =
      let other : (n : List ℕ)
          → occurs 0 n ≡ false
          → ¬ (n ≡ context_name)
          → (u : lua.V) → lua.field l' u (lua.string n) ≡ lua.field l u (lua.string n) =
        λ n plain ne u.
          left.keeps_fields u (lua.string n)
            (λ both. string-distinct n context_name plain refl ne both.1) in
      let table = other package_name refl (λ e. ground (arith, e)) lua.globals in
      ap lua.text (
        ap (λ t. lua.field l' t (lua.string path_name)) table
        ∙ other path_name refl (λ e. ground (arith, e)) _)

  -- A registration of functions changes neither the stack nor the package path.
  abbrev pub KeepsPath : (lua.L → lua.L) → Type 0
  KeepsPath f =
      (l : lua.L) → (lua.stack (f l) ≡ lua.stack l) × (package_path lua (f l) ≡ package_path lua l)

  -- The package path with the two directories of the program in it.
  abbrev pub full_path : List ℕ → List ℕ → List ℕ
  full_path p dir = with_dir (with_dir p dir) (dir ++ lib)

  module _ (exe : List ℕ) (l0 : lua.L) (openlibs reg regx : lua.L → lua.L) where
    abbrev start : Start lua.L
    start = started exe l0 openlibs reg regx

    on_lua-ok :
        {A : Type 0} (m : Cmd lua.L A) (c : Option Context) (l l' : lua.L) (b : Bool) (a : A)
        → m l ≡ ok a l'
        → on_lua lua start m (world c (some l) b) ≡ ok a (world c (some l') b)
    unfolding on_lua
    on_lua-ok m c l l' b a e = rw (on_lua, e)

    initstate_lem :
        (p : List ℕ) (s e b : Bool) (ls : Option lua.L)
        → occurs 0 (libs_path lua start) ≡ false
        → package_path lua (openlibs l0) ≡ some p
        → (l : lua.L) × (initstate lua start (world (context s e) ls b)
            ≡ ok tt (world (context true e) (some l) b))
          × (lua.stack l ≡ lua.stack (openlibs l0))
          × (package_path lua l ≡ some (full_path p (libs_path lua start)))
    unfolding initstate on_lua directory_name
    initstate_lem p s e b ls plain has_path =
        let dir = libs_path lua start in
        let (l1, run1, left1) = add_packagepath_lem lua dir p (openlibs l0) plain has_path in
        let (l2, run2, left2) =
          add_packagepath_lem lua (dir ++ lib) (with_dir p dir) l1
            (occurs-append dir lib plain refl) left1.new_path in
        (
          l2,
          rw (
            initstate,
            on_lua-ok (add_packagepath lua dir) (context true e) (openlibs l0) l1 b tt run1,
            on_lua-ok (add_packagepath lua (dir ++ lib)) (context true e) l1 l2 b tt run2,
          ),
          left2.keeps_stack ∙ left1.keeps_stack,
          left2.new_path,
        )

    -- What `ixc_create_context` leaves: the context, with both pointers, the loop, and the Lua
    -- state with its stack as it was, the two directories in the package path, and the context in
    -- the registry.
    pub record Created (r : Ptr) (p : List ℕ) (l : lua.L) : Type 0 where
      pub keeps_stack : lua.stack l ≡ lua.stack (openlibs l0)
      pub has_path : package_path lua l ≡ some (full_path p (libs_path lua start))
      pub has_context : registered lua l ≡ lua.light r

    pub create_context_lem :
        (r : Ptr) (p : List ℕ)
        → null < r
        → occurs 0 exe ≡ false
        → package_path lua (openlibs l0) ≡ some p
        → KeepsPath reg
        → KeepsPath regx
        → (l : lua.L) × (create_context lua start r (world none none false)
            ≡ ok r (world (context true true) (some l) true))
          × Created r p l
    unfolding create_context
    create_context_lem r p allocated plain has_path quiet quietx =
        let (l1, run1, s1, p1) =
          initstate_lem p false false false none (occurs-directory_name 0 b'/' exe plain)
            has_path in
        let (s2, p2) = quiet l1 in
        let (s3, p3) = quietx (reg l1) in
        let (l4, run4, left) = register_context_lem lua r (regx (reg l1)) in
        let not_null : is_null r ≡ false = ground arith in
        (
          l4,
          rw (
            create_context,
            not_null,
            run1,
            on_lua-ok (λ l. ok tt (reg l)) (context true false) l1 (reg l1) false tt refl,
            on_lua-ok (λ l. ok tt (regx l)) (context true false) (reg l1) (regx (reg l1)) false tt
                refl,
            on_lua-ok (register_context lua r) (context true true) (regx (reg l1)) l4 true tt run4,
          ),
          record {
            keeps_stack = left.keeps_stack ∙ s3 ∙ s2 ∙ s1;
            has_path = Registered-path r (regx (reg l1)) l4 left ∙ p3 ∙ p2 ∙ p1;
            has_context = left.has_context;
          },
        )
