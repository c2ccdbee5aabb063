-- ===== src/Lua/CurrentContext.antt =====
-- The pointer to the context in the registry: `ixc_create_context` stores it and `ixlb_get_cur_ctx`
-- reads it back.
use iojxd.Prelude.{ℕ, zero, suc, ◌≡◌, ◌∙◌, ap, refl, List, ◌∷◌}
use iojxd.Memory.{Ptr, ok, pure, ◌>>◌}
use iojxd.Lua.{Lua, Action, context_name, top_userdata, get_cur_ctx, register_context}

module _ (lua : Lua) where
  top_userdata-ok :
      (l : lua.L) (v : lua.V) (p : Ptr) (rest : List lua.V)
      → lua.stack l ≡ v ∷ rest
      → lua.userdata v ≡ p
      → top_userdata lua l ≡ ok p l
  unfolding top_userdata
  top_userdata-ok l v p rest e e' = rw (top_userdata, e, e')

  abbrev pub registered : lua.L → lua.V
  registered l = lua.field l lua.registry (lua.string context_name)

  -- What registering a context leaves: the stack, every field but its own, and there the context.
  pub record Registered (r : Ptr) (l l' : lua.L) : Type 0 where
    pub keeps_stack : lua.stack l' ≡ lua.stack l
    pub keeps_fields :
        (u k : lua.V)
        → ¬ ((u ≡ lua.registry) × (k ≡ lua.string context_name))
        → lua.field l' u k ≡ lua.field l u k
    pub has_context : registered l' ≡ lua.light r

  pub register_context_lem :
      (r : Ptr) (l : lua.L)
      → (l' : lua.L) × (register_context lua r l ≡ ok tt l') × Registered r l l'
  unfolding register_context
  register_context_lem r l =
      let name = lua.string context_name in
      let l1 = lua.push name l in
      let l2 = lua.push (lua.light r) l1 in
      let s : lua.stack l2 ≡ lua.light r ∷ name ∷ lua.stack l =
        lua.stack-push (lua.light r) l1 ∙ ap (λ x. lua.light r ∷ x) (lua.stack-push name l) in
      (
        lua.set_registry l2,
        refl,
        record {
          keeps_stack = lua.stack-set_registry l2 (lua.light r) name (lua.stack l) s;
          keeps_fields = λ u k other.
              lua.field-set_registry_other l2 (lua.light r) name (lua.stack l) u k s other
              ∙ lua.field-push (lua.light r) l1 u k
              ∙ lua.field-push name l u k;
          has_context = lua.field-set_registry l2 (lua.light r) name (lua.stack l) s;
        },
      )

  -- What a lookup of the context leaves: its result on the stack, and every field.
  pub record LookedUp (r : Ptr) (l l' : lua.L) : Type 0 where
    pub leaves : lua.stack l' ≡ lua.light r ∷ lua.stack l
    pub keeps_fields : (u k : lua.V) → lua.field l' u k ≡ lua.field l u k

  -- When a context has been registered, `ixlb_get_cur_ctx` returns it, changes no field, and leaves
  -- one value more on the stack.
  pub get_cur_ctx_lem :
      (r : Ptr) (l : lua.L)
      → registered l ≡ lua.light r
      → (l' : lua.L) × (get_cur_ctx lua l ≡ ok r l') × LookedUp r l l'
  unfolding get_cur_ctx
  get_cur_ctx_lem r l e =
      let name = lua.string context_name in
      let l1 = lua.push name l in
      let found : lua.field l1 lua.registry name ≡ lua.light r =
        lua.field-push name l lua.registry name ∙ e in
      let s : lua.stack (lua.get_registry l1) ≡ lua.light r ∷ lua.stack l =
        lua.stack-get_registry l1 name (lua.stack l) (lua.stack-push name l)
        ∙ ap (λ v. v ∷ lua.stack l) found in
      (
        lua.get_registry l1,
        top_userdata-ok (lua.get_registry l1) (lua.light r) r (lua.stack l) s
            (lua.userdata-light r),
        record {
          leaves = s;
          keeps_fields = λ u k. lua.field-get_registry l1 u k ∙ lua.field-push name l u k;
        },
      )

  -- `n` calls, of which the last one's result is dropped like the others.
  abbrev pub look_up_times : ℕ → Action lua (Unit {0})
  look_up_times zero = pure tt
  look_up_times (suc n) = do get_cur_ctx lua; look_up_times n

  abbrev pub repeated : ℕ → lua.V → List lua.V → List lua.V
  repeated zero v vs = vs
  repeated (suc n) v vs = repeated n v (v ∷ vs)

  -- After any number of calls of `ixlb_get_cur_ctx` the context is still found, and the stack holds
  -- one value more for each of them: none of them is ever removed.
  pub look_up_times_lem :
      (n : ℕ) (r : Ptr) (l : lua.L)
      → registered l ≡ lua.light r
      → (l' : lua.L) × (look_up_times n l ≡ ok tt l')
        × (registered l' ≡ lua.light r)
        × (lua.stack l' ≡ repeated n (lua.light r) (lua.stack l))
  look_up_times_lem zero r l e = (l, refl, e, refl)
  look_up_times_lem (suc n) r l e =
      let (l1, run, left) = get_cur_ctx_lem r l e in
      let again = left.keeps_fields lua.registry (lua.string context_name) ∙ e in
      let (l2, more, still, grown) = look_up_times_lem n r l1 again in
      (l2, rw (run, more), still, grown ∙ ap (repeated n (lua.light r)) left.leaves)
