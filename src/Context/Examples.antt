-- ===== src/Context/Examples.antt =====
-- A program "/a/b" whose libraries set a package path and whose script does nothing.
use iojxd.Prelude.{false, true, ℕ, ◌≡◌, refl, arith, none, some, [], ◌∷◌, List}
use iojxd.Memory.{ok, pure}
use iojxd.Memory.Returns.{Returns, returns}
use iojxd.Lua.{get_cur_ctx}
use iojxd.Lua.CurrentContext.{look_up_times}
use iojxd.Lua.Model.{ptr, model}
use iojxd.Lua.Sample.{bare, opened}
use iojxd.Context.{main, create_context}
use iojxd.Context.Creating.{world, context}
use iojxd.Context.Running.{Released, start, main_lem, current_context_lem}

abbrev program : List ℕ
program = 47 ∷ 97 ∷ 47 ∷ 98 ∷ []

main_lem_example :
    Returns
      (λ _ w'. Released model w')
      (main model
        (start model program bare opened (λ l. l) (λ l. l))
        2
        5
        (pure tt)
        (pure tt)
        (pure tt)
        (pure tt)
        (world model none none false))
main_lem_example =
    main_lem model program bare opened (λ l. l) (λ l. l) 2 5 (63 ∷ []) (pure tt) (pure tt) (pure tt)
      (pure tt) (ground arith) refl refl (λ l. (refl, refl)) (λ l. (refl, refl)) (λ w p. returns p)
      (λ w p. returns p) (λ w p. returns p) (λ w p. returns p)

current_context_lem_example :
    (l l' l'' : model.L) × (create_context model
        (start model program bare opened (λ l. l) (λ l. l))
        5
        (world model none none false)
      ≡ ok 5 (world model (context model true true) (some l) true))
    × (look_up_times model 2 l ≡ ok tt l')
    × (get_cur_ctx model l' ≡ ok 5 l'')
    × (model.stack l'' ≡ ptr 5 ∷ ptr 5 ∷ ptr 5 ∷ [])
current_context_lem_example =
    current_context_lem model program bare opened (λ l. l) (λ l. l) 2 5 (63 ∷ []) (ground arith)
      refl refl (λ l. (refl, refl)) (λ l. (refl, refl))
