-- ===== src/Registration/Examples.antt =====
-- From an empty registry.
use iojxd.Prelude.{◌≡◌, refl, none, some, [], ◌∷◌}
use iojxd.Registration.{run, ixlb_sock_connect}
use iojxd.Registration.Tables.{reg_interface, reg_interfacex}
use iojxd.Registration.Names.{names_lem}
use iojxd.Registration.Model.{state, model}

names_lem_example :
    (model.scopes (run model reg_interfacex (run model reg_interface (state [] (λ q. none)))) ≡ [])
    × (model.entry
          (run model reg_interfacex (run model reg_interface (state [] (λ q. none))))
          ("connect" ∷ "tcp" ∷ "sock" ∷ "iojx" ∷ [])
        ≡ some ixlb_sock_connect)
names_lem_example = names_lem model (state [] (λ q. none)) ixlb_sock_connect refl
