-- ===== src/Directory/Examples.antt =====
-- Paths, with 47 for the slash.
use iojxd.Prelude.{◌≡◌, refl, [], ◌∷◌}
use iojxd.Directory.{directory_name}
use iojxd.Directory.LastSlash.{directory_name_lem}

-- "/a/b" and "b"
directory_name_lem_example :
    (directory_name (47 ∷ 97 ∷ 47 ∷ 98 ∷ []) 47 ≡ 47 ∷ 97 ∷ [])
    × (directory_name (98 ∷ []) 47 ≡ 98 ∷ [])
directory_name_lem_example = directory_name_lem 47 (47 ∷ 97 ∷ []) (98 ∷ []) refl
