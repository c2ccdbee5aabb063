-- ===== src/Registration/Walking.antt =====
-- A chain of registrations read off its commands.
use Prim.Native.String.{String}
use iojxd.Prelude.{arith, ◌≡◌, ◌∙◌, ap, refl, Option, none, some, List, [], ◌∷◌, if◌then◌else◌}
use iojxd.Registration.{
  Scope, namespace, class_, Function, Command, begin, end, add, add_constructor, names, same_key,
  Registry, run,
}

-- The scopes that are open after a chain, `none` if a scope is ended that is not the innermost one.
abbrev pub end_with : Scope → List (Scope × String) → Option (List (Scope × String))
end_with k [] = none
end_with namespace ((namespace, n) ∷ p) = some p
end_with namespace ((class_, n) ∷ p) = none
end_with class_ ((namespace, n) ∷ p) = none
end_with class_ ((class_, n) ∷ p) = some p

abbrev pub walk : List Command → List (Scope × String) → Option (List (Scope × String))
walk [] p = some p
walk (begin k n ∷ cs) p = walk cs ((k, n) ∷ p)
walk (end k ∷ cs) p = elim (end_with k p) [ none ↦ none | some q ↦ walk cs q ]
walk (add n f ∷ cs) p = walk cs p
walk (add_constructor ∷ cs) p = walk cs p

abbrev rest : List (Scope × String) → List (Scope × String)
rest [] = []
rest (x ∷ p) = p

-- What stands under the name `q` after a chain, when `o` did before.
unfoldable pub find :
    List Command → List (Scope × String) → List String → Option Function → Option Function
find [] p q o = o
find (begin k n ∷ cs) p q o = find cs ((k, n) ∷ p) q o
find (end k ∷ cs) p q o = find cs (rest p) q o
find (add n f ∷ cs) p q o = find cs p q (if same_key q (n ∷ names p) then some f else o)
find (add_constructor ∷ cs) p q o = find cs p q o

module _ (reg : Registry) where
  -- What a chain leaves.
  pub record Registered (cs : List Command) (p q : List (Scope × String)) (s s' : reg.S)
      : Type 0 where
    pub open_scopes : reg.scopes s' ≡ q
    pub entries : (k : List String) → reg.entry s' k ≡ find cs p k (reg.entry s k)

  ended :
      (k : Scope) (n : String) (cs : List Command) (p q : List (Scope × String)) (s : reg.S)
      → Registered cs p q (reg.end_scope k s) (run reg cs (reg.end_scope k s))
      → Registered (end k ∷ cs) ((k, n) ∷ p) q s (run reg (end k ∷ cs) s)
  unfolding run find
  ended k n cs p q s r = record {
    open_scopes = r.open_scopes;
    entries = λ key. r.entries key ∙ ap (find cs p key) (reg.entry-end_scope k s key);
  }

  pub run_lem :
      (cs : List Command) (p q : List (Scope × String)) (s : reg.S)
      → reg.scopes s ≡ p
      → walk cs p ≡ some q
      → Registered cs p q s (run reg cs s)
  unfolding run find
  run_lem [] p q s e w = record { open_scopes = e ∙ (cc); entries = λ k. refl }
  run_lem (begin k n ∷ cs) p q s e w =
      let r =
        run_lem cs ((k, n) ∷ p) q (reg.begin_scope k n s)
          (reg.scopes-begin_scope k n s ∙ ap (λ x. (k, n) ∷ x) e) w in
      record {
        open_scopes = r.open_scopes;
        entries =
            λ key. r.entries key ∙ ap (find cs ((k, n) ∷ p) key) (reg.entry-begin_scope k n s key);
      }
  run_lem (end namespace ∷ cs) [] q s e w = absurd (ground (arith, w))
  run_lem (end class_ ∷ cs) [] q s e w = absurd (ground (arith, w))
  run_lem (end namespace ∷ cs) ((class_, n) ∷ p) q s e w = absurd (ground (arith, w))
  run_lem (end class_ ∷ cs) ((namespace, n) ∷ p) q s e w = absurd (ground (arith, w))
  run_lem (end namespace ∷ cs) ((namespace, n) ∷ p) q s e w =
      ended namespace n cs p q s
        (run_lem cs p q (reg.end_scope namespace s) (reg.scopes-end_scope namespace n p s e) w)
  run_lem (end class_ ∷ cs) ((class_, n) ∷ p) q s e w =
      ended class_ n cs p q s
        (run_lem cs p q (reg.end_scope class_ s) (reg.scopes-end_scope class_ n p s e) w)
  run_lem (add n f ∷ cs) p q s e w =
      let r = run_lem cs p q (reg.add_entry n f s) (reg.scopes-add_entry n f s ∙ e) w in
      record {
        open_scopes = r.open_scopes;
        entries = λ key.
            r.entries key
            ∙ ap (find cs p key) (
                reg.entry-add_entry n f s key
                ∙ ap (λ x. if same_key key (n ∷ names x) then some f else reg.entry s key) e);
      }
  run_lem (add_constructor ∷ cs) p q s e w =
      let r = run_lem cs p q (reg.construct s) (reg.scopes-construct s ∙ e) w in
      record {
        open_scopes = r.open_scopes;
        entries = λ key. r.entries key ∙ ap (find cs p key) (reg.entry-construct s key);
      }
