-- ===== src/Wrapper.antt =====
-- The reference-counted objects that src/luafoundx.cxx hands to Lua: what `ixlbx_ref_base` and the
-- smart pointers to it do. The counts are LuaBridge's, which is not part of the repository, and are
-- a parameter.
pub mod Plain
pub mod Counting
pub mod OneShot
pub mod Connection
pub mod Server
pub mod Forked
use iojxd.Prelude.{ℕ, zero, suc, ◌+◌, ◌≡◌, Bool, true, false, ◌==◌, if◌then◌else◌}
use iojxd.Memory.{Run, Cmd, ok, err, bad_access, pure, ◌>>=◌, ◌>>◌}

-- The count of the `RefCountedPtr`s to one object, as it is documented: each pointer counts.
pub record RefCounts : Type 1 where
  pub R : Type 0
  pub count : R → ℕ
  pub retain : R → R
  pub release : R → R
  pub count-retain : (r : R) → count (retain r) ≡ suc (count r)
  pub count-release : (r : R) (n : ℕ) → count r ≡ suc n → count (release r) ≡ n

-- An object with its count, whether `m_this_ref` is set, and what `m_impl` points to. An object
-- that has been deleted is not alive.
pub record Object (R I : Type 0) : Type 0 where
  pub counts : R
  pub this_ref : Bool
  pub alive : Bool
  pub impl : I

module _ (rc : RefCounts) (I : Type 0) where
  abbrev pub Action : Type 0 → Type 0
  Action A = Cmd (Object rc.R I) A

  abbrev pub in_impl : {A : Type 0} → Object rc.R I → Run I A → Run (Object rc.R I) A
  in_impl o (ok a i) = ok a (record o { impl = i })
  in_impl o (err e) = err e

  abbrev pub on_impl : {A : Type 0} → Cmd I A → Action A
  on_impl m o = in_impl o (m o.impl)

  -- Any access to a member.
  abbrev pub access : Action (Unit {0})
  access o = if o.alive then ok tt o else err bad_access

  abbrev pub set_this_ref : Bool → Action (Unit {0})
  set_this_ref b o = ok tt (record o { this_ref = b })

  -- A new `RefCountedPtr` to the object, or a copy of one.
  unfoldable pub retain : Action (Unit {0})
  retain o = ok tt (record o { counts = rc.retain o.counts })

  -- A Lua function that keeps some more references.
  unfoldable pub keep : ℕ → Action (Unit {0})
  keep zero = pure tt
  keep (suc k) = do retain; keep k

  -- `ixlbx_ref_base::ref`
  unfoldable pub ref : Action (Unit {0})
  ref = do access; b ← λ o. ok o.this_ref o; if b then pure tt else (do retain; set_this_ref true)

  -- The rest is over the destructor of the class.
  module _ (destructor : Cmd I (Unit {0})) where
    -- `delete` of the object.
    unfoldable pub destroy : Action (Unit {0})
    destroy = do on_impl destructor; λ o. ok tt (record o { alive = false })

    -- The end of a `RefCountedPtr`: the last one deletes the object.
    unfoldable pub drop : Action (Unit {0})
    drop = do
      n ← λ o. ok (rc.count (rc.release o.counts)) (record o { counts = rc.release o.counts })
      if n == 0 then destroy else pure tt

    -- `ixlbx_ref_base::un_ref`
    unfoldable pub un_ref : Action (Unit {0})
    un_ref = do
      access
      b ← λ o. ok o.this_ref o
      if b then (do set_this_ref false; drop) else pure tt
