-- ===== src/Wrapper/Plain.antt =====
-- Concrete reference counts that meet the laws, for runs of the model.
use iojxd.Prelude.{ℕ, suc, ◌-◌, ◌≡◌, refl, arith}
use iojxd.Wrapper.{RefCounts}

pub release_plain : (r n : ℕ) → r ≡ suc n → r - 1 ≡ n
release_plain r n e = omega (arith, e)

abbrev pub plain_counts : RefCounts
plain_counts = record {
  R = ℕ;
  count = λ r. r;
  retain = λ r. suc r;
  release = λ r. r - 1;
  count-retain = λ r. refl;
  count-release = release_plain;
}
