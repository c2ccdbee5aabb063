-- ===== src/Sandbox.antt =====
-- src/sandbox.cxx: resource limits and ids of the process. The kernel is a parameter.
pub mod Confined
pub mod Model
mod Examples
use iojxd.Prelude.{
  ℕ, ℤ, pos, negsuc, ◌≡◌, ◌+◌, ◌-◌, ◌%◌, ◌^◌, ◌≤◌, ◌<◌, Bool, true, false, ◌==◌, List, [], ◌∷◌,
}

-- The limits of the process by their resource, and the calls that change them, with whether they
-- return 0. A negative resource, which `setrlimit` refuses, is left out.
pub record Kernel : Type 1 where
  pub S : Type 0
  pub soft : ℕ → S → ℕ
  pub hard : ℕ → S → ℕ
  -- The effective user id is 0, with the capabilities that go with it.
  pub root : S → Bool
  -- No user id is 0, and there is no capability.
  pub confined : S → Bool
  -- The resources that the kernel knows.
  pub valid : ℕ → Bool
  -- `setrlimit`: a call that fails changes nothing.
  pub setrlimit : ℕ → ℕ → ℕ → S → Bool × S
  pub setrlimit-refused :
      (r cur max : ℕ) (s : S) → (setrlimit r cur max s).0 ≡ false → (setrlimit r cur max s).1 ≡ s
  pub soft-setrlimit :
      (r cur max : ℕ) (s : S)
      → (setrlimit r cur max s).0 ≡ true
      → soft r (setrlimit r cur max s).1 ≡ cur
  pub hard-setrlimit :
      (r cur max : ℕ) (s : S)
      → (setrlimit r cur max s).0 ≡ true
      → hard r (setrlimit r cur max s).1 ≡ max
  pub setrlimit-other :
      (r cur max q : ℕ) (s : S)
      → (q == r) ≡ false
      → (soft q (setrlimit r cur max s).1 ≡ soft q s)
        × (hard q (setrlimit r cur max s).1 ≡ hard q s)
  pub confined-setrlimit : (r cur max : ℕ) (s : S) → confined (setrlimit r cur max s).1 ≡ confined s
  -- EINVAL and EPERM
  pub setrlimit-ordered : (r cur max : ℕ) (s : S) → (setrlimit r cur max s).0 ≡ true → cur ≤ max
  pub setrlimit-lowers :
      (r cur max : ℕ) (s : S)
      → confined s ≡ true
      → (setrlimit r cur max s).0 ≡ true
      → max ≤ hard r s
  -- Every process may move a soft limit up to the hard one, and lower the hard one.
  pub setrlimit-succeeds :
      (r cur max : ℕ) (s : S)
      → valid r ≡ true
      → cur ≤ max
      → max ≤ hard r s
      → (setrlimit r cur max s).0 ≡ true
  -- `setuid`: for root it sets every user id.
  pub setuid : ℕ → S → Bool × S
  pub limits-setuid :
      (u q : ℕ) (s : S) → (soft q (setuid u s).1 ≡ soft q s) × (hard q (setuid u s).1 ≡ hard q s)
  pub confined-setuid : (u : ℕ) (s : S) → confined s ≡ true → confined (setuid u s).1 ≡ true
  pub setuid-confines :
      (u : ℕ) (s : S)
      → root s ≡ true
      → 0 < u
      → (setuid u s).0 ≡ true
      → confined (setuid u s).1 ≡ true
  pub setgid : ℕ → S → Bool × S
  pub limits-setgid :
      (g q : ℕ) (s : S) → (soft q (setgid g s).1 ≡ soft q s) × (hard q (setgid g s).1 ≡ hard q s)
  pub confined-setgid : (g : ℕ) (s : S) → confined s ≡ true → confined (setgid g s).1 ≡ true

-- A `long` as an `rlim_t`, both of 64 bits.
abbrev pub to_rlim : ℤ → ℕ
to_rlim (pos n) = n % 2 ^ 64
to_rlim (negsuc n) = 2 ^ 64 - (n % 2 ^ 64 + 1)

pub data Call : Type 0 where
  limiting_d : ℕ → ℤ → ℤ → Call
  limiting : ℕ → ℤ → Call
  setting_uid : ℕ → Call
  setting_gid : ℕ → Call

module _ (kernel : Kernel) where
  -- A failure is printed and not reported.
  unfoldable pub reslimit_d : ℕ → ℤ → ℤ → kernel.S → kernel.S
  reslimit_d resource soft hard s = (kernel.setrlimit resource (to_rlim soft) (to_rlim hard) s).1

  unfoldable pub reslimit : ℕ → ℤ → kernel.S → kernel.S
  reslimit resource val s = reslimit_d resource val val s

  unfoldable pub setuid : ℕ → kernel.S → Bool × kernel.S
  setuid uid s = kernel.setuid uid s

  unfoldable pub setgid : ℕ → kernel.S → Bool × kernel.S
  setgid uid s = kernel.setgid uid s

  abbrev pub perform : Call → kernel.S → kernel.S
  perform (limiting_d r soft hard) s = reslimit_d r soft hard s
  perform (limiting r val) s = reslimit r val s
  perform (setting_uid u) s = (setuid u s).1
  perform (setting_gid g) s = (setgid g s).1

  abbrev pub run : List Call → kernel.S → kernel.S
  run [] s = s
  run (c ∷ cs) s = run cs (perform c s)
