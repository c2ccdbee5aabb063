-- ===== src/Sandbox/Model.antt =====
-- One concrete kernel: a user id, and the limits as functions. Only root, user 0, may raise a hard
-- limit.
use iojxd.Prelude.{
  ap, leb→le, ℕ, ◌≡◌, refl, ◌≤◌, ◌<◌, Bool-cases, inl, inr, Bool, true, false, not, ◌==◌, ◌&&◌,
  ◌||◌, ltb, leb, arith, if◌then◌else◌,
}
use iojxd.Sandbox.{Kernel}

pub record Process : Type 0 where
  pub uid : ℕ
  pub soft : ℕ → ℕ
  pub hard : ℕ → ℕ

abbrev pub is_root : Process → Bool
is_root s = s.uid == 0

abbrev pub put : (ℕ → ℕ) → ℕ → ℕ → ℕ → ℕ
put f r v q = if q == r then v else f q

pub put-same : (f : ℕ → ℕ) (r v : ℕ) → put f r v r ≡ v
put-same f r v = ground arith

pub put-other : (f : ℕ → ℕ) (r v q : ℕ) → (q == r) ≡ false → put f r v q ≡ f q
put-other f r v q e = rw e refl

or-true : (b : Bool) → (b || true) ≡ true
or-true true = refl
or-true false = refl

abbrev pub allowed : ℕ → ℕ → ℕ → Process → Bool
allowed r cur max s = leb cur max && (is_root s || leb max (s.hard r))

abbrev pub limited : ℕ → ℕ → ℕ → Process → Process
limited r cur max s = record s { soft = put s.soft r cur; hard = put s.hard r max }

abbrev pub setrlimit : ℕ → ℕ → ℕ → Process → Bool × Process
setrlimit r cur max s =
    (allowed r cur max s, if allowed r cur max s then limited r cur max s else s)

abbrev pub may_be : ℕ → Process → Bool
may_be u s = is_root s || (u == s.uid)

abbrev pub setuid : ℕ → Process → Bool × Process
setuid u s = (may_be u s, if may_be u s then record s { uid = u } else s)

pub limits-setuid :
    (u q : ℕ) (s : Process)
    → ((setuid u s).1.soft q ≡ s.soft q) × ((setuid u s).1.hard q ≡ s.hard q)
limits-setuid u q s = elim (Bool-cases (may_be u s)) [
  | inl h ↦ rw h (refl, refl)
  | inr h ↦ rw h (refl, refl)
]

pub setrlimit-other :
    (r cur max q : ℕ) (s : Process)
    → (q == r) ≡ false
    → ((setrlimit r cur max s).1.soft q ≡ s.soft q) × ((setrlimit r cur max s).1.hard q ≡ s.hard q)
setrlimit-other r cur max q s e = elim (Bool-cases (allowed r cur max s)) [
  | inl h ↦ rw h (put-other s.soft r cur q e, put-other s.hard r max q e)
  | inr h ↦ rw h (refl, refl)
]

pub uid-setrlimit : (r cur max : ℕ) (s : Process) → (setrlimit r cur max s).1.uid ≡ s.uid
uid-setrlimit r cur max s = elim (Bool-cases (allowed r cur max s)) [
  | inl h ↦ rw h refl
  | inr h ↦ rw h refl
]

pub is_root-setuid :
    (u : ℕ) (s : Process) → not (is_root s) ≡ true → not (is_root (setuid u s).1) ≡ true
is_root-setuid u s e = elim (Bool-cases (may_be u s)) [
  | inl h ↦ rw h (ground (arith, h, e))
  | inr h ↦ rw h e
]

pub allowed-ordered : (r cur max : ℕ) (s : Process) → allowed r cur max s ≡ true → cur ≤ max
allowed-ordered r cur max s e = leb→le cur max (ground (arith, e))

pub allowed-lowers :
    (r cur max : ℕ) (s : Process)
    → not (is_root s) ≡ true
    → allowed r cur max s ≡ true
    → max ≤ s.hard r
allowed-lowers r cur max s c e = leb→le max (s.hard r) (ground (arith, c, e))

pub allowed-lower :
    (r cur max : ℕ) (s : Process) → cur ≤ max → max ≤ s.hard r → allowed r cur max s ≡ true
allowed-lower r cur max s low lower =
    let first : leb cur max ≡ true = ground arith in
    let second : leb max (s.hard r) ≡ true = ground arith in
    rw (first, second) (or-true (is_root s))

pub not-zero : (u : ℕ) → 0 < u → not (u == 0) ≡ true
not-zero u user = ground arith

abbrev pub kernel : Kernel
kernel = record {
  S = Process;
  soft = λ r s. s.soft r;
  hard = λ r s. s.hard r;
  root = is_root;
  valid = λ r. ltb r 16;
  confined = λ s. not (is_root s);
  setrlimit = setrlimit;
  setrlimit-refused = λ r cur max s e. rw e refl;
  soft-setrlimit = λ r cur max s e. rw e (put-same s.soft r cur);
  hard-setrlimit = λ r cur max s e. rw e (put-same s.hard r max);
  setrlimit-other = setrlimit-other;
  confined-setrlimit = λ r cur max s. ap (λ u. not (u == 0)) (uid-setrlimit r cur max s);
  setrlimit-ordered = λ r cur max s e. allowed-ordered r cur max s e;
  setrlimit-lowers = λ r cur max s c e. allowed-lowers r cur max s c e;
  setrlimit-succeeds = λ r cur max s v low lower. allowed-lower r cur max s low lower;
  setuid = setuid;
  limits-setuid = limits-setuid;
  confined-setuid = is_root-setuid;
  setuid-confines = λ u s e user done. rw done (not-zero u user);
  setgid = λ g s. (true, s);
  limits-setgid = λ g q s. (refl, refl);
  confined-setgid = λ g s c. c;
}
