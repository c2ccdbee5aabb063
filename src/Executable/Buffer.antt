-- ===== src/Executable/Buffer.antt =====
-- The buffer of `ixut_execpath` is large enough.
use iojxd.Prelude.{
  ℕ, zero, suc, ◌*◌, ◌-◌, ◌<◌, ◌≤◌, Option, ◌≡◌, refl, false, none, some, List, [], ◌∷◌, ◌++◌, ◌==◌,
  arith, length, drop,
}
use iojxd.Executable.{uninitialised, store_at, c_string, readlink_error, terminated, execpath}
use iojxd.Directory.LastSlash.{occurs}

pub store_at-append :
    {A : Type 0} (xs : List A) (y a : A) (ys : List A)
    → store_at (length xs) a (xs ++ y ∷ ys) ≡ some (xs ++ a ∷ ys)
unfolding store_at
store_at-append [] y a ys = refl
store_at-append (x ∷ xs) y a ys = rw (store_at-append xs y a ys)

c_string-append : (bs rest : List ℕ) → occurs 0 bs ≡ false → c_string (bs ++ 0 ∷ rest) ≡ some bs
unfolding c_string
c_string-append [] rest e = refl
c_string-append (b ∷ bs) rest e =
    let other : (b == 0) ≡ false = ground arith in
    let tail : occurs 0 bs ≡ false = ground arith in rw (other, c_string-append bs rest tail)

drop-cons : (n : ℕ) (xs : List ℕ) → n < length xs → (y : ℕ) × (ys : List ℕ) × (drop n xs ≡ y ∷ ys)
drop-cons n [] h = absurd (omega arith)
drop-cons zero (x ∷ xs) h = (x, xs, refl)
drop-cons (suc n) (x ∷ xs) h = drop-cons n xs (omega arith)

pub length-uninitialised : {A : Type 0} (junk : ℕ → A) (n : ℕ) → length (uninitialised junk n) ≡ n
length-uninitialised junk zero = refl
length-uninitialised junk (suc n) = rw (length-uninitialised junk n)

-- The link as it was read, and the message after an error.
abbrev pub read_path : Option (List ℕ) → List ℕ
read_path none = readlink_error
read_path (some bs) = bs

terminated_lem :
    (buffer : List ℕ) (link : Option (List ℕ))
    → ((bs : List ℕ) → link ≡ some bs → length bs < length buffer)
    → ((bs : List ℕ) → link ≡ some bs → occurs 0 bs ≡ false)
    → terminated buffer link ≡ some (read_path link)
unfolding terminated
terminated_lem buffer none room plain = refl
terminated_lem buffer (some bs) room plain =
    let (y, ys, e) = drop-cons (length bs) buffer (room bs refl) in
    rw (terminated, e, store_at-append bs y 0 ys, c_string-append bs ys (plain bs refl))

-- `ixut_execpath` stores within its buffer, whatever the buffer holds before: its result is the
-- whole of what `readlink` stored, and a message after an error. The conditions are on PATH_MAX,
-- which is not zero, and on `readlink`, which stores at most as many bytes as it is told that there
-- are, and no zero byte.
pub execpath_lem :
    (path_max : ℕ) (junk : ℕ → ℕ) (readlink : ℕ → Option (List ℕ))
    → 0 < path_max
    → ((size : ℕ) (bs : List ℕ) → readlink size ≡ some bs → length bs ≤ size)
    → ((size : ℕ) (bs : List ℕ) → readlink size ≡ some bs → occurs 0 bs ≡ false)
    → execpath path_max junk readlink ≡ some (read_path (readlink (path_max * 2 - 1)))
unfolding execpath
execpath_lem path_max junk readlink some_max bounded plain =
    terminated_lem (uninitialised junk (path_max * 2)) (readlink (path_max * 2 - 1))
      (λ bs e.
        let whole = length-uninitialised junk (path_max * 2) in
        let short = bounded (path_max * 2 - 1) bs e in omega (arith, whole))
      (plain (path_max * 2 - 1))
