-- ===== src/Memory.antt =====
-- The C heap as an explicit store, and commands that may abort or fault. `malloc` hands out
-- addresses that were never in use, and NULL once `room` calls have succeeded.
pub mod Returns
pub mod Cells
use iojxd.Prelude.{
  ℕ, zero, suc, ◌+◌, ◌-◌, ◌≡◌, Bool, true, false, Option, none, some, ◌==◌, if◌then◌else◌,
}

abbrev pub Ptr : Type 0
Ptr = ℕ

abbrev pub null : Ptr
null = 0

-- A failed `assert`; an access that C leaves undefined; a loop that outlives its fuel.
pub data Fault : Type 0 where
  aborted bad_access out_of_fuel : Fault

pub data Run (S A : Type 0) : Type 0 where
  ok : A → S → Run S A
  err : Fault → Run S A

abbrev pub Cmd : Type 0 → Type 0 → Type 0
Cmd S A = S → Run S A

abbrev pub pure : {S A : Type 0} → A → Cmd S A
pure a s = ok a s

abbrev pub fail : {S A : Type 0} → Fault → Cmd S A
fail e s = err e

module _ {S A B : Type 0} where
  abbrev pub and_then : Run S A → (A → Cmd S B) → Run S B
  and_then (ok a s) k = k a s
  and_then (err e) k = err e

  infixl 5 ◌>>=◌ ◌>>◌
  abbrev pub ◌>>=◌ : Cmd S A → (A → Cmd S B) → Cmd S B
  m >>= k = λ s. and_then (m s) k

  abbrev pub ◌>>◌ : Cmd S A → Cmd S B → Cmd S B
  m >> n = m >>= λ _. n

-- `assert(c)`: the build leaves assertions on.
abbrev pub assert : {S : Type 0} → Bool → Cmd S (Unit {0})
assert true s = ok tt s
assert false s = err aborted

abbrev pub is_null : Ptr → Bool
is_null p = p == null

pub record Heap (A : Type 0) : Type 0 where
  pub brk : ℕ
  pub room : ℕ
  pub cell : Ptr → Option A

module _ {A : Type 0} where
  unfoldable pub write : (Ptr → Option A) → Ptr → Option A → Ptr → Option A
  write f p c q = if q == p then c else f q

  -- `malloc`; `blank` is the object before anything is stored in it.
  unfoldable pub malloc : A → Cmd (Heap A) Ptr
  unfolding write
  malloc blank h =
      if h.room == 0
      then ok null h
      else ok h.brk
          (record h { brk = h.brk + 1; room = h.room - 1; cell = write h.cell h.brk (some blank) })

  -- `*p`, a fault at NULL and at an address that holds no object.
  unfoldable pub load : Ptr → Cmd (Heap A) A
  load p h =
      if is_null p
      then err bad_access
      else elim (h.cell p) [ none ↦ err bad_access | some a ↦ ok a h ]

  -- The raw write behind `store` and `free`.
  unfoldable pub put : Ptr → Option A → Cmd (Heap A) (Unit {0})
  unfolding write
  put p c h = ok tt (record h { cell = write h.cell p c })

  unfoldable pub store : Ptr → A → Cmd (Heap A) (Unit {0})
  unfolding load put
  store p a = do load p; put p (some a)

  -- `free(p)`: nothing at NULL, a fault at what is not allocated.
  unfoldable pub free : Ptr → Cmd (Heap A) (Unit {0})
  unfolding load put
  free p = if is_null p then pure tt else do load p; put p none
