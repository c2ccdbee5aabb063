-- ===== src/Memory/Returns.antt =====
-- Total correctness of a command's run: no fault, enough fuel, and a postcondition.
use iojxd.Memory.{err, Run, ok, Cmd, and_then}

pub data Returns {S A : Type 0} (P : A → S → Type 0) : Run S A → Type 0 where
  returns : {a : A} {s : S} → P a s → Returns P (ok a s)

module _ {S A : Type 0} {P : A → S → Type 0} where
  pub bind :
      {B : Type 0} {Q : B → S → Type 0} {r : Run S A} {k : A → Cmd S B}
      → Returns P r
      → ((a : A) (s : S) → P a s → Returns Q (k a s))
      → Returns Q (and_then r k)
  bind (returns p) next = next _ _ p

  pub mono :
      {Q : A → S → Type 0} {r : Run S A}
      → Returns P r
      → ((a : A) (s : S) → P a s → Q a s)
      → Returns Q r
  mono (returns p) weaken = returns (weaken _ _ p)

-- What holds if the run returns.
abbrev pub After : {S A : Type 0} → (A → S → Type 0) → Run S A → Type 0
After P (ok a s) = P a s
After P (err e) = Unit

-- A run that does not return.
abbrev pub Fails : {S A : Type 0} → Run S A → Type 0
Fails (ok a s) = ⊥
Fails (err e) = Unit

pub After-last :
    {S A B : Type 0} (P : B → S → Type 0) (r : Run S A) (k : A → Cmd S B)
    → ((a : A) (s : S) → After P (k a s))
    → After P (and_then r k)
After-last P (ok a s) k next = next a s
After-last P (err e) k next = tt

pub Fails-After :
    {S A B : Type 0} (P : A → S → Type 0) (r : Run S A) (k : A → Cmd S B)
    → After P r
    → ((a : A) (s : S) → P a s → Fails (k a s))
    → Fails (and_then r k)
Fails-After P (ok a s) k p fails = fails a s p
Fails-After P (err e) k p fails = tt

pub Fails-then : {S A B : Type 0} (r : Run S A) (k : A → Cmd S B) → Fails r → Fails (and_then r k)
Fails-then (ok a s) k fails = absurd fails
Fails-then (err e) k fails = tt
