-- ===== src/Syscall/Names.antt =====
-- What `ixut_syscall_name` answers, for every header.
use Prim.Native.String.{String, ◌++◌ as str_append}
use text.Mathlib.Text.{◌==◌ as str_eq}
use text.Mathlib.TextEquality.{eq_iff}
use iojxd.Prelude.{
  ℕ, Bool, true, false, not, ◌&&◌, ◌≡◌, ◌≢◌, ◌⊎◌, inl, inr, refl, List, [], ◌∷◌, Option, none, some,
  arith, ◌∙◌, sym, subst, Bool-cases,
}
use mathlib.Core.Bool.{false≢true}
use iojxd.Syscall.Row.{Case}
use iojxd.Syscall.{Header, cases, matches, select, or_default, syscall_name}

-- The text that a macro should give: its name without "SYS_".
abbrev pub macro_of : String → String
macro_of text = str_append "SYS_" text

abbrev pub IsListed : String → List Case → Type 0
IsListed label [] = ⊥
IsListed label (c ∷ cs) = (c.label ≡ label) ⊎ IsListed label cs

-- No two of the listed macros are the same number, as a `switch` requires.
abbrev pub NoDuplicate : Header → Type 0
NoDuplicate defined = (l m : String) (n : ℕ) → defined l ≡ some n → defined m ≡ some n → l ≡ m

well_named : List Case → Bool
well_named [] = true
well_named (c ∷ cs) =
    str_eq c.label (macro_of c.text) && (not (str_eq c.text "unknown") && well_named cs)

well_named-cases : well_named cases ≡ true
unfolding well_named cases
well_named-cases = refl

-- What an answer of the `switch` comes from, and what its silence means.
abbrev Selected : Header → List Case → ℕ → Option String → Type 0
Selected defined cs call none = (label : String) → IsListed label cs → defined label ≢ some call
Selected defined cs call (some t) = (defined (macro_of t) ≡ some call) × (t ≢ "unknown")

Selected-skip :
    (defined : Header) (call : ℕ) (c : Case) (cs : List Case) (r : Option String)
    → defined c.label ≢ some call
    → Selected defined cs call r
    → Selected defined (c ∷ cs) call r
Selected-skip defined call c cs none ne rest =
    λ label h. elim h [ inl e ↦ subst (λ l. defined l ≢ some call) e ne | inr h' ↦ rest label h' ]
Selected-skip defined call c cs (some t) ne rest = rest

matches-eq : (o : Option ℕ) (n : ℕ) → matches o n ≡ true → o ≡ some n
matches-eq none n h = cc
matches-eq (some m) n h = ground arith

matches-ne : (o : Option ℕ) (n : ℕ) → matches o n ≡ false → o ≢ some n
matches-ne none n h = λ e. cc
matches-ne (some m) n h = λ e. ground arith

and_true : (a b : Bool) → (a && b) ≡ true → (a ≡ true) × (b ≡ true)
and_true true b h = (refl, h)
and_true false b h = cc

not-true : (b : Bool) → not b ≡ true → b ≡ false
not-true false h = refl
not-true true h = cc

select-Selected :
    (defined : Header) (call : ℕ) (cs : List Case)
    → well_named cs ≡ true
    → Selected defined cs call (select defined cs call)
unfolding select well_named
select-Selected defined call [] ok = λ label h. absurd h
select-Selected defined call (c ∷ cs) ok =
    let parts =
      and_true (str_eq c.label (macro_of c.text)) (not (str_eq c.text "unknown") && well_named cs)
        ok in
    let rest = and_true (not (str_eq c.text "unknown")) (well_named cs) parts.1 in
    elim (Bool-cases (matches (defined c.label) call)) [
      | inl hit ↦ rw hit (
        subst (λ l. defined l ≡ some call) ((eq_iff c.label (macro_of c.text)).0 parts.0)
            (matches-eq (defined c.label) call hit),
        λ e.
            false≢true
              (sym (not-true (str_eq c.text "unknown") rest.0) ∙ (eq_iff c.text "unknown").1 e),
      )
      | inr miss ↦ rw miss (
          Selected-skip defined call c cs (select defined cs call)
            (matches-ne (defined c.label) call miss) (select-Selected defined call cs rest.1))
    ]

Selected-sound :
    (defined : Header) (call : ℕ) (r : Option String)
    → Selected defined cases call r
    → (or_default r ≢ "unknown" → defined (macro_of (or_default r)) ≡ some call)
      × (or_default r ≡ "unknown"
          → (label : String) → IsListed label cases
          → defined label ≢ some call)
Selected-sound defined call none h = (λ ne. absurd (ne refl), λ e. h)
Selected-sound defined call (some t) h = (λ ne. h.0, λ e. absurd (h.1 e))

-- Whatever the header says, an answer other than "unknown" names a macro that is defined as the
-- number asked for, and "unknown" means that no listed macro is.
pub syscall_name_sound :
    (defined : Header) (call : ℕ)
    → (syscall_name defined call ≢ "unknown"
        → defined (macro_of (syscall_name defined call)) ≡ some call)
      × (syscall_name defined call ≡ "unknown"
          → (label : String) → IsListed label cases
          → defined label ≢ some call)
unfolding syscall_name
syscall_name_sound defined call =
    Selected-sound defined call (select defined cases call)
      (select-Selected defined call cases well_named-cases)

named :
    (defined : Header) (n : ℕ) (label : String)
    → NoDuplicate defined
    → IsListed label cases
    → defined label ≡ some n
    → (r : Option String) → Selected defined cases n r
    → macro_of (or_default r) ≡ label
named defined n label apart mem e none h = absurd (h label mem e)
named defined n label apart mem e (some t) h = apart (macro_of t) label n h.0 e

-- With a header in which no two macros are the same number, the number of each listed macro gets
-- that macro's own name.
pub syscall_name_complete :
    (defined : Header) (n : ℕ) (label : String)
    → NoDuplicate defined
    → IsListed label cases
    → defined label ≡ some n
    → macro_of (syscall_name defined n) ≡ label
unfolding syscall_name
syscall_name_complete defined n label apart mem e =
    named defined n label apart mem e (select defined cases n)
      (select-Selected defined n cases well_named-cases)
