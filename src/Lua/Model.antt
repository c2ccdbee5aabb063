-- ===== src/Lua/Model.antt =====
-- One concrete Lua state: a stack and the fields of its tables, as functions. The globals are the
-- table 0, the registry the table 1.
use iojxd.Prelude.{
  subst, ℕ, ◌≡◌, ap, Bool-cases, inl, inr, refl, Bool, true, false, Option, none, some, List, [],
  ◌∷◌, ◌==◌, ◌&&◌, arith, if◌then◌else◌,
}
use iojxd.Memory.{Ptr}
use iojxd.Directory.LastSlash.{occurs}
use iojxd.Lua.{Lua}

pub data Value : Type 0 where
  nil : Value
  str : List ℕ → Value
  ptr : Ptr → Value
  table : ℕ → Value

pub record State : Type 0 where
  pub values : List Value
  pub fields : Value → Value → Value

abbrev pub same_text : List ℕ → List ℕ → Bool
same_text [] [] = true
same_text [] (y ∷ ys) = false
same_text (x ∷ xs) [] = false
same_text (x ∷ xs) (y ∷ ys) = (x == y) && same_text xs ys

abbrev pub same : Value → Value → Bool
same nil nil = true
same (str s) (str t) = same_text s t
same (ptr p) (ptr q) = p == q
same (table p) (table q) = p == q
same _ _ = false

pub same_text_refl : (s : List ℕ) → same_text s s ≡ true
same_text_refl [] = refl
same_text_refl (x ∷ xs) = ground (arith, same_text_refl xs)

pub same_text_sound : (s t : List ℕ) → same_text s t ≡ true → s ≡ t
same_text_sound [] [] e = refl
same_text_sound [] (y ∷ ys) e = ground arith
same_text_sound (x ∷ xs) [] e = ground arith
same_text_sound (x ∷ xs) (y ∷ ys) e =
    let head : x ≡ y = ground arith in
    let tail : same_text xs ys ≡ true = ground arith in rw (head, same_text_sound xs ys tail)

pub same_refl : (v : Value) → same v v ≡ true
same_refl nil = refl
same_refl (str s) = same_text_refl s
same_refl (ptr p) = ground arith
same_refl (table p) = ground arith

pub same_sound : (v w : Value) → same v w ≡ true → v ≡ w
same_sound nil nil e = refl
same_sound (str s) (str t) e = ap str (same_text_sound s t e)
same_sound (ptr p) (ptr q) e = ap ptr (ground arith)
same_sound (table p) (table q) e = ap table (ground arith)
same_sound _ _ e = absurd (ground arith)

-- A text up to its first zero.
abbrev pub cut : List ℕ → List ℕ
cut [] = []
cut (c ∷ cs) = if c == 0 then [] else c ∷ cut cs

pub cut-plain : (s : List ℕ) → occurs 0 s ≡ false → cut s ≡ s
cut-plain [] e = refl
cut-plain (c ∷ cs) e =
    let other : (c == 0) ≡ false = ground arith in
    let rest : occurs 0 cs ≡ false = ground arith in rw (other, cut-plain cs rest)

pub occurs-cut : (s : List ℕ) → occurs 0 (cut s) ≡ false
occurs-cut [] = refl
occurs-cut (c ∷ cs) = elim (Bool-cases (c == 0)) [
  | inl e ↦ rw e refl
  | inr e ↦ rw (e, occurs-cut cs) (ground (arith, e))
]

abbrev pub text : Value → Option (List ℕ)
text (str s) = some (cut s)
text _ = none

abbrev pub userdata : Value → Ptr
userdata (ptr p) = p
userdata _ = 0

pub occurs-text : (v : Value) (s : List ℕ) → text v ≡ some s → occurs 0 s ≡ false
occurs-text (str t) s e =
    let same_cut : cut t ≡ s = cc in subst (λ x. occurs 0 x ≡ false) same_cut (occurs-cut t)
occurs-text nil s e = ground (arith, e)
occurs-text (ptr p) s e = ground (arith, e)
occurs-text (table t) s e = ground (arith, e)

abbrev pub state : List Value → (Value → Value → Value) → State
state vs f = record { values = vs; fields = f }

-- The fields after an assignment.
abbrev pub assign : (Value → Value → Value) → Value → Value → Value → Value → Value → Value
assign f t k v u i = if same u t && same i k then v else f u i

pub assign-same : (f : Value → Value → Value) (t k v : Value) → assign f t k v t k ≡ v
assign-same f t k v = rw (same_refl t, same_refl k)

pub assign-other :
    (f : Value → Value → Value) (t k v u i : Value)
    → ¬ ((u ≡ t) × (i ≡ k))
    → assign f t k v u i ≡ f u i
assign-other f t k v u i other = elim (Bool-cases (same u t && same i k)) [
  | inl e ↦ absurd (other (same_sound u t (ground arith), same_sound i k (ground arith)))
  | inr e ↦ rw e refl
]

abbrev pub pop : State → List Value → State
pop l [] = l
pop l (v ∷ vs) = state vs l.fields

pub field-pop : (l : State) (vs : List Value) (t k : Value) → (pop l vs).fields t k ≡ l.fields t k
field-pop l [] t k = refl
field-pop l (v ∷ vs) t k = refl

abbrev pub getfield : Value → State → List Value → State
getfield k l [] = l
getfield k l (t ∷ vs) = state (l.fields t k ∷ t ∷ vs) l.fields

pub field-getfield :
    (n : Value) (l : State) (vs : List Value) (t k : Value)
    → (getfield n l vs).fields t k ≡ l.fields t k
field-getfield n l [] t k = refl
field-getfield n l (v ∷ vs) t k = refl

abbrev pub get_registry : State → List Value → State
get_registry l [] = l
get_registry l (k ∷ vs) = state (l.fields (table 1) k ∷ vs) l.fields

pub field-get_registry :
    (l : State) (vs : List Value) (t k : Value) → (get_registry l vs).fields t k ≡ l.fields t k
field-get_registry l [] t k = refl
field-get_registry l (v ∷ vs) t k = refl

abbrev pub set_top : Value → State → List Value → State
set_top k l [] = l
set_top k l (v ∷ []) = l
set_top k l (v ∷ t ∷ vs) = state (t ∷ vs) (assign l.fields t k v)

abbrev pub set_registry : State → List Value → State
set_registry l [] = l
set_registry l (v ∷ []) = l
set_registry l (v ∷ k ∷ vs) = state vs (assign l.fields (table 1) k v)

abbrev pub model : Lua
model = record {
  L = State;
  V = Value;
  stack = λ l. l.values;
  field = λ l. l.fields;
  globals = table 0;
  registry = table 1;
  string = str;
  light = ptr;
  text = text;
  userdata = userdata;
  text-string = λ s e. ap some (cut-plain s e);
  occurs-text = occurs-text;
  userdata-light = λ p. refl;
  push = λ v l. state (v ∷ l.values) l.fields;
  stack-push = λ v l. refl;
  field-push = λ v l t k. refl;
  pop = λ l. pop l l.values;
  stack-pop = λ l v rest e. rw e refl;
  field-pop = λ l. field-pop l l.values;
  getglobal = λ n l. state (l.fields (table 0) (str n) ∷ l.values) l.fields;
  stack-getglobal = λ n l. refl;
  field-getglobal = λ n l t k. refl;
  getfield = λ n l. getfield (str n) l l.values;
  stack-getfield = λ n l t rest e. rw e refl;
  field-getfield = λ n l. field-getfield (str n) l l.values;
  setfield = λ n l. set_top (str n) l l.values;
  stack-setfield = λ n l v t rest e. rw e refl;
  field-setfield = λ n l v t rest e. rw e (assign-same l.fields t (str n) v);
  field-setfield_other =
      λ n l v t rest u k e other. rw e (assign-other l.fields t (str n) v u k other);
  get_registry = λ l. get_registry l l.values;
  stack-get_registry = λ l k rest e. rw e refl;
  field-get_registry = λ l. field-get_registry l l.values;
  set_registry = λ l. set_registry l l.values;
  stack-set_registry = λ l v k rest e. rw e refl;
  field-set_registry = λ l v k rest e. rw e (assign-same l.fields (table 1) k v);
  field-set_registry_other =
      λ l v k rest u i e other. rw e (assign-other l.fields (table 1) k v u i other);
}
