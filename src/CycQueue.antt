-- ===== src/CycQueue.antt =====
-- src/util.hxx and src/util.cxx: the cyclic queue. The entry node points at the last node, whose
-- successor is the placeholder, whose successor is the first.
pub mod Ring
pub mod Inspect
pub mod Enqueue
pub mod Dequeue
pub mod Create
pub mod Free
pub mod Session
pub mod Lifecycle
mod Examples
use iojxd.Prelude.{
  ℕ, zero, suc, ◌≡◌, Bool, true, false, not, Option, none, some, ◌==◌, if◌then◌else◌,
}
use iojxd.Memory.{
  Ptr, null, Fault, bad_access, out_of_fuel, Heap, Cmd, pure, fail, ◌>>=◌, ◌>>◌, assert, is_null,
  malloc, load, store, free,
}

-- `struct ixut_cycqueue`; `none` in a field is an indeterminate value.
pub record Node : Type 0 where
  pub value : Option ℕ
  pub next : Option Ptr

abbrev pub node : Option ℕ → Option Ptr → Node
node v q = record { value = v; next = q }

abbrev pub Queue : Type 0 → Type 0
Queue A = Cmd (Heap Node) A

-- `memset(&p->data, 0xF, sizeof(p->data))` on a 64-bit machine.
abbrev pub placeholder_value : ℕ
placeholder_value = 0x0f0f_0f0f_0f0f_0f0f

-- A read of an indeterminate field is a fault.
unfoldable pub known : {A : Type 0} → Option A → Queue A
known none = fail bad_access
known (some a) = pure a

unfoldable pub get_next : Ptr → Queue Ptr
unfolding known
get_next p = do n ← load p; known n.next

unfoldable pub get_value : Ptr → Queue ℕ
unfolding known
get_value p = do n ← load p; known n.value

unfoldable pub set_next : Ptr → Ptr → Queue (Unit {0})
set_next p q = do n ← load p; store p (record n { next = some q })

unfoldable pub set_value : Ptr → ℕ → Queue (Unit {0})
set_value p v = do n ← load p; store p (record n { value = some v })

unfoldable pub create : Queue Ptr
create = do
  entry ← malloc (node none none)
  place_holder ← malloc (node none none)
  set_value entry placeholder_value
  set_value place_holder placeholder_value
  set_next entry place_holder
  set_next place_holder place_holder
  pure entry

-- The two assertions with which every operation begins.
unfoldable pub check_entry : Ptr → Queue (Unit {0})
check_entry entry = do
  assert (not (is_null entry))
  tail ← get_next entry
  assert (not (is_null tail))

unfoldable pub is_empty : Ptr → Queue Bool
is_empty entry = do
  check_entry entry
  tail ← get_next entry
  head ← get_next tail
  pure (tail == head)

unfoldable pub enqueue : Ptr → ℕ → Queue (Unit {0})
enqueue entry v = do
  check_entry entry
  new_node ← malloc (node none none)
  set_value new_node v
  tail ← get_next entry
  place_holder ← get_next tail
  set_next new_node place_holder
  set_next tail new_node
  set_next entry new_node

unfoldable pub front : Ptr → Queue ℕ
front entry = do
  check_entry entry
  tail ← get_next entry
  place_holder ← get_next tail
  assert (not (place_holder == tail))
  first ← get_next place_holder
  get_value first

unfoldable pub dequeue : Ptr → Queue ℕ
dequeue entry = do
  check_entry entry
  tail ← get_next entry
  place_holder ← get_next tail
  ret_node ← get_next place_holder
  after ← get_next ret_node
  set_next place_holder after
  tail' ← get_next entry
  (if ret_node == tail' then (do after' ← get_next ret_node; set_next entry after') else pure tt)
  ret ← get_value ret_node
  free ret_node
  pure ret

-- The `while` loop of `ixut_cycqueue_free`.
unfoldable pub drain : ℕ → Ptr → Queue (Unit {0})
drain zero entry = fail out_of_fuel
drain (suc k) entry = do
  done ← is_empty entry
  if done then pure tt else do dequeue entry; drain k entry

unfoldable pub free_queue : ℕ → Ptr → Queue (Unit {0})
free_queue fuel entry = do
  check_entry entry
  drain fuel entry
  place_holder ← get_next entry
  free place_holder
  free entry
