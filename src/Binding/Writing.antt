-- ===== src/Binding/Writing.antt =====
-- `ixlbx_socket_context::write`.
use iojxd.Prelude.{none, ◌<◌, ◌≡◌, Bool, true, false, arith}
use iojxd.Memory.{null, Heap, ok, is_null}
use iojxd.Memory.Cells.{Holds, Holds-self, extended, with_cell, free-ok}
use iojxd.Binding.{Block, ref, Action, written_callback, context_write}
use iojxd.Binding.Connecting.{with_ref, new_ref-ok, called, call_ref-ok}

module _ (V : Type 0) (is_nil : V → Bool) (invoke : V → Action V (Unit {0})) where
  -- With memory at hand, a write that is done at once calls its function once, unless it is nil,
  -- and frees the reference to it, provided that the call returns and leaves the reference alone;
  -- any other write leaves the reference to its callback.
  pub context_write_lem :
      (h g : Heap (Block V)) (v : V)
      → null < h.brk
      → null < h.room
      → called V is_nil invoke v (with_ref V h v) ≡ ok tt g
      → Holds g h.brk (ref v)
      → (context_write V is_nil invoke true v h ≡ ok tt (with_cell g h.brk none))
        × (context_write V is_nil invoke false v h ≡ ok tt (with_ref V h v))
  unfolding context_write written_callback
  context_write_lem h g v start room e at =
      let not_null : is_null h.brk ≡ false = ground (arith, start) in
      let fresh = Holds-self (extended h (ref v)) start (ref v) in
      (
        rw (
          context_write,
          new_ref-ok V h v start room,
          not_null,
          call_ref-ok V is_nil invoke fresh,
          e,
          free-ok at,
        ),
        rw (context_write, new_ref-ok V h v start room),
      )
