-- ===== src/Binding/Connecting.antt =====
-- `ixlb_sock_connect` and its two callbacks.
use iojxd.Prelude.{◌+◌, ◌<◌, ◌≡◌, Bool, true, false, none, some, arith, ◌==◌, if◌then◌else◌}
use iojxd.Memory.{pure, Ptr, null, Heap, ok, err, bad_access, write}
use iojxd.Memory.Cells.{
  Holds, Holds-blank, store-ok, load-ok, free-ok, Holds-write, with_cell, extended, malloc-ok,
  load-freed,
}
use iojxd.Binding.{
  Block, ref, connect_data, Action, new_ref, get_ref, cb_suc, cb_fail, free_connect_data,
  sock_connect, call_ref, connect_succeeded, connect_failed,
}

module _ (V : Type 0) where
  -- The heap after a `new`.
  abbrev pub with_ref : Heap (Block V) → V → Heap (Block V)
  with_ref h v = with_cell (extended h (ref v)) h.brk (some (ref v))

  pub new_ref-ok :
      (h : Heap (Block V)) (v : V)
      → null < h.brk
      → null < h.room
      → new_ref V v h ≡ ok h.brk (with_ref h v)
  unfolding new_ref
  new_ref-ok h v start room =
      rw (new_ref, malloc-ok (ref v) h room, store-ok (Holds-blank h start (ref v)) (ref v))

  -- The data of a connect at `d`, with its two callbacks at `s` and `f`.
  pub record Prepared (h : Heap (Block V)) (d s f : Ptr) (v w : V) : Type 0 where
    pub members : Holds h d (connect_data (some s) (some f))
    pub success : Holds h s (ref v)
    pub failure : Holds h f (ref w)
    pub apart : ((d == s) ≡ false) × ((d == f) ≡ false) × ((f == s) ≡ false)

  module _ (h : Heap (Block V)) (v w : V) where
    abbrev h1 : Heap (Block V)
    h1 = extended h (connect_data none none)

    abbrev h3 : Heap (Block V)
    h3 = with_cell (with_ref h1 v) h.brk (some (connect_data (some (h.brk + 1)) none))

    abbrev pub prepared : Heap (Block V)
    prepared =
        with_cell (with_ref h3 w) h.brk
          (some (connect_data (some (h.brk + 1)) (some (h.brk + 1 + 1))))

    blank-members : null < h.brk → Holds (with_ref h1 v) h.brk (connect_data none none)
    unfolding write
    blank-members start = record { above = start; holds = ground arith }

    half-members : null < h.brk → Holds (with_ref h3 w) h.brk (connect_data (some (h.brk + 1)) none)
    unfolding write
    half-members start = record { above = start; holds = ground arith }

    sock_connect-ok : null < h.brk → 2 < h.room → sock_connect V v w h ≡ ok h.brk prepared
    unfolding sock_connect
    sock_connect-ok start room = rw (
      sock_connect,
      malloc-ok (connect_data none none) h (omega arith),
      new_ref-ok h1 v (omega arith) (omega arith),
      store-ok (blank-members start) (connect_data (some (h.brk + 1)) none),
      new_ref-ok h3 w (omega arith) (omega arith),
      store-ok (half-members start) (connect_data (some (h.brk + 1)) (some (h.brk + 1 + 1))),
    )

    pub prepared_lem : null < h.brk → Prepared prepared h.brk (h.brk + 1) (h.brk + 1 + 1) v w
    unfolding write
    prepared_lem start = record {
      members = record { above = start; holds = ground arith };
      success = record { above = omega arith; holds = ground arith };
      failure = record { above = omega arith; holds = ground arith };
      apart = (ground arith, ground arith, ground arith);
    }

  module _ {h : Heap (Block V)} {d s f : Ptr} {v w : V} (at : Prepared h d s f v w) where
    cb_suc-ok : cb_suc V d h ≡ ok s h
    unfolding cb_suc
    cb_suc-ok = rw (cb_suc, load-ok at.members)

    cb_fail-ok : cb_fail V d h ≡ ok f h
    unfolding cb_fail
    cb_fail-ok = rw (cb_fail, load-ok at.members)

  -- The heap after the three blocks have been freed.
  abbrev pub released : Heap (Block V) → Ptr → Ptr → Ptr → Heap (Block V)
  released h d s f = with_cell (with_cell (with_cell h s none) f none) d none

  cell-released : (h : Heap (Block V)) (d s f : Ptr) → (released h d s f).cell d ≡ none
  unfolding write
  cell-released h d s f = ground arith

  free_connect_data-ok :
      {h : Heap (Block V)} {d s f : Ptr} {v w : V}
      → Prepared h d s f v w
      → free_connect_data V d h ≡ ok tt (released h d s f)
  unfolding free_connect_data cb_suc cb_fail
  free_connect_data-ok {h} {d} {s} {f} at =
      let one = Holds-write at.members s none at.apart.0 in
      let two = Holds-write one f none at.apart.1 in
      let fails = Holds-write at.failure s none at.apart.2 in
      rw (
        free_connect_data,
        cb_suc,
        load-ok at.members,
        free-ok at.success,
        cb_fail,
        load-ok one,
        free-ok fails,
        free-ok two,
      )

  -- Only one of the two callbacks runs, once: afterwards the data is gone.
  cb_suc-gone : (d : Ptr) (h : Heap (Block V)) → h.cell d ≡ none → cb_suc V d h ≡ err bad_access
  unfolding cb_suc
  cb_suc-gone d h e = rw (cb_suc, load-freed d h e)

  cb_fail-gone : (d : Ptr) (h : Heap (Block V)) → h.cell d ≡ none → cb_fail V d h ≡ err bad_access
  unfolding cb_fail
  cb_fail-gone d h e = rw (cb_fail, load-freed d h e)

  pub get_ref-ok :
      {h : Heap (Block V)} {p : Ptr} {v : V} → Holds h p (ref v) → get_ref V p h ≡ ok v h
  unfolding get_ref
  get_ref-ok at = rw (get_ref, load-ok at)

  module _ (is_nil : V → Bool) (invoke : V → Action V (Unit {0})) where
    -- The call of a Lua value, if it is not nil.
    abbrev pub called : V → Action V (Unit {0})
    called v = if is_nil v then pure tt else invoke v

    pub call_ref-ok :
        {h : Heap (Block V)} {p : Ptr} {v : V}
        → Holds h p (ref v)
        → call_ref V is_nil invoke p h ≡ called v h
    unfolding call_ref
    call_ref-ok at = rw (call_ref, get_ref-ok at)

    -- The two callbacks.
    abbrev pub outcome : Bool → Ptr → Action V (Unit {0})
    outcome true = connect_succeeded V is_nil invoke
    outcome false = connect_failed V is_nil invoke

    outcome-ok :
        (won : Bool) {h g : Heap (Block V)} {d s f : Ptr} {v w : V}
        → Prepared h d s f v w
        → Prepared g d s f v w
        → called (if won then v else w) h ≡ ok tt g
        → outcome won d h ≡ ok tt (released g d s f)
    unfolding connect_succeeded connect_failed
    outcome-ok true at after e =
        rw (connect_succeeded, cb_suc-ok at, call_ref-ok at.success, e, free_connect_data-ok after)
    outcome-ok false at after e =
        rw (connect_failed, cb_fail-ok at, call_ref-ok at.failure, e, free_connect_data-ok after)

    outcome-gone :
        (won : Bool) (d : Ptr) (h : Heap (Block V))
        → h.cell d ≡ none
        → outcome won d h ≡ err bad_access
    unfolding connect_succeeded connect_failed
    outcome-gone true d h e = rw (connect_succeeded, cb_suc-gone d h e)
    outcome-gone false d h e = rw (connect_failed, cb_fail-gone d h e)

    -- With memory at hand, `ixlb_sock_connect` makes its three blocks, and the callback of the
    -- outcome calls its own Lua function once, unless that is nil, and then frees the three
    -- blocks, provided that the call returns and leaves them alone. Either callback after that is
    -- a fault.
    pub connect_life :
        (won again : Bool) (h g : Heap (Block V)) (v w : V)
        → null < h.brk
        → 2 < h.room
        → called (if won then v else w) (prepared h v w) ≡ ok tt g
        → Prepared g h.brk (h.brk + 1) (h.brk + 1 + 1) v w
        → (sock_connect V v w h ≡ ok h.brk (prepared h v w))
          × (outcome won h.brk (prepared h v w)
              ≡ ok tt (released g h.brk (h.brk + 1) (h.brk + 1 + 1)))
          × (outcome again h.brk (released g h.brk (h.brk + 1) (h.brk + 1 + 1)) ≡ err bad_access)
    connect_life won again h g v w start room e after = (
      sock_connect-ok h v w start room,
      outcome-ok won (prepared_lem h v w start) after e,
      outcome-gone again h.brk _ (cell-released g h.brk (h.brk + 1) (h.brk + 1 + 1)),
    )
