-- ===== src/Binding/Reading.antt =====
-- `ixlb_sock_create`, `ixlb_sock_set_read_callback` and the callback for what has been read.
use iojxd.Prelude.{
  Bool-cases, inl, inr, ℕ, ◌+◌, ◌<◌, ◌≤◌, ◌≡◌, refl, Bool, false, Option, none, some, List, [], ◌∷◌,
  arith, ◌==◌, length, if◌then◌else◌,
}
use iojxd.Memory.{pure, ◌>>=◌, ◌>>◌, Ptr, null, Heap, ok, is_null, write, free}
use iojxd.Memory.Cells.{
  Holds, store-ok, load-ok, free-ok, Holds-blank, with_cell, extended, malloc-ok,
}
use iojxd.Binding.{
  Block, ref, sock_data, Action, cb_read, set_cb_read, sock_create, sock_set_read_callback, on_read,
}
use iojxd.Binding.Connecting.{with_ref, new_ref-ok, called, call_ref-ok}

module _ (V : Type 0) where
  -- What the data of a socket at `d` points to: nothing, or the reference to a callback.
  pub data Listener (h : Heap (Block V)) (d : Ptr) : Ptr → Option V → Type 0 where
    silent : Listener h d null none
    listening :
        {p : Ptr} {v : V}
        → Holds h p (ref v)
        → (d == p) ≡ false
        → p < h.brk
        → Listener h d p (some v)

  -- Of the blocks from `base` on, only the data at `d` is there, and the callback at `p`, if one is
  -- set.
  pub record Installed (base : ℕ) (h : Heap (Block V)) (d p : Ptr) (o : Option V) : Type 0 where
    pub members : Holds h d (sock_data (some p) none)
    pub callback : Listener h d p o
    pub in_use : d < h.brk
    pub based : null < base
    pub nothing_else : (a : Ptr) → base ≤ a → (a == d) ≡ false → (a == p) ≡ false → h.cell a ≡ none

  sock_create-Installed :
      (h : Heap (Block V))
      → null < h.brk
      → null < h.room
      → ((a : Ptr) → h.brk ≤ a → h.cell a ≡ none)
      → (g : Heap (Block V)) × (sock_create V h ≡ ok h.brk g)
        × Installed h.brk g h.brk null none
        × (g.room + 1 ≡ h.room)
  unfolding sock_create write
  sock_create-Installed h start room fresh = (
    with_cell (extended h (sock_data none none)) h.brk (some (sock_data (some null) none)),
    rw (
      sock_create,
      malloc-ok (sock_data none none) h room,
      store-ok (Holds-blank h start (sock_data none none)) (sock_data (some null) none),
    ),
    record {
      members = record { above = start; holds = ground arith };
      callback = silent;
      in_use = omega arith;
      based = start;
      nothing_else = λ a le nd np. ground (arith, fresh a le);
    },
    omega arith,
  )

  cb_read-ok :
      {h : Heap (Block V)} {d p : Ptr} {q : Option Ptr}
      → Holds h d (sock_data (some p) q)
      → cb_read V d h ≡ ok p h
  unfolding cb_read
  cb_read-ok at = rw (cb_read, load-ok at)

  set_cb_read-ok :
      {h : Heap (Block V)} {d p : Ptr} {q : Option Ptr}
      → Holds h d (sock_data (some p) q)
      → (r : Ptr) → set_cb_read V d r h ≡ ok tt (with_cell h d (some (sock_data (some r) q)))
  unfolding set_cb_read
  set_cb_read-ok at r = rw (set_cb_read, load-ok at, store-ok at)

  -- The heap once the old reference is deleted, with the new one at `r`.
  record Cleared (base : ℕ) (h k : Heap (Block V)) (d p r : Ptr) (cb : V) : Type 0 where
    members : Holds k d (sock_data (some p) none)
    fresh : Holds k r (ref cb)
    others : (a : Ptr) → base ≤ a → (a == d) ≡ false → (a == r) ≡ false → k.cell a ≡ none
    brk : k.brk ≡ h.brk + 1
    room : k.room + 1 ≡ h.room

  clear_lem :
      (base : ℕ) (h : Heap (Block V)) (d p : Ptr) (o : Option V) (cb : V)
      → Installed base h d p o
      → null < h.room
      → Listener h d p o
      → (k : Heap (Block V)) × ((if is_null p then pure tt else free p) (with_ref V h cb) ≡ ok tt k)
        × Cleared base h k d p h.brk cb
  unfolding write
  clear_lem base h d _ _ cb at room silent = (
    with_ref V h cb,
    refl,
    record {
      members = record {
        above = at.members.above;
        holds = ground (arith, at.members.holds, at.in_use);
      };
      fresh = record { above = omega (arith, at.in_use); holds = ground arith };
      others = λ a le nd nr. ground (arith, at.nothing_else a le nd (ground (arith, at.based)));
      brk = refl;
      room = omega arith;
    },
  )
  clear_lem base h d p (some v) cb at room (listening live apart below) =
      let live' : Holds (with_ref V h cb) p (ref v) = record {
        above = live.above;
        holds = ground (arith, live.holds, below);
      } in
      let not_null : is_null p ≡ false = ground (arith, live.above) in
      (
        with_cell (with_ref V h cb) p none,
        rw (not_null, free-ok live'),
        record {
          members = record {
            above = at.members.above;
            holds = ground (arith, at.members.holds, at.in_use);
          };
          fresh = record { above = omega (arith, at.in_use); holds = ground (arith, below) };
          others = λ a le nd nr. elim (Bool-cases (a == p)) [
            | inl e ↦ rw e refl
            | inr e ↦ ground (arith, at.nothing_else a le nd e)
          ];
          brk = refl;
          room = omega arith;
        },
      )

  set-Installed :
      (base : ℕ) (h : Heap (Block V)) (d p : Ptr) (o : Option V) (cb : V)
      → Installed base h d p o
      → null < h.room
      → (g : Heap (Block V)) × (sock_set_read_callback V d cb h ≡ ok tt g)
        × Installed base g d h.brk (some cb)
        × (g.room + 1 ≡ h.room)
  unfolding sock_set_read_callback write
  set-Installed base h d p o cb at room =
      let start : null < h.brk = omega (arith, at.in_use) in
      let (k, run, c) = clear_lem base h d p o cb at room at.callback in
      let old : Holds (with_ref V h cb) d (sock_data (some p) none) = record {
        above = at.members.above;
        holds = ground (arith, at.members.holds, at.in_use);
      } in
      (
        with_cell k d (some (sock_data (some h.brk) none)),
        rw (
          sock_set_read_callback,
          new_ref-ok V h cb start room,
          cb_read-ok old,
          run,
          set_cb_read-ok c.members h.brk,
        ),
        record {
          members = record { above = at.members.above; holds = ground arith };
          callback =
              listening (record { above = start; holds = ground (arith, c.fresh.holds, at.in_use) })
                (ground (arith, at.in_use)) (omega (arith, c.brk));
          in_use = omega (arith, c.brk, at.in_use);
          based = at.based;
          nothing_else = λ a le nd nr. ground (arith, c.others a le nd nr);
        },
        c.room,
      )

  -- The callbacks set one after the other, and the last of them.
  abbrev pub set_all : Ptr → List V → Action V (Unit {0})
  set_all d [] = pure tt
  set_all d (cb ∷ cbs) = do sock_set_read_callback V d cb; set_all d cbs

  abbrev pub last_of : Option V → List V → Option V
  last_of o [] = o
  last_of o (cb ∷ cbs) = last_of (some cb) cbs

  set_all-Installed :
      (base : ℕ) (h : Heap (Block V)) (d p : Ptr) (o : Option V) (cbs : List V)
      → Installed base h d p o
      → length cbs ≤ h.room
      → (q : Ptr) × (g : Heap (Block V)) × (set_all d cbs h ≡ ok tt g)
        × Installed base g d q (last_of o cbs)
  set_all-Installed base h d p o [] at room = (p, h, refl, at)
  set_all-Installed base h d p o (cb ∷ cbs) at room =
      let (k, run, at', room') = set-Installed base h d p o cb at (omega arith) in
      let (q, g, run', end) = set_all-Installed base k d h.brk (some cb) cbs at' (omega arith) in
      (q, g, rw (run, run'), end)

  module _ (is_nil : V → Bool) (invoke : V → Action V (Unit {0})) where
    abbrev pub heard : Option V → Action V (Unit {0})
    heard none = pure tt
    heard (some v) = called V is_nil invoke v

    on_read-heard :
        (base : ℕ) (h : Heap (Block V)) (d p : Ptr) (o : Option V)
        → Holds h d (sock_data (some p) none)
        → Listener h d p o
        → on_read V is_nil invoke d h ≡ heard o h
    unfolding on_read
    on_read-heard base h d _ _ at silent = rw (on_read, cb_read-ok at)
    on_read-heard base h d p (some v) at (listening live apart below) =
        let not_null : is_null p ≡ false = ground (arith, live.above) in
        rw (on_read, cb_read-ok at, not_null, call_ref-ok V is_nil invoke live)

    -- With memory at hand, on a heap with nothing in it beyond its break: after a socket has been
    -- created and any number of read callbacks have been set on it, the blocks that are left of
    -- all that are the socket's data and the reference to the last callback, and what is read
    -- goes to that callback alone, unless it is nil, and to none if none was set.
    pub reading_lem :
        (h : Heap (Block V)) (cbs : List V)
        → null < h.brk
        → length cbs < h.room
        → ((a : Ptr) → h.brk ≤ a → h.cell a ≡ none)
        → (p : Ptr) × (g : Heap (Block V)) × ((sock_create V >>= λ d. set_all d cbs) h ≡ ok tt g)
          × Installed h.brk g h.brk p (last_of none cbs)
          × (on_read V is_nil invoke h.brk g ≡ heard (last_of none cbs) g)
    reading_lem h cbs start room fresh =
        let (k, run, at, room') = sock_create-Installed h start (omega arith) fresh in
        let (p, g, run', end) = set_all-Installed h.brk k h.brk null none cbs at (omega arith) in
        (
          p,
          g,
          rw (run, run'),
          end,
          on_read-heard h.brk g h.brk p (last_of none cbs) end.members end.callback,
        )
