-- ===== src/Wrapper/Connection/Examples.antt =====
-- The end of the stream on a connection that Lua has dropped, and on one that it keeps once.
use iojxd.Prelude.{ℕ, some, [], ◌∷◌, ◌≡◌, refl, true, false, arith}
use iojxd.Memory.{ok, and_then, err, bad_access}
use iojxd.Memory.Returns.{Returns}
use iojxd.Sock.State.{World}
use iojxd.Sock.Sample.{libev, world, no_jobs, a_conn, a_sock, no_jobs-IsRing, first-Holds}
use iojxd.Wrapper.{keep}
use iojxd.Wrapper.Plain.{plain_counts}
use iojxd.Wrapper.Connection.{wrapped, at_end, cb_accept, attached_end}
use iojxd.Wrapper.Connection.Life.{read, read_closing, collect, gone, run, Meets}
use iojxd.Wrapper.Connection.Life.History.{connection_life}
use iojxd.Wrapper.Connection.AtEnd.{object, shut_world, at_end-Ends, accepted_life}

-- Lua's accept function keeps nothing, and there is no close function.
accepted_life_example :
    (and_then
        (cb_accept plain_counts libev 1 1 false 0
          (keep plain_counts (World libev.W) 0)
          (world no_jobs))
        (λ _. attached_end plain_counts libev 1 1 false (keep plain_counts (World libev.W) 0))
      ≡ err bad_access)
    × (and_then
          (cb_accept plain_counts libev 1 1 true 0
            (keep plain_counts (World libev.W) 0)
            (world no_jobs))
          (λ _. attached_end plain_counts libev 1 1 false (keep plain_counts (World libev.W) 0))
        ≡ err bad_access)
accepted_life_example =
    accepted_life plain_counts libev 1 1 (world no_jobs) (first-Holds a_conn) (first-Holds a_sock)
      no_jobs-IsRing (omega arith) false 0 0 0 refl

kept_once :
    Returns
      (λ _ p.
        (p.counts ≡ 1)
        × (p.this_ref ≡ false)
        × (p.alive ≡ true)
        × (p.impl ≡ shut_world plain_counts libev 1 1 (world no_jobs) a_conn))
      (at_end plain_counts libev 1 1 true
        (keep plain_counts (World libev.W) 1)
        (object plain_counts libev 1 1 1 true (world no_jobs)))
kept_once =
    at_end-Ends plain_counts libev 1 1 (world no_jobs) (first-Holds a_conn) (first-Holds a_sock)
      no_jobs-IsRing (omega arith) true 0 1 1 refl

-- Lua keeps one reference; data come, and then data at which Lua closes; Lua's reference is
-- collected.
connection_life_example :
    (r' : ℕ) × (cb_accept plain_counts libev 1 1 true 0
        (keep plain_counts (World libev.W) 1)
        (world no_jobs)
      ≡ ok tt (wrapped (object plain_counts libev 1 1 r' true (world no_jobs))))
    × Meets plain_counts libev 1 1 (world no_jobs) a_conn 2 [] (some gone) (
        run plain_counts libev 1 1
          (read true 0 ∷ read_closing 0 ∷ collect ∷ [])
          (object plain_counts libev 1 1 r' true (world no_jobs)))
connection_life_example =
    connection_life plain_counts libev 1 1 (world no_jobs) (first-Holds a_conn) (first-Holds a_sock)
      no_jobs-IsRing (omega arith) 1 0 (read true 0 ∷ read_closing 0 ∷ collect ∷ []) refl
