-- ===== src/Sock/Accepting/Examples.antt =====
-- A socket that accepts three connections, the last one after an error of `accept`.
use iojxd.Prelude.{ℤ, ◌+◌, ◌≤◌, Bool, true, false, pos, minus_one, refl, List, [], ◌∷◌, arith}
use iojxd.Memory.{◌>>◌, pure, ◌>>=◌}
use iojxd.Memory.Returns.{Returns, returns}
use iojxd.Sock.State.{on_read, on_context, on_failed, Call, Action, get_conn, set_conn}
use iojxd.Sock.Write.{call_context}
use iojxd.Sock.Access.{get_conn-ok, set_conn-ok}
use iojxd.Sock.Sample.{libev, a_sock, no_jobs, world, first-Holds}
use iojxd.Sock.Accepting.Newcomer.{Spares, Minds}
use iojxd.Sock.Kernel.{taken, failed}
use iojxd.Sock.Sample.{quiet}
use iojxd.Sock.Backlog.{Attempt}
use iojxd.Sock.Backlog.Mixed.{write_both}
use iojxd.Sock.Accepting.Session.{Served, session_lem}
use iojxd.Sock.Accepting.Many.{Crowd, accept_all, accept_all_lem}

-- An accept callback that sets the read callback of its connection.
abbrev sets_read : Call → Action libev.W (Unit {0})
sets_read (on_read cb ctx data_ n) = pure tt
sets_read (on_failed cb sock args) = pure tt
sets_read (on_context cb ctx args) = do c ← get_conn ctx; set_conn ctx (record c { cb_read = 44 })

sets_read-Minds : Minds libev 1 sets_read a_sock
unfolding call_context
sets_read-Minds v a c held =
    let changed = record c { cb_read = 44 } in
    rw (get_conn-ok v held, set_conn-ok v held changed)
      (returns (changed, refl, refl, refl, refl, refl, refl))

abbrev descriptors : List ℤ
descriptors = pos 7 ∷ pos 8 ∷ minus_one ∷ []

accept_all_lem_example :
    Returns
      (λ _ v.
        Crowd libev 1 v 2 4 descriptors × Spares libev 1 (world no_jobs) v × (9 ≤ v.nodes.room + 6))
      (accept_all libev 1 sets_read descriptors (world no_jobs))
accept_all_lem_example =
    accept_all_lem libev 1 sets_read descriptors (world no_jobs) (first-Holds a_sock)
      sets_read-Minds (omega arith) (omega arith) (omega arith) (omega arith)

abbrev in_turn : List (Bool × Attempt)
in_turn =
    (true, record { data_ = 4 ∷ 5 ∷ 6 ∷ []; result = taken 2 })
    ∷ (false, record { data_ = 7 ∷ []; result = taken 0 })
    ∷ (true, record { data_ = 8 ∷ 9 ∷ []; result = failed })
    ∷ []

session_lem_example :
    Returns
      (λ _ u. Served libev 1 quiet (λ k w. refl) (world no_jobs) (pos 7) (pos 8) in_turn u)
      ((do
        accept_all libev 1 quiet (pos 7 ∷ pos 8 ∷ [])
        write_both libev quiet (λ k w. refl) 2 3 43 44 in_turn)
        (world no_jobs))
session_lem_example =
    session_lem libev 1 quiet (λ k w. refl) (world no_jobs) (pos 7) (pos 8) 43 44 in_turn
      (first-Holds a_sock) (omega arith) (omega arith) (omega arith) (omega arith) (omega arith)
      (omega arith) (omega arith, (omega arith, (omega arith, tt)))
