-- ===== src/Sock/Access.antt =====
-- Access to the objects of the world, where they are there and where they are not.
use iojxd.Prelude.{◌≡◌, none, some}
use iojxd.Memory.{Ptr, Run, ok, err, bad_access, Heap, and_then}
use iojxd.Memory.Cells.{Holds, with_cell, load-ok, load-freed, store-ok}
use iojxd.Memory.Returns.{Returns, returns}
use iojxd.CycQueue.{Node}
use iojxd.Sock.State.{
  Action, in_nodes, Sock, Conn, WriteJob, World, get_sock, set_sock, get_conn, set_conn, get_job,
  set_job,
}

module _ {W : Type 0} (w : World W) {p : Ptr} where
  module _ {s : Sock W} (at : Holds w.socks p s) where
    pub get_sock-ok : get_sock p w ≡ ok s w
    unfolding get_sock
    get_sock-ok = rw (load-ok at)

    pub set_sock-ok :
        (v : Sock W) → set_sock p v w ≡ ok tt (record w { socks = with_cell w.socks p (some v) })
    unfolding set_sock
    set_sock-ok v = rw (store-ok at v)

  module _ {c : Conn W} (at : Holds w.conns p c) where
    pub get_conn-ok : get_conn p w ≡ ok c w
    unfolding get_conn
    get_conn-ok = rw (load-ok at)

    pub set_conn-ok :
        (v : Conn W) → set_conn p v w ≡ ok tt (record w { conns = with_cell w.conns p (some v) })
    unfolding set_conn
    set_conn-ok v = rw (store-ok at v)

  module _ {j : WriteJob} (at : Holds w.jobs p j) where
    pub get_job-ok : get_job p w ≡ ok j w
    unfolding get_job
    get_job-ok = rw (load-ok at)

    pub set_job-ok :
        (v : WriteJob) → set_job p v w ≡ ok tt (record w { jobs = with_cell w.jobs p (some v) })
    unfolding set_job
    set_job-ok v = rw (store-ok at v)

pub get_conn-freed :
    {W : Type 0} (p : Ptr) (w : World W) → w.conns.cell p ≡ none → get_conn p w ≡ err bad_access
unfolding get_conn
get_conn-freed p w e = rw (load-freed p w.conns e)

-- A queue command that returns, within a longer command.
pub nodes-bind :
    {W A B : Type 0} {P : A → Heap Node → Type 0} {Q : B → World W → Type 0} (w : World W)
    {r : Run (Heap Node) A} (k : A → Action W B)
    → Returns P r
    → ((a : A) (h : Heap Node) → P a h → Returns Q (k a (record w { nodes = h })))
    → Returns Q (and_then (in_nodes w r) k)
nodes-bind w k (returns p) next = next _ _ p
