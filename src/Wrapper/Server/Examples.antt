-- ===== src/Wrapper/Server/Examples.antt =====
-- A server on the descriptor 3, and one on the descriptor 5 with a connection.
use iojxd.Prelude.{◌≡◌, refl, true, false, none, some, pos, ◌∷◌, []}
use iojxd.Memory.{ok, err, bad_access, ◌>>◌}
use iojxd.Memory.Returns.{Returns}
use iojxd.Memory.Cells.{with_cell}
use iojxd.Sock.State.{Sock, World, listened, closed}
use iojxd.Sock.Tcp.{zero_sock}
use iojxd.Sock.Kernel.{bytes}
use iojxd.Sock.Read.{on_readable}
use iojxd.Sock.Sample.{libev, quiet, a_sock, a_conn, world, no_jobs, one_cell, first-Holds}
use iojxd.Wrapper.{access, retain, drop}
use iojxd.Wrapper.Counting
use iojxd.Wrapper.Plain.{plain_counts}
use iojxd.Wrapper.Server.{destructor, start, close}
use iojxd.Wrapper.Server.Serving.{object, server_life}
use iojxd.Wrapper.Server.Orphans.{freed, orphan_lem}

abbrev new_server : World libev.W
new_server = record (world no_jobs) { socks = one_cell zero_sock }

server_life_example :
    Returns
      (λ _ p.
        (p.alive ≡ false)
        × (p.impl ≡ record new_server {
          socks = with_cell (one_cell zero_sock) 1 none;
          trace = closed (pos 3) ∷ listened (pos 3) 16 ∷ [];
        }))
      ((do
        start plain_counts libev 1 1 (record { fd = pos 3; bound = true })
        drop plain_counts (World libev.W) (destructor plain_counts libev 1 1)
        access plain_counts (World libev.W)
        retain plain_counts (World libev.W)
        close plain_counts libev 1 1
        drop plain_counts (World libev.W) (destructor plain_counts libev 1 1))
        (object plain_counts libev 1 new_server (first-Holds zero_sock) 1 false true new_server))
server_life_example =
    server_life plain_counts libev 1 new_server (first-Holds zero_sock) (pos 3) refl refl 1 refl
      refl

abbrev listening_sock : Sock libev.W
listening_sock = record a_sock { default_ctx = 0; event_accept = some (libev.start libev.blank) }

abbrev busy : World libev.W
busy = record (world no_jobs) { socks = one_cell listening_sock; conns = one_cell a_conn }

orphan_lem_example :
    ((do
      access plain_counts (World libev.W)
      retain plain_counts (World libev.W)
      close plain_counts libev 1 1
      drop plain_counts (World libev.W) (destructor plain_counts libev 1 1))
        (Counting.object plain_counts (World libev.W) 1 true true busy)
      ≡ ok tt (
          Counting.object plain_counts
            (World libev.W)
            0
            false
            false
            (freed plain_counts libev 1 busy (first-Holds listening_sock) (first-Holds a_conn))))
    × (on_readable libev quiet 1
          (bytes (65 ∷ []))
          (freed plain_counts libev 1 busy (first-Holds listening_sock) (first-Holds a_conn))
        ≡ err bad_access)
orphan_lem_example =
    orphan_lem plain_counts libev 1 busy (first-Holds listening_sock) (first-Holds a_conn) quiet 1
      (libev.start libev.blank) (bytes (65 ∷ [])) refl refl refl refl
