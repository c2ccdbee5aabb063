-- ===== src/Wrapper/Forked/Pid.antt =====
-- Where the pid of `ixlbx_fork` can be read.
use iojxd.Prelude.{pos, negsuc, suc, ℕ, ◌≡◌, refl, none, some}
use iojxd.Memory.{Cmd, ok, err, bad_access, ◌>>◌}
use iojxd.Memory.Returns.{Fails, Fails-then}
use iojxd.Child.{fork}
use iojxd.Child.Watching.{fork_lem}
use iojxd.Wrapper.Forked.{Forked, get_pid, construct}

abbrev pub unforked : {S : Type 0} → S → Forked S
unforked s = record { pid = none; process = s }

-- In the parent the object has the pid, or -1, and the Lua function is not called. In the child the
-- Lua function runs before the pid is stored: one that reads it uses an indeterminate value, and
-- the constructor does not return whatever the function does.
pub construct_lem :
    {S : Type 0} (n : ℕ) (s : S) (lua : Cmd (Forked S) (Unit {0}))
    → (construct (negsuc n) lua (unforked s)
        ≡ ok tt (record { pid = some (negsuc n); process = s }))
      × (construct (pos (suc n)) lua (unforked s)
          ≡ ok tt (record { pid = some (pos (suc n)); process = s }))
      × (construct (pos 0) (do get_pid; lua) (unforked s) ≡ err bad_access)
      × Fails (construct (pos 0) lua (unforked s))
unfolding construct get_pid fork
construct_lem n s lua =
    (refl, refl, refl, Fails-then (fork (pos 0) lua (unforked s)) _ (fork_lem lua (unforked s) n).2)
