-- ===== src/Child/Examples.antt =====
-- Two children under one watcher, and the macros of <sys/wait.h> as Linux defines them.
use iojxd.Prelude.{
  ℕ, ◌+◌, ◌≡◌, refl, Bool, true, false, some, none, List, [], ◌∷◌, Option, not, ◌&&◌, ◌==◌, ◌%◌,
  ◌/◌, arith,
}
use iojxd.Memory.{Ptr, Cmd, ok}
use iojxd.Ev.{Watchers}
use iojxd.Ev.Model.{plain_watchers}
use iojxd.Child.{Handler, ChildWatcher, Report, Action}
use iojxd.Child.Status.{WaitMacros, ExitStatus, getstatus, getstatus_lem}
use iojxd.Child.Watching.{watching}
use iojxd.Child.Reuse.{watch_all, watch_all_lem}

abbrev libev : Watchers Handler ℕ
libev = plain_watchers Handler ℕ

abbrev exited : ℕ → Bool
exited raw = raw % 128 == 0

abbrev stopped : ℕ → Bool
stopped raw = raw % 256 == 127

exited-stopped : (raw : ℕ) → exited raw ≡ true → stopped raw ≡ false
exited-stopped raw e = ground arith

signaled-stopped :
    (raw : ℕ) → (not (exited raw) && not (raw % 128 == 127)) ≡ true → stopped raw ≡ false
signaled-stopped raw e = ground arith

abbrev linux : WaitMacros
linux = record {
  wexitstatus = λ raw. raw / 256 % 256;
  wtermsig = λ raw. raw % 128;
  wifexited = exited;
  wifsignaled = λ raw. not (exited raw) && not (raw % 128 == 127);
  wifstopped = stopped;
  exited-signaled = λ raw e. rw e;
  exited-stopped = exited-stopped;
  signaled-stopped = signaled-stopped;
}

-- A callback of a forked process that returns.
abbrev bumps : Cmd ℕ (Unit {0})
bumps s = ok tt (s + 1)

abbrev idle : libev.W
idle = libev.init Handler.childw_cb libev.blank

abbrev fresh : ChildWatcher
fresh = record { cb = 0; args = 0 }

-- A client that counts.
abbrev counts : Ptr → Ptr → Action libev ℕ (Unit {0})
counts cb args s = ok tt (record s { client_state = s.client_state + 1 })

abbrev first_report : Report
first_report = record { rpid = 42; rstatus = 256 }

-- A child that ends with the code 1, and one that signal 9 ends; a report of each comes early.
abbrev second_report : Report
second_report = record { rpid = 43; rstatus = 9 }

abbrev reports : List (Report × Report)
reports = (second_report, first_report) ∷ (first_report, second_report) ∷ []

abbrev two_statuses : List ExitStatus
two_statuses =
    record { status_raw = 256; status = 1; exit_cause = 0; term_sig = 0 }
    ∷ record { status_raw = 9; status = 0; exit_cause = 1; term_sig = 9 }
    ∷ []

watch_all_lem_example :
    (c' : ChildWatcher) × (w' : libev.W) × (r' : Option Report) × (watch_all linux libev 7 8 reports
        (watching fresh idle none [])
      ≡ ok tt (watching c' w' r' two_statuses))
    × (libev.is_active w' ≡ false)
    × (libev.is_pending w' ≡ false)
watch_all_lem_example =
    watch_all_lem linux libev 7 8 reports fresh idle none []
      (refl, omega arith, (refl, omega arith, tt)) refl refl refl

getstatus_lem_example :
    getstatus linux libev ℕ (watching fresh idle (some first_report) 0)
    ≡ ok
        (record { status_raw = 256; status = 1; exit_cause = 0; term_sig = 0 })
        (watching fresh idle (some first_report) 0)
getstatus_lem_example = getstatus_lem linux libev ℕ fresh idle first_report 0
