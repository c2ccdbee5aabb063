-- ===== src/Child/Reuse.antt =====
-- One watcher for one child after the other.
use iojxd.Prelude.{
  ℕ, ◌<◌, ◌≡◌, ◌∙◌, refl, true, false, ◌==◌, Option, some, List, [], ◌∷◌, ◌++◌, append-nil,
  append_assoc, arith, if◌then◌else◌,
}
use iojxd.Memory.{Ptr, is_null, ok, pure, ◌>>◌, ◌>>=◌}
use iojxd.Ev.{Watchers}
use iojxd.Child.{Handler, ChildWatcher, Report, Action, start, fire, reported}
use iojxd.Child.Status.{WaitMacros, ExitStatus, getstatus, getstatus_lem}
use iojxd.Child.Watching.{watching, started, over, start-ok, fire-ok}

module _ (macros : WaitMacros) (ev : Watchers Handler ℕ) where
  -- A callback that notes the status of the child.
  unfoldable pub note : Ptr → Ptr → Action ev (List ExitStatus) (Unit {0})
  note cb args = do
    st ← getstatus macros ev (List ExitStatus)
    λ s. ok tt (record s { client_state = s.client_state ++ st ∷ [] })

  -- The status of a report by an exclusive description of its cause.
  abbrev pub described : Report → ExitStatus
  described rep = record {
    status_raw = rep.rstatus;
    status = macros.wexitstatus rep.rstatus;
    exit_cause =
        if macros.wifexited rep.rstatus
        then 0
        else if macros.wifsignaled rep.rstatus
        then 1
        else if macros.wifstopped rep.rstatus
        then 2
        else 0;
    term_sig = macros.wtermsig rep.rstatus;
  }

  note-ok :
      (cb args : Ptr) (c : ChildWatcher) (w : ev.W) (rep : Report) (k : List ExitStatus)
      → note cb args (watching c w (some rep) k)
        ≡ ok tt (watching c w (some rep) (k ++ described rep ∷ []))
  unfolding note
  note-ok cb args c w rep k = rw (getstatus_lem macros ev (List ExitStatus) c w rep k)

  -- A report of the child that a started watcher waits for, and of another one.
  reported-own :
      (pid : ℕ) (client : Ptr → Ptr → Action ev (List ExitStatus) (Unit {0})) (rep : Report)
      (c : ChildWatcher) (w : ev.W) (r : Option Report) (k : List ExitStatus)
      → rep.rpid ≡ pid
      → reported ev (List ExitStatus) client rep (watching c (started ev pid w) r k)
        ≡ fire ev (List ExitStatus) client rep (watching c (started ev pid w) r k)
  unfolding reported
  reported-own pid client rep c w r k own =
      let set_to = ev.cfg-start (ev.set pid w) ∙ ev.cfg-set pid w in
      let same : (pid == rep.rpid) ≡ true = ground (arith, own) in
      rw (reported, set_to, ev.active-start (ev.set pid w), same)

  reported-other :
      (pid : ℕ) (client : Ptr → Ptr → Action ev (List ExitStatus) (Unit {0})) (rep : Report)
      (c : ChildWatcher) (w : ev.W) (r : Option Report) (k : List ExitStatus)
      → (pid == rep.rpid) ≡ false
      → 0 < pid
      → reported ev (List ExitStatus) client rep (watching c (started ev pid w) r k)
        ≡ ok tt (watching c (started ev pid w) r k)
  unfolding reported
  reported-other pid client rep c w r k other real =
      let set_to = ev.cfg-start (ev.set pid w) ∙ ev.cfg-set pid w in
      let not_any : (pid == 0) ≡ false = ground arith in
      rw (reported, set_to, ev.active-start (ev.set pid w), other, not_any)

  -- The watcher is started on a child; a report of another child comes first, and then its own.
  unfoldable pub watch_all :
      (cb args : Ptr) → List (Report × Report) → Action ev (List ExitStatus) (Unit {0})
  watch_all cb args [] = pure tt
  watch_all cb args ((other, own) ∷ rs) = do
    start ev (List ExitStatus) own.rpid cb args
    reported ev (List ExitStatus) note other
    reported ev (List ExitStatus) note own
    watch_all cb args rs

  abbrev pub statuses : List (Report × Report) → List ExitStatus
  statuses [] = []
  statuses ((other, own) ∷ rs) = described own ∷ statuses rs

  -- Each report of another child is of another pid, and no pid is 0.
  abbrev pub AreOthers : List (Report × Report) → Type 0
  AreOthers [] = Unit
  AreOthers ((other, own) ∷ rs) = ((own.rpid == other.rpid) ≡ false) × (0 < own.rpid) × AreOthers rs

  -- Used for any number of children in turn, while a loop reports other children too, a watcher
  -- that is neither active nor pending calls its callback once for each of its own children, in
  -- order, and not for the others, and each call reads the status of its own child: the raw status
  -- with the results of its macros, and 0 as the cause if the child exited, 1 if a signal ended it,
  -- 2 if it is stopped, and 0 otherwise. The watcher is neither active nor pending afterwards. The
  -- callback is not NULL, and no pid is 0.
  pub watch_all_lem :
      (cb args : Ptr) (rs : List (Report × Report)) (c : ChildWatcher) (w : ev.W)
      (r : Option Report) (k : List ExitStatus)
      → AreOthers rs
      → is_null cb ≡ false
      → ev.is_active w ≡ false
      → ev.is_pending w ≡ false
      → (c' : ChildWatcher) × (w' : ev.W) × (r' : Option Report) × (watch_all cb args rs
            (watching c w r k)
          ≡ ok tt (watching c' w' r' (k ++ statuses rs)))
        × (ev.is_active w' ≡ false)
        × (ev.is_pending w' ≡ false)
  unfolding watch_all
  watch_all_lem cb args [] c w r k others given idle quiet =
      (c, w, r, rw (append-nil k), idle, quiet)
  watch_all_lem cb args ((other, own) ∷ rs) c w r k others given idle quiet =
      let Out = List ExitStatus in
      let c' : ChildWatcher = record { cb = cb; args = args } in
      let (c2, w2, r2, run, i, q) =
        watch_all_lem cb args rs c' (over ev own.rpid w) (some own) (k ++ described own ∷ [])
          others.2 given (ev.active-stop (started ev own.rpid w))
          (ev.pending-stop (started ev own.rpid w)) in
      (
        c2,
        w2,
        r2,
        rw (
          start-ok ev Out own.rpid cb args c w r k idle quiet,
          reported-other own.rpid note other c' w r k others.0 others.1,
          reported-own own.rpid note own c' w r k refl,
          fire-ok ev Out own.rpid cb args c w r k idle quiet note own given,
          note-ok cb args c' (over ev own.rpid w) own k,
          run,
          append_assoc k (described own ∷ []) (statuses rs),
        ),
        i,
        q,
      )
