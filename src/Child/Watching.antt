-- ===== src/Child/Watching.antt =====
-- A child watcher from `start` to its callback, and the order of calls that its assertions allow.
use iojxd.Prelude.{
  ℕ, ℤ, pos, negsuc, suc, ◌≡◌, refl, true, false, Option, none, some, if◌then◌else◌, ◌∙◌,
}
use iojxd.Memory.{Run, and_then, Ptr, is_null, Cmd, ok, err, aborted, bad_access, fail, pure, ◌>>◌}
use iojxd.Memory.Returns.{Fails}
use iojxd.Ev.{Watchers}
use iojxd.Child.{Handler, ChildWatcher, Report, Store, Action, free, start, on_child, fire, fork}

-- The store of a watcher that is there.
abbrev pub watching : {W C : Type 0} → ChildWatcher → W → Option Report → C → Store W C
watching c w r k = record { childw = some c; event = some w; report = r; client_state = k }

abbrev pub freed : {W C : Type 0} → Option Report → C → Store W C
freed r k = record { childw = none; event = none; report = r; client_state = k }

aborts : {S A : Type 0} (r : Run S A) → Fails (and_then r (λ _. fail {A = ℤ} aborted))
aborts (ok a s) = tt
aborts (err e) = tt

module _ (ev : Watchers Handler ℕ) where
  -- The event once it watches the child, and after it has been reported.
  abbrev pub started : ℕ → ev.W → ev.W
  started pid w = ev.start (ev.set pid w)

  abbrev pub over : ℕ → ev.W → ev.W
  over pid w = ev.stop (started pid w)

  module _ (C : Type 0) (pid : ℕ) (cb args : Ptr) (c : ChildWatcher) (w : ev.W) (r : Option Report)
      (k : C) (idle : ev.is_active w ≡ false) (quiet : ev.is_pending w ≡ false) where
    pub start-ok :
        start ev C pid cb args (watching c w r k)
        ≡ ok tt (watching (record { cb = cb; args = args }) (started pid w) r k)
    unfolding start
    start-ok = rw (idle, quiet)

    pub fire-ok :
        (client : Ptr → Ptr → Action ev C (Unit {0})) (rep : Report)
        → is_null cb ≡ false
        → fire ev C client rep (watching (record { cb = cb; args = args }) (started pid w) r k)
          ≡ client cb args (watching (record { cb = cb; args = args }) (over pid w) (some rep) k)
    unfolding fire on_child
    fire-ok client rep given = rw given

    -- A watcher that is neither active nor pending is started on a child: it waits for that pid,
    -- and when the child is reported the callback, unless it is NULL, is called with its argument,
    -- at a watcher that is neither active nor pending and holds the report.
    pub watch_once :
        (client : Ptr → Ptr → Action ev C (Unit {0})) (rep : Report)
        → ((do start ev C pid cb args; fire ev C client rep) (watching c w r k)
            ≡ (if is_null cb then pure tt else client cb args)
                (watching (record { cb = cb; args = args }) (over pid w) (some rep) k))
          × (ev.cfg (started pid w) ≡ some pid)
          × (ev.is_active (started pid w) ≡ true)
          × (ev.is_active (over pid w) ≡ false)
          × (ev.is_pending (over pid w) ≡ false)
    unfolding fire on_child
    watch_once client rep = (
      rw start-ok,
      ev.cfg-start (ev.set pid w) ∙ ev.cfg-set pid w,
      ev.active-start (ev.set pid w),
      ev.active-stop (started pid w),
      ev.pending-stop (started pid w),
    )

    -- While it waits for the child a watcher can be neither freed nor started again; its callback
    -- may free it, and after that every operation reads freed memory.
    pub watch_discipline :
        (rep : Report) (again : ℕ)
        → is_null cb ≡ false
        → ((do start ev C pid cb args; free ev C) (watching c w r k) ≡ err aborted)
          × ((do start ev C pid cb args; start ev C again cb args) (watching c w r k) ≡ err aborted)
          × ((do start ev C pid cb args; fire ev C (λ f a. free ev C) rep) (watching c w r k)
              ≡ ok tt (freed (some rep) k))
          × ((do start ev C pid cb args; fire ev C (λ f a. free ev C) rep; start ev C again cb args)
                (watching c w r k)
              ≡ err bad_access)
    unfolding fire on_child free start
    watch_discipline rep again given =
        let waits = ev.active-start (ev.set pid w) in
        let still = ev.active-stop (started pid w) in
        let calm = ev.pending-stop (started pid w) in
        (
          rw (idle, quiet, waits),
          rw (idle, quiet, waits),
          rw (idle, quiet, given, still, calm),
          rw (idle, quiet, given, still, calm),
        )

-- `ixut_fork` returns what `fork` returned, a pid or -1, without a call of the callback; in the
-- child it calls the callback and never returns, whatever the callback does.
pub fork_lem :
    {S : Type 0} (cb : Cmd S (Unit {0})) (s : S) (n : ℕ)
    → (fork (negsuc n) cb s ≡ ok (negsuc n) s)
      × (fork (pos (suc n)) cb s ≡ ok (pos (suc n)) s)
      × Fails (fork (pos 0) cb s)
unfolding fork
fork_lem cb s n = (refl, refl, aborts (cb s))
