-- ===== src/Termination/Ending.antt =====
-- From the registration of a callback to its one call.
use iojxd.Prelude.{ℕ, suc, pos, negsuc, ◌≡◌, refl, true, none, some, ◌∙◌}
use iojxd.Memory.{Ptr, ok, err, bad_access, aborted, ◌>>◌}
use iojxd.Ev.{Watchers}
use iojxd.Termination.{
  Handler, terminated_ev, TermArgs, Store, Action, add_termcb, spawn_process, terminated,
}

module _ (ev : Watchers Handler ℕ) where
  abbrev pub waiting : ℕ → ev.W
  waiting pid = ev.start (ev.set pid (ev.init terminated_ev ev.blank))

  -- What the client sees: its argument with the pid and the status that libev reports.
  abbrev pub reported : {C : Type 0} (pid rpid rstatus : ℕ) (cb args : Ptr) → C → Store ev.W C
  reported pid rpid rstatus cb args k = record {
    args = some (record { data_ = args; cb = cb; pid = rpid; status = rstatus; term_signal = 0 });
    event = some (waiting pid);
    client_state = k;
  }

  module _ (C : Type 0) (pid : ℕ) (cb args : Ptr) (s : Store ev.W C) where
    -- `spawn_process` does nothing if `fork` failed, never returns in the child, and in the parent
    -- registers the callback on a watcher that is active and waits for the child's pid.
    pub spawn_process_lem :
        (spawn_process ev C (negsuc pid) cb args s ≡ ok tt s)
        × (spawn_process ev C (pos 0) cb args s ≡ err aborted)
        × (spawn_process ev C (pos (suc pid)) cb args s
            ≡ ok tt (reported (suc pid) (suc pid) 0 cb args s.client_state))
        × (ev.is_active (waiting (suc pid)) ≡ true)
        × (ev.cfg (waiting (suc pid)) ≡ some (suc pid))
        × (ev.cb (waiting (suc pid)) ≡ some terminated_ev)
    unfolding spawn_process add_termcb
    spawn_process_lem =
        let blank = ev.init terminated_ev ev.blank in
        let aimed = ev.set (suc pid) blank in
        (
          refl,
          refl,
          refl,
          ev.active-start aimed,
          ev.cfg-start aimed ∙ ev.cfg-set (suc pid) blank,
          ev.cb-start aimed ∙ (ev.cb-set (suc pid) blank ∙ ev.cb-init terminated_ev ev.blank),
        )

    -- The end of the child calls the callback once, with its argument, the pid and the status that
    -- libev reports; then both objects are freed, and only the client's state stays. The condition
    -- is that the client returns and leaves the two objects in place.
    pub terminated_lem :
        (client : Ptr → Action ev C (Unit {0})) (rpid rstatus : ℕ) (a : TermArgs) (w : ev.W) (k : C)
        → client cb (reported pid rpid rstatus cb args s.client_state)
          ≡ ok tt (record { args = some a; event = some w; client_state = k })
        → (do add_termcb ev C pid cb args; terminated ev C client rpid rstatus) s
          ≡ ok tt (record { args = none; event = none; client_state = k })
    unfolding terminated add_termcb
    terminated_lem client rpid rstatus a w k called = rw called

    -- A client that frees its argument in the callback makes the handler free it again.
    pub terminated-twice :
        (client : Ptr → Action ev C (Unit {0})) (rpid rstatus : ℕ) (w : ev.W) (k : C)
        → client cb (reported pid rpid rstatus cb args s.client_state)
          ≡ ok tt (record { args = none; event = some w; client_state = k })
        → (do add_termcb ev C pid cb args; terminated ev C client rpid rstatus) s ≡ err bad_access
    unfolding terminated add_termcb
    terminated-twice client rpid rstatus w k called = rw called
