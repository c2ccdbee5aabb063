-- ===== src/Timer/Timeout.antt =====
-- A timer with `setimeout` fires when `tick` has not been called for longer than the interval.
use iojxd.Prelude.{ℕ, ◌+◌, ◌-◌, ◌<◌, ◌≤◌, ◌≡◌, true, false, some, arith, ltb, leb, ◌∙◌, ap}
use iojxd.Memory.{Ptr, null, ok, err, bad_access, ◌>>◌, is_null}
use iojxd.Ev.{Timers}
use iojxd.Timer.{Handler, timeout_cb, Timer, Action, free, fire, turn, on_timeout, again}
use iojxd.Timer.OneShot.{with_timer, turn-due}

-- The moment from which on the timer has been idle for too long.
abbrev pub idle_limit : Timer → ℕ
idle_limit t = t.last_act + t.interval

-- The watcher after a turn of the loop before the limit.
abbrev pub rearmed : (ev : Timers Handler) → ℕ → Timer → ev.W → ev.W
rearmed ev now t w = ev.again now (ev.set_repeat (idle_limit t - now) (ev.expire now w))

module _ (ev : Timers Handler) (client : Ptr → Ptr → Action ev (Unit {0})) (now : ℕ) (t : Timer)
    (w : ev.W) (handler : ev.cb w ≡ some timeout_cb) (marked : t.is_timeout ≡ true) where
  fire-early :
      ltb (idle_limit t) now ≡ false
      → fire ev client now (with_timer t w)
        ≡ ok tt (with_timer (record t { active = true }) (rearmed ev now t w))
  unfolding fire on_timeout again
  fire-early early = rw (handler, marked, early)

  -- Before the limit the client is not called, and the timer is due again at the limit exactly.
  pub timeout_rearms :
      now < idle_limit t
      → (fire ev client now (with_timer t w)
          ≡ ok tt (with_timer (record t { active = true }) (rearmed ev now t w)))
        × (ev.is_active (rearmed ev now t w) ≡ true)
        × (ev.due (rearmed ev now t w) ≡ idle_limit t)
        × (ev.cb (rearmed ev now t w) ≡ some timeout_cb)
  timeout_rearms early =
      let w' = ev.expire now w in
      let left = idle_limit t - now in
      let r : ev.repeat (ev.set_repeat left w') ≡ left = ev.repeat-set_repeat left w' in
      (
        fire-early (ground arith),
        ev.active-again now (ev.set_repeat left w') ∙ ap (ltb 0) r ∙ ground arith,
        ev.due-again now (ev.set_repeat left w') (omega (arith, r)) ∙ omega (arith, r),
        ev.cb-again now (ev.set_repeat left w')
            ∙ ev.cb-set_repeat left w'
            ∙ ev.cb-expire now w
            ∙ handler,
      )

  -- Past the limit the client is called once, with the flag `active` cleared.
  pub timeout_fires :
      idle_limit t < now
      → null < t.cb
      → fire ev client now (with_timer t w)
        ≡ client t.cb t.args (with_timer (record t { active = false }) (ev.expire now w))
  unfolding fire on_timeout
  timeout_fires late some_cb =
      let past : ltb (idle_limit t) now ≡ true = ground arith in
      let callable : is_null t.cb ≡ false = ground arith in rw (handler, marked, past, callable)

  -- At the limit itself the client is not called, and the timer is stopped for good while its flag
  -- `active` says that it runs.
  pub timeout_lost :
      now ≡ idle_limit t
      → (fire ev client now (with_timer t w)
          ≡ ok tt (with_timer (record t { active = true }) (rearmed ev now t w)))
        × (ev.is_active (rearmed ev now t w) ≡ false)
  timeout_lost at =
      let left = idle_limit t - now in
      let r : ev.repeat (ev.set_repeat left (ev.expire now w)) ≡ left =
        ev.repeat-set_repeat left (ev.expire now w) in
      (
        fire-early (ground arith),
        ev.active-again now (ev.set_repeat left (ev.expire now w)) ∙ ap (ltb 0) r ∙ ground arith,
      )

-- A timer that was re-armed at a turn before its limit has a repeat value, so libev holds it for
-- active while its callback runs at the turn after the limit; a callback that frees the timer, as
-- the flag `active` invites it to, leaves a watcher that is still active and due again, and the
-- turn at which it is due reads freed memory.
pub timeout_dangles :
    (ev : Timers Handler) (client : Ptr → Ptr → Action ev (Unit {0})) (now past later : ℕ)
    (t : Timer) (w : ev.W)
    → ev.cb w ≡ some timeout_cb
    → t.is_timeout ≡ true
    → ev.is_active w ≡ true
    → ev.due w ≤ now
    → now < idle_limit t
    → idle_limit t < past
    → ev.due (ev.expire past (rearmed ev now t w)) ≤ later
    → null < t.cb
    → client t.cb t.args ≡ free ev
    → (turn ev client now >> (turn ev client past >> turn ev client later)) (with_timer t w)
      ≡ err bad_access
unfolding free fire on_timeout turn
timeout_dangles ev client now past later t w handler marked active due early late due' some_cb
      frees =
    let t1 = record t { active = true } in
    let w1 = rearmed ev now t w in
    let w2 = ev.expire past w1 in
    let armed = timeout_rearms ev client now t w handler marked early in
    let left = idle_limit t - now in
    let set_to : ev.repeat (ev.set_repeat left (ev.expire now w)) ≡ left =
      ev.repeat-set_repeat left (ev.expire now w) in
    let rep : ev.repeat w1 ≡ left =
      ev.repeat-again now (ev.set_repeat left (ev.expire now w)) ∙ set_to in
    let again : ev.is_active w2 ≡ true =
      ev.active-expire past w1 ∙ (ap (ltb 0) rep ∙ ground arith) in
    let is_due : leb (ev.due w2) later ≡ true = ground arith in
    let limit : ev.due w1 ≡ idle_limit t = armed.2 in
    rw (
      turn-due ev client now t w active due,
      armed.0,
      turn-due ev client past t1 w1 armed.1 (omega (arith, limit)),
      timeout_fires ev client past t1 w1 armed.3 marked late some_cb,
      frees,
      again,
      is_due,
      ev.cb-expire past w1 ∙ armed.3,
    )
