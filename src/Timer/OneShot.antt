-- ===== src/Timer/OneShot.antt =====
-- A timer that is started runs its callback once, and the flag `active` says what libev's does.
use iojxd.Prelude.{
  ℕ, ◌+◌, ◌<◌, ◌≤◌, ◌≡◌, refl, true, false, none, some, arith, ltb, leb, ◌∙◌, ap, Bool-cases, inl,
  inr,
}
use iojxd.Memory.{Ptr, null, ok, err, aborted, bad_access, ◌>>◌, is_null}
use iojxd.Ev.{Timers}
use iojxd.Timer.{Handler, timer_cb, Timer, Store, Action, start, stop, free, fire, turn, on_timer}

abbrev pub with_timer : {W : Type 0} → Timer → W → Store W
with_timer t w = record { timer = some t; watcher = w }

module _ (ev : Timers Handler) where
  -- What `start` leaves in the timer and in the watcher.
  abbrev pub started : ℕ → Ptr → Ptr → Timer → Timer
  started interval cb args t = record t { cb = cb; args = args; active = true; interval = interval }

  abbrev pub armed : ℕ → ℕ → ev.W → ev.W
  armed now interval w = ev.start now (ev.set interval 0 w)

  -- `start` on a timer whose watcher is not active: both flags are set, the timer is due `interval`
  -- after the loop's time, it has no repeat value and keeps its handler.
  pub start_lem :
      (now interval : ℕ) (cb args : Ptr) (t : Timer) (w : ev.W)
      → ev.is_active w ≡ false
      → (start ev now interval cb args (with_timer t w)
          ≡ ok tt (with_timer (started interval cb args t) (armed now interval w)))
        × (ev.is_active (armed now interval w) ≡ true)
        × (ev.due (armed now interval w) ≡ now + interval)
        × (ev.repeat (armed now interval w) ≡ 0)
        × (ev.cb (armed now interval w) ≡ ev.cb w)
  unfolding start
  start_lem now interval cb args t w idle = (
    refl,
    ev.active-start now (ev.set interval 0 w),
    ev.due-start now (ev.set interval 0 w) (ev.active-set interval 0 w ∙ idle)
        ∙ ap (λ a. now + a) (ev.after-set interval 0 w),
    ev.repeat-start now (ev.set interval 0 w) ∙ ev.repeat-set interval 0 w,
    ev.cb-start now (ev.set interval 0 w) ∙ ev.cb-set interval 0 w,
  )

  -- A turn of the loop at a timer that is not active, or not due.
  pub turn-idle :
      (client : Ptr → Ptr → Action ev (Unit {0})) (now : ℕ) (t : Timer) (w : ev.W)
      → ev.is_active w ≡ false
      → turn ev client now (with_timer t w) ≡ ok tt (with_timer t w)
  unfolding turn
  turn-idle client now t w idle = rw idle

  pub turn-early :
      (client : Ptr → Ptr → Action ev (Unit {0})) (now : ℕ) (t : Timer) (w : ev.W)
      → now < ev.due w
      → turn ev client now (with_timer t w) ≡ ok tt (with_timer t w)
  unfolding turn
  turn-early client now t w early =
      let not_due : leb (ev.due w) now ≡ false = ground arith in
      elim (Bool-cases (ev.is_active w)) [ inl e ↦ rw (e, not_due) | inr e ↦ rw e ]

  -- A turn at a timer that is active and due.
  pub turn-due :
      (client : Ptr → Ptr → Action ev (Unit {0})) (now : ℕ) (t : Timer) (w : ev.W)
      → ev.is_active w ≡ true
      → ev.due w ≤ now
      → turn ev client now (with_timer t w) ≡ fire ev client now (with_timer t w)
  unfolding turn
  turn-due client now t w active due =
      let is_due : leb (ev.due w) now ≡ true = ground arith in rw (active, is_due)

  -- A started timer runs its callback when its interval has passed, and once: before that a turn
  -- of the loop does nothing; at a turn from then on the callback runs with the given argument on a
  -- timer that neither libev nor the flag `active` holds for active any more, so that it may free
  -- or restart the timer; and with the timer as it was then, every further turn does nothing.
  pub one_shot :
      (client : Ptr → Ptr → Action ev (Unit {0})) (now early later interval : ℕ) (cb args : Ptr)
      (t : Timer) (w : ev.W)
      → ev.cb w ≡ some timer_cb
      → ev.is_active w ≡ false
      → null < cb
      → early < now + interval
      → now + interval ≤ later
      → let begin = start ev now interval cb args in
        let begun = with_timer t w in
        (w' : ev.W) × ((begin >> turn ev client early) begun ≡ begin begun)
        × ((begin >> turn ev client later) begun
            ≡ client cb args
                (with_timer (record (started interval cb args t) { active = false }) w'))
        × (ev.is_active w' ≡ false)
        × ((u : Timer) (further : ℕ)
            → turn ev client further (with_timer u w') ≡ ok tt (with_timer u w'))
  unfolding start fire on_timer
  one_shot client now early later interval cb args t w handler idle some_cb soon late =
      let all = start_lem now interval cb args t w idle in
      let callable : is_null cb ≡ false = ground arith in
      let t' = started interval cb args t in
      let w1 = armed now interval w in
      let over = ev.active-expire later w1 ∙ ap (ltb 0) all.3 in
      let due = all.2 in
      (
        ev.expire later w1,
        turn-early client early t' w1 (omega (arith, due)),
        rw (turn-due client later t' w1 all.1 (omega (arith, due)), all.4 ∙ handler, callable),
        over,
        λ u further. turn-idle client further u (ev.expire later w1) over,
      )

  -- A started timer cannot be freed before it is stopped, and can be stopped once: the assertions
  -- of `free` and `stop` fail in the wrong order of calls.
  pub stop_discipline :
      (now interval : ℕ) (cb args : Ptr) (t : Timer) (w : ev.W)
      → let s = with_timer t w in
        let begin = start ev now interval cb args in
        ((begin >> free ev) s ≡ err aborted)
        × ((begin >> (stop ev >> free ev)) s
            ≡ ok tt (record { timer = none; watcher = ev.stop (armed now interval w) }))
        × ((begin >> (stop ev >> stop ev)) s ≡ err aborted)
        × ((begin >> (stop ev >> (free ev >> stop ev))) s ≡ err bad_access)
  unfolding start stop free
  stop_discipline now interval cb args t w = (refl, refl, refl, refl)
