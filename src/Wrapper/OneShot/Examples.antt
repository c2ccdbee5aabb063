-- ===== src/Wrapper/OneShot/Examples.antt =====
-- A timer and a child watcher in Lua.
use iojxd.Prelude.{ℕ, ◌≡◌, refl, true, false, none, List, [], ◌∷◌}
use iojxd.Memory.{err, aborted, ◌>>◌}
use iojxd.Memory.Returns.{Returns}
use iojxd.Ev.{Timers, Watchers}
use iojxd.Ev.Model.{plain_timers, plain_watchers, PlainTimer}
use iojxd.Timer
use iojxd.Timer.OneShot.{with_timer}
use iojxd.Child
use iojxd.Child.{Report}
use iojxd.Child.Watching.{watching}
use iojxd.Wrapper.Plain.{plain_counts}
use iojxd.Wrapper.OneShot.{Impl, start, fire}
use iojxd.Wrapper.OneShot.Life.{
  Event, collect, begin, fired, life, here, next, collects, begins, fires, object, run, Refines,
  life_lem,
}
use iojxd.Wrapper.OneShot.Restart.{collect_times, restart-aborts}
use iojxd.Wrapper.OneShot.Impls.{timer_impl, timer_idle, timer_waiting, child_impl, child_idle}

abbrev libev : Timers Timer.Handler
libev = plain_timers Timer.Handler

abbrev a_timer : Timer.Timer
a_timer = record {
  cb = 0;
  args = 0;
  active = false;
  is_timeout = false;
  interval = 0;
  last_act = 0;
}

abbrev resting : PlainTimer Timer.Handler
resting = libev.init Timer.Handler.timer_cb libev.blank

abbrev timers : Impl
timers = timer_impl libev 7 8

-- Lua starts a timer and forgets it; it fires, and is deleted.
abbrev forgotten : List (Event (ℕ × ℕ) ℕ)
forgotten = begin (100, 50) ∷ collect ∷ fired 151 0 ∷ []

life_lem_example :
    Returns
      (λ _ p. (p.alive ≡ false) × Refines plain_counts timers (life 0 false) p)
      (run plain_counts timers forgotten
        (object plain_counts timers 1 false true (with_timer a_timer resting)))
life_lem_example =
    life_lem plain_counts timers 1 (with_timer a_timer resting) forgotten (life 0 false) refl
      (timer_idle a_timer resting refl refl refl) (next begins (next collects (next fires here)))

-- The same of a child watcher.
abbrev children : Watchers Child.Handler ℕ
children = plain_watchers Child.Handler ℕ

abbrev watchers : Impl
watchers = child_impl children 7 8

child_forgotten :
    Returns
      (λ _ p. (p.alive ≡ false) × Refines plain_counts watchers (life 0 false) p)
      (run plain_counts watchers
        (begin 42 ∷ collect ∷ fired (record { rpid = 42; rstatus = 256 }) 0 ∷ [])
        (object plain_counts watchers 1 false true (
          watching
            (record { cb = 0; args = 0 })
            (children.init Child.Handler.childw_cb children.blank)
            none
            tt)))
child_forgotten =
    life_lem plain_counts watchers 1 _ _ (life 0 false) refl (child_idle _ _ none refl refl)
      (next begins (next collects (next fires here)))

abbrev armed_timer : PlainTimer Timer.Handler
armed_timer = libev.start 100 (libev.set 50 0 resting)

-- A timer that Lua still holds once, and that starts itself again from its callback.
restart-aborts_example :
    (do
      fire plain_counts timers 151 (start plain_counts timers (151, 50))
      collect_times plain_counts timers 1)
      (object plain_counts timers 2 true true
        (with_timer (record a_timer { cb = 7; args = 8; active = true }) armed_timer))
    ≡ err aborted
restart-aborts_example =
    restart-aborts plain_counts timers 151 (151, 50) 1 2
      (with_timer (record a_timer { cb = 7; args = 8; active = true }) armed_timer) refl
      (timer_waiting (record a_timer { cb = 7; args = 8; active = true }) armed_timer refl refl refl
        refl refl)
