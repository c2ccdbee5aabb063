-- ===== src/Timer/Examples.antt =====
-- Timers under the concrete libev of `Ev.Model`: the theorems at given times.
use iojxd.Prelude.{ℕ, Bool, ◌≡◌, refl, true, false, some, [], ◌∷◌, arith}
use iojxd.Memory.{Ptr, ok, err, bad_access, ◌>>◌}
use iojxd.Ev.{Timers}
use iojxd.Ev.Model.{PlainTimer, plain_timers}
use iojxd.Timer.{Handler, timer_cb, timeout_cb, Timer, Action, create, start, free, fire, turn}
use iojxd.Timer.OneShot.{with_timer, started, one_shot}
use iojxd.Timer.Timeout.{rearmed, timeout_lost, timeout_dangles}
use iojxd.Timer.Keepalive.{ticked, woken, run_turns, keepalive}
use iojxd.Timer.Silence.{Armed, silence_lem}

abbrev libev : Timers Handler
libev = plain_timers Handler

abbrev new_timer : Timer
new_timer = record {
  cb = 0;
  args = 0;
  active = false;
  is_timeout = false;
  interval = 0;
  last_act = 0;
}

abbrev new_watcher : PlainTimer Handler
new_watcher = libev.init timer_cb libev.blank

created : create libev ≡ with_timer new_timer new_watcher
unfolding create
created = refl

-- A client that frees the timer.
abbrev frees : Ptr → Ptr → Action libev (Unit {0})
frees cb args = free libev

one_shot_example :
    let begin = start libev 100 50 7 8 in
    let begun = with_timer new_timer new_watcher in
    (w' : PlainTimer Handler) × ((begin >> turn libev frees 149) begun ≡ begin begun)
    × ((begin >> turn libev frees 150) begun
        ≡ free libev (with_timer (record (started libev 50 7 8 new_timer) { active = false }) w'))
    × (libev.is_active w' ≡ false)
    × ((u : Timer) (further : ℕ)
        → turn libev frees further (with_timer u w') ≡ ok tt (with_timer u w'))
one_shot_example =
    one_shot libev frees 100 149 150 50 7 8 new_timer new_watcher refl refl (omega arith)
      (omega arith) (omega arith)

-- A timeout of 50 that was last ticked at 100.
abbrev ticked_timer : Timer
ticked_timer = record {
  cb = 7;
  args = 8;
  active = true;
  is_timeout = true;
  interval = 50;
  last_act = 100;
}

-- Its watcher, re-armed once with a repeat value of 20.
abbrev ticked_watcher : PlainTimer Handler
ticked_watcher = record {
  active = true;
  callback = some timeout_cb;
  delay = 50;
  period = 20;
  deadline = 140;
}

timeout_lost_example :
    let w = rearmed libev 150 ticked_timer ticked_watcher in
    (fire libev frees 150 (with_timer ticked_timer ticked_watcher)
      ≡ ok tt (with_timer ticked_timer w))
    × (libev.is_active w ≡ false)
timeout_lost_example = timeout_lost libev frees 150 ticked_timer ticked_watcher refl refl refl

-- Turns at 140, before the limit of 150, at 151 and at 161.
timeout_dangles_example :
    (turn libev frees 140 >> (turn libev frees 151 >> turn libev frees 161))
      (with_timer ticked_timer ticked_watcher)
    ≡ err bad_access
timeout_dangles_example =
    timeout_dangles libev frees 140 151 161 ticked_timer ticked_watcher refl refl refl (omega arith)
      (omega arith) (omega arith) (omega arith) (omega arith) refl

keepalive_example :
    (t' : Timer) × (w' : PlainTimer Handler) × (run_turns libev frees
        (woken 140 ∷ ticked 145 ∷ woken 150 ∷ woken 194 ∷ [])
        (with_timer ticked_timer ticked_watcher)
      ≡ ok tt (with_timer t' w'))
    × (libev.cb w' ≡ some timeout_cb)
    × (t'.interval ≡ 50)
    × (t'.cb ≡ 7)
keepalive_example =
    keepalive libev frees (woken 140 ∷ ticked 145 ∷ woken 150 ∷ woken 194 ∷ []) ticked_timer
      ticked_watcher refl refl (omega arith)

silence_lem_example :
    (b : Bool) × (w' : PlainTimer Handler) × (run_turns libev frees
        (woken 140 ∷ [])
        (with_timer ticked_timer ticked_watcher)
      ≡ ok tt (with_timer (record ticked_timer { active = b }) w'))
    × Armed libev 150 w' (140 ∷ [])
    × (fire libev frees 160 (with_timer (record ticked_timer { active = b }) w')
        ≡ frees 7 0 (with_timer (record ticked_timer { active = false }) (libev.expire 160 w')))
silence_lem_example =
    silence_lem libev frees (140 ∷ []) 160 ticked_timer ticked_watcher refl refl (omega arith)
      (omega arith) (omega arith)
