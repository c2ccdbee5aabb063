-- ===== src/Timer/Keepalive.antt =====
-- A timeout that is ticked in time never calls its client.
use iojxd.Prelude.{ℕ, ◌+◌, ◌<◌, ◌≡◌, refl, true, some, List, [], ◌∷◌}
use iojxd.Memory.{Ptr, ok, pure, ◌>>◌}
use iojxd.Ev.{Timers}
use iojxd.Timer.{Handler, timeout_cb, Timer, Action, fire, tick}
use iojxd.Timer.OneShot.{with_timer}
use iojxd.Timer.Timeout.{rearmed, timeout_rearms}

-- A call of `tick`, and a turn of the loop at the due timer, each with the loop's time.
pub data Turn : Type 0 where
  ticked woken : ℕ → Turn

unfoldable pub run_turns :
    (ev : Timers Handler) → (Ptr → Ptr → Action ev (Unit {0})) → List Turn → Action ev (Unit {0})
run_turns ev client [] = pure tt
run_turns ev client (ticked now ∷ ts) = tick ev now >> run_turns ev client ts
run_turns ev client (woken now ∷ ts) = fire ev client now >> run_turns ev client ts

-- No turn of the loop is later than `interval` after the last tick.
abbrev pub IsPrompt : ℕ → ℕ → List Turn → Type 0
IsPrompt interval last [] = Unit
IsPrompt interval last (ticked now ∷ ts) = IsPrompt interval now ts
IsPrompt interval last (woken now ∷ ts) = (now < last + interval) × IsPrompt interval last ts

-- Whatever the client is, a run of ticks and turns of the loop in which no turn comes `interval` or
-- more after the last tick ends normally, without a call of the client: the timer's callback and
-- interval are as before, and the watcher still holds the timeout's handler.
pub keepalive :
    (ev : Timers Handler) (client : Ptr → Ptr → Action ev (Unit {0})) (ts : List Turn) (t : Timer)
    (w : ev.W)
    → ev.cb w ≡ some timeout_cb
    → t.is_timeout ≡ true
    → IsPrompt t.interval t.last_act ts
    → (t' : Timer) × (w' : ev.W) × (run_turns ev client ts (with_timer t w)
        ≡ ok tt (with_timer t' w'))
      × (ev.cb w' ≡ some timeout_cb)
      × (t'.interval ≡ t.interval)
      × (t'.cb ≡ t.cb)
unfolding run_turns tick
keepalive ev client [] t w handler marked prompt = (t, w, refl, handler, refl, refl)
keepalive ev client (ticked now ∷ ts) t w handler marked prompt =
    keepalive ev client ts (record t { last_act = now }) w handler marked prompt
keepalive ev client (woken now ∷ ts) t w handler marked prompt =
    let turn = timeout_rearms ev client now t w handler marked prompt.0 in
    let (t', w', run, h, i, c) =
      keepalive ev client ts (record t { active = true }) (rearmed ev now t w) turn.3 marked
        prompt.1 in
    (t', w', rw turn.0 run, h, i, c)
