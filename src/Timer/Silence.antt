-- ===== src/Timer/Silence.antt =====
-- A timeout that is no longer ticked.
use iojxd.Prelude.{ℕ, ◌<◌, ◌≡◌, refl, Bool, false, true, some, List, [], ◌∷◌, map}
use iojxd.Memory.{Ptr, null, ok}
use iojxd.Ev.{Timers}
use iojxd.Timer.{Handler, timeout_cb, Timer, Action, fire}
use iojxd.Timer.OneShot.{with_timer}
use iojxd.Timer.Timeout.{idle_limit, rearmed, timeout_rearms, timeout_fires}
use iojxd.Timer.Keepalive.{woken, run_turns}

abbrev pub Early : ℕ → List ℕ → Type 0
Early limit [] = Unit
Early limit (now ∷ ts) = (now < limit) × Early limit ts

-- The watcher wakes the loop at the limit by itself.
abbrev pub Armed : (ev : Timers Handler) → ℕ → ev.W → List ℕ → Type 0
Armed ev limit w [] = Unit
Armed ev limit w (now ∷ ts) = (ev.is_active w ≡ true) × (ev.due w ≡ limit)

silent_run :
    (ev : Timers Handler) (client : Ptr → Ptr → Action ev (Unit {0})) (ts : List ℕ) (t : Timer)
    (w : ev.W)
    → ev.cb w ≡ some timeout_cb
    → t.is_timeout ≡ true
    → Early (idle_limit t) ts
    → (b : Bool) × (w' : ev.W) × (run_turns ev client (map woken ts) (with_timer t w)
        ≡ ok tt (with_timer (record t { active = b }) w'))
      × (ev.cb w' ≡ some timeout_cb)
      × Armed ev (idle_limit t) w' ts
unfolding run_turns
silent_run ev client [] t w handler marked early = (t.active, w, refl, handler, tt)
silent_run ev client (now ∷ []) t w handler marked early =
    let turn = timeout_rearms ev client now t w handler marked early.0 in
    (true, rearmed ev now t w, rw turn.0, turn.3, (turn.1, turn.2))
silent_run ev client (now ∷ later ∷ ts) t w handler marked early =
    let turn = timeout_rearms ev client now t w handler marked early.0 in
    let (b, w', ran, h, armed) =
      silent_run ev client (later ∷ ts) (record t { active = true }) (rearmed ev now t w) turn.3
        marked early.1 in
    (b, w', rw turn.0 ran, h, armed)

-- A timeout with a callback that is not ticked any more gets to call it. However often the loop
-- wakes it before the limit, it is then active and due at the limit, so that the loop wakes it
-- again without any other event, and when the loop does so past the limit, the callback is called,
-- with the flag `active` cleared. A turn at the very limit is excluded.
pub silence_lem :
    (ev : Timers Handler) (client : Ptr → Ptr → Action ev (Unit {0})) (early : List ℕ) (late : ℕ)
    (t : Timer) (w : ev.W)
    → ev.cb w ≡ some timeout_cb
    → t.is_timeout ≡ true
    → null < t.cb
    → Early (idle_limit t) early
    → idle_limit t < late
    → (b : Bool) × (w' : ev.W) × (run_turns ev client (map woken early) (with_timer t w)
        ≡ ok tt (with_timer (record t { active = b }) w'))
      × Armed ev (idle_limit t) w' early
      × (fire ev client late (with_timer (record t { active = b }) w')
          ≡ client t.cb t.args (with_timer (record t { active = false }) (ev.expire late w')))
silence_lem ev client early late t w handler marked callable before past =
    let (b, w', ran, h, armed) = silent_run ev client early t w handler marked before in
    (
      b,
      w',
      ran,
      armed,
      timeout_fires ev client late (record t { active = b }) w' h marked past callable,
    )
