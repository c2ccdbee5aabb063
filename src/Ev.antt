-- ===== src/Ev.antt =====
-- What the source uses of libev, which is not part of the repository: watchers of I/O and of
-- children, and timers, as operations with the documented laws. A watcher stands for the C object
-- together with what the loop keeps for it.
pub mod Model
use iojxd.Prelude.{ℕ, ◌+◌, ◌<◌, ◌≡◌, Bool, true, false, Option, some, ltb}

-- `ev_io` and `ev_child`: `Cb` are the callbacks of the source, `Cfg` what `ev_TYPE_set` takes.
pub record Watchers (Cb Cfg : Type 0) : Type 1 where
  pub W : Type 0
  -- As `malloc` leaves it.
  pub blank : W
  pub init : Cb → W → W
  pub set : Cfg → W → W
  pub start : W → W
  pub stop : W → W
  pub is_active : W → Bool
  pub is_pending : W → Bool
  pub cb : W → Option Cb
  pub cfg : W → Option Cfg
  pub active-init : (c : Cb) (w : W) → is_active (init c w) ≡ false
  pub pending-init : (c : Cb) (w : W) → is_pending (init c w) ≡ false
  pub cb-init : (c : Cb) (w : W) → cb (init c w) ≡ some c
  pub active-set : (f : Cfg) (w : W) → is_active (set f w) ≡ is_active w
  pub pending-set : (f : Cfg) (w : W) → is_pending (set f w) ≡ is_pending w
  pub cb-set : (f : Cfg) (w : W) → cb (set f w) ≡ cb w
  pub cfg-set : (f : Cfg) (w : W) → cfg (set f w) ≡ some f
  pub active-start : (w : W) → is_active (start w) ≡ true
  pub cb-start : (w : W) → cb (start w) ≡ cb w
  pub cfg-start : (w : W) → cfg (start w) ≡ cfg w
  pub active-stop : (w : W) → is_active (stop w) ≡ false
  pub pending-stop : (w : W) → is_pending (stop w) ≡ false
  pub cb-stop : (w : W) → cb (stop w) ≡ cb w

-- `ev_timer`. The first argument of an operation is the loop's time, `ev_now(loop)`.
pub record Timers (Cb : Type 0) : Type 1 where
  pub W : Type 0
  pub blank : W
  pub init : Cb → W → W
  -- `ev_timer_set (w, after, repeat)`
  pub set : ℕ → ℕ → W → W
  -- The assignment `w->repeat = r`, which libev allows at any time.
  pub set_repeat : ℕ → W → W
  pub start : ℕ → W → W
  pub stop : W → W
  pub again : ℕ → W → W
  -- What the loop does with an expired timer before it calls back.
  pub expire : ℕ → W → W
  pub is_active : W → Bool
  pub cb : W → Option Cb
  pub repeat : W → ℕ
  pub after : W → ℕ
  -- The loop's time at which an active timer is due.
  pub due : W → ℕ
  pub active-init : (c : Cb) (w : W) → is_active (init c w) ≡ false
  pub cb-init : (c : Cb) (w : W) → cb (init c w) ≡ some c
  pub active-set : (a r : ℕ) (w : W) → is_active (set a r w) ≡ is_active w
  pub cb-set : (a r : ℕ) (w : W) → cb (set a r w) ≡ cb w
  pub repeat-set : (a r : ℕ) (w : W) → repeat (set a r w) ≡ r
  pub after-set : (a r : ℕ) (w : W) → after (set a r w) ≡ a
  pub active-set_repeat : (r : ℕ) (w : W) → is_active (set_repeat r w) ≡ is_active w
  pub cb-set_repeat : (r : ℕ) (w : W) → cb (set_repeat r w) ≡ cb w
  pub repeat-set_repeat : (r : ℕ) (w : W) → repeat (set_repeat r w) ≡ r
  -- "Starts (activates) the given watcher"; nothing happens to one that is active.
  pub active-start : (t : ℕ) (w : W) → is_active (start t w) ≡ true
  pub cb-start : (t : ℕ) (w : W) → cb (start t w) ≡ cb w
  pub repeat-start : (t : ℕ) (w : W) → repeat (start t w) ≡ repeat w
  pub due-start : (t : ℕ) (w : W) → is_active w ≡ false → due (start t w) ≡ t + after w
  pub active-stop : (w : W) → is_active (stop w) ≡ false
  pub cb-stop : (w : W) → cb (stop w) ≡ cb w
  -- `ev_timer_again`: without a repeat value the timer is stopped, with one it is due after it.
  pub active-again : (t : ℕ) (w : W) → is_active (again t w) ≡ ltb 0 (repeat w)
  pub cb-again : (t : ℕ) (w : W) → cb (again t w) ≡ cb w
  pub repeat-again : (t : ℕ) (w : W) → repeat (again t w) ≡ repeat w
  pub due-again : (t : ℕ) (w : W) → 0 < repeat w → due (again t w) ≡ t + repeat w
  -- A timer without a repeat value stops when it is due; one with it is due again.
  pub active-expire : (t : ℕ) (w : W) → is_active (expire t w) ≡ ltb 0 (repeat w)
  pub cb-expire : (t : ℕ) (w : W) → cb (expire t w) ≡ cb w
  pub repeat-expire : (t : ℕ) (w : W) → repeat (expire t w) ≡ repeat w
