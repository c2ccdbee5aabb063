-- ===== src/Ev/Model.antt =====
-- Concrete watchers and timers that meet the laws, for runs of the model on given inputs.
use iojxd.Prelude.{ℕ, ◌+◌, ◌≡◌, refl, Bool, true, false, Option, some, none, ltb, if◌then◌else◌}
use iojxd.Ev.{Watchers, Timers}

pub record PlainWatcher (Cb Cfg : Type 0) : Type 0 where
  pub active : Bool
  pub pending : Bool
  pub callback : Option Cb
  pub config : Option Cfg

abbrev pub plain_watchers : (Cb Cfg : Type 0) → Watchers Cb Cfg
plain_watchers Cb Cfg = record {
  W = PlainWatcher Cb Cfg;
  blank = record { active = false; pending = false; callback = none; config = none };
  init = λ c w. record w { active = false; pending = false; callback = some c };
  set = λ f w. record w { config = some f };
  start = λ w. record w { active = true };
  stop = λ w. record w { active = false; pending = false };
  is_active = λ w. w.active;
  is_pending = λ w. w.pending;
  cb = λ w. w.callback;
  cfg = λ w. w.config;
  active-init = λ c w. refl;
  pending-init = λ c w. refl;
  cb-init = λ c w. refl;
  active-set = λ f w. refl;
  pending-set = λ f w. refl;
  cb-set = λ f w. refl;
  cfg-set = λ f w. refl;
  active-start = λ w. refl;
  cb-start = λ w. refl;
  cfg-start = λ w. refl;
  active-stop = λ w. refl;
  pending-stop = λ w. refl;
  cb-stop = λ w. refl;
}

pub record PlainTimer (Cb : Type 0) : Type 0 where
  pub active : Bool
  pub callback : Option Cb
  pub delay : ℕ
  pub period : ℕ
  pub deadline : ℕ

pub start_timer_due :
    {Cb : Type 0} (t : ℕ) (w : PlainTimer Cb)
    → w.active ≡ false
    → (if w.active then w.deadline else t + w.delay) ≡ t + w.delay
start_timer_due t w e = rw e

abbrev pub plain_timers : (Cb : Type 0) → Timers Cb
plain_timers Cb = record {
  W = PlainTimer Cb;
  blank = record { active = false; callback = none; delay = 0; period = 0; deadline = 0 };
  init = λ c w. record w { active = false; callback = some c };
  set = λ a r w. record w { delay = a; period = r };
  set_repeat = λ r w. record w { period = r };
  start =
      λ t w. record w { active = true; deadline = if w.active then w.deadline else t + w.delay };
  stop = λ w. record w { active = false };
  again = λ t w. record w { active = ltb 0 w.period; deadline = t + w.period };
  expire = λ t w. record w { active = ltb 0 w.period; deadline = t + w.period };
  is_active = λ w. w.active;
  cb = λ w. w.callback;
  repeat = λ w. w.period;
  after = λ w. w.delay;
  due = λ w. w.deadline;
  active-init = λ c w. refl;
  cb-init = λ c w. refl;
  active-set = λ a r w. refl;
  cb-set = λ a r w. refl;
  repeat-set = λ a r w. refl;
  after-set = λ a r w. refl;
  active-set_repeat = λ r w. refl;
  cb-set_repeat = λ r w. refl;
  repeat-set_repeat = λ r w. refl;
  active-start = λ t w. refl;
  cb-start = λ t w. refl;
  repeat-start = λ t w. refl;
  due-start = start_timer_due;
  active-stop = λ w. refl;
  cb-stop = λ w. refl;
  active-again = λ t w. refl;
  cb-again = λ t w. refl;
  repeat-again = λ t w. refl;
  due-again = λ t w h. refl;
  active-expire = λ t w. refl;
  cb-expire = λ t w. refl;
  repeat-expire = λ t w. refl;
}
