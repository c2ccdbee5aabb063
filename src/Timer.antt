-- ===== src/Timer.antt =====
-- src/timer.hxx and src/timer.cxx. A time is a whole number of a fixed small unit, and `now` is
-- what `ev_now` returns; libev is a parameter, and so is the client code behind a callback.
pub mod OneShot
pub mod Timeout
pub mod Keepalive
pub mod Silence
mod Examples
use iojxd.Prelude.{
  ℕ, ◌+◌, ◌-◌, Bool, true, false, not, Option, none, some, ltb, leb, ◌==◌, ◌&&◌, if◌then◌else◌,
}
use iojxd.Memory.{
  Ptr, null, Fault, bad_access, Run, ok, err, Cmd, pure, fail, ◌>>=◌, ◌>>◌, assert, is_null,
}
use iojxd.Ev.{Timers}

-- The two functions that the source gives to libev.
pub data Handler : Type 0 where
  timer_cb timeout_cb : Handler

-- `struct ixut_timer`, but for `_timer` and `context`, which never change.
pub record Timer : Type 0 where
  pub cb : Ptr
  pub args : Ptr
  pub active : Bool
  pub is_timeout : Bool
  pub interval : ℕ
  pub last_act : ℕ

-- One timer and its watcher. `none` is a timer that has been freed; the watcher never is.
pub record Store (W : Type 0) : Type 0 where
  pub timer : Option Timer
  pub watcher : W

module _ (ev : Timers Handler) where
  abbrev pub Action : Type 0 → Type 0
  Action A = Cmd (Store ev.W) A

  -- `timer->…`, through a pointer that may dangle.
  abbrev pub get : Action Timer
  get s = elim s.timer [ none ↦ err bad_access | some t ↦ ok t s ]

  abbrev pub set : Timer → Action (Unit {0})
  set t s = ok tt (record s { timer = some t })

  abbrev pub on_watcher : (ev.W → ev.W) → Action (Unit {0})
  on_watcher f s = ok tt (record s { watcher = f s.watcher })

  unfoldable pub create : Store ev.W
  create = record {
    timer = some (record {
      cb = null;
      args = null;
      active = false;
      is_timeout = false;
      interval = 0;
      last_act = 0;
    });
    watcher = ev.init timer_cb ev.blank;
  }

  -- The watcher is not freed: the source has that line as a comment.
  unfoldable pub free : Action (Unit {0})
  free = do t ← get; assert (not t.active); λ s. ok tt (record s { timer = none })

  unfoldable pub start : ℕ → ℕ → Ptr → Ptr → Action (Unit {0})
  start now interval cb args = do
    t ← get
    set (record t { cb = cb; args = args })
    on_watcher (ev.set interval 0)
    on_watcher (ev.start now)
    t ← get
    set (record t { active = true; interval = interval })

  unfoldable pub stop : Action (Unit {0})
  stop = do t ← get; assert t.active; on_watcher ev.stop; set (record t { active = false })

  unfoldable pub setimeout : Action (Unit {0})
  setimeout = do t ← get; set (record t { is_timeout = true }); on_watcher (ev.init timeout_cb)

  unfoldable pub tick : ℕ → Action (Unit {0})
  tick now = do t ← get; set (record t { last_act = now })

  unfoldable pub again : ℕ → Action (Unit {0})
  again now = do t ← get; on_watcher (ev.again now); set (record t { active = true })

  -- `client cb args` is what the callback at `cb` does; it may use the timer's own operations.
  module _ (client : Ptr → Ptr → Action (Unit {0})) where
    unfoldable pub on_timer : Action (Unit {0})
    on_timer = do
      t ← get
      set (record t { active = false })
      if is_null t.cb then pure tt else client t.cb t.args

    unfoldable pub on_timeout : ℕ → Action (Unit {0})
    on_timeout now = do
      t ← get
      assert t.is_timeout
      let timeout = t.last_act + t.interval
      if ltb timeout now
          then (if is_null t.cb
              then pure tt
              else do set (record t { active = false }); client t.cb t.args)
          else do on_watcher (ev.set_repeat (timeout - now)); again now

    -- The call of the function that the watcher holds.
    unfoldable pub dispatch : Option Handler → ℕ → Action (Unit {0})
    unfolding on_timer on_timeout
    dispatch none now = fail bad_access
    dispatch (some timer_cb) now = on_timer
    dispatch (some timeout_cb) now = on_timeout now

    -- The loop's turn at a due timer: libev's own bookkeeping, then the handler.
    unfoldable pub fire : ℕ → Action (Unit {0})
    unfolding dispatch
    fire now s = dispatch (ev.cb s.watcher) now (record s { watcher = ev.expire now s.watcher })

    -- A turn of the loop: libev calls the handler only of a timer that is active and due.
    unfoldable pub turn : ℕ → Action (Unit {0})
    unfolding fire
    turn now s =
        if ev.is_active s.watcher && leb (ev.due s.watcher) now then fire now s else ok tt s
