-- ===== src/Wrapper/OneShot/Impls.antt =====
-- Timers and child watchers as implementations under a wrapper.
use iojxd.Prelude.{
  ℕ, ◌<◌, ◌≡◌, refl, true, false, Option, none, some, arith, ltb, Bool-cases, inl, inr, ap, ◌∙◌,
}
use iojxd.Memory.{and_then, Ptr, null, is_null, ok, err, aborted}
use iojxd.Memory.Returns.{Returns, returns}
use iojxd.Ev.{Timers, Watchers}
use iojxd.Timer
use iojxd.Timer.OneShot.{with_timer, started, armed, start_lem}
use iojxd.Child
use iojxd.Child.{Report, ChildWatcher}
use iojxd.Child.Watching
use iojxd.Child.Watching.{watching}
use iojxd.Wrapper.OneShot.{Impl}

-- `cb` is the address of the callback and `self` its argument.
module _ (ev : Timers Timer.Handler) (cb self : Ptr) where
  pub data TimerIdle : Timer.Store ev.W → Type 0 where
    timer_idle :
        (t : Timer.Timer) (w : ev.W)
        → t.active ≡ false
        → ev.cb w ≡ some Timer.Handler.timer_cb
        → ev.is_active w ≡ false
        → TimerIdle (with_timer t w)

  pub data TimerWaiting : Timer.Store ev.W → Type 0 where
    timer_waiting :
        (t : Timer.Timer) (w : ev.W)
        → t.active ≡ true
        → ev.cb w ≡ some Timer.Handler.timer_cb
        → ev.repeat w ≡ 0
        → t.cb ≡ cb
        → t.args ≡ self
        → TimerWaiting (with_timer t w)

  pub data TimerFreed : Timer.Store ev.W → Type 0 where
    timer_freed : (w : ev.W) → TimerFreed (record { timer = none; watcher = w })

  -- What is left of a turn without the callback.
  abbrev pub quiet : Ptr → Ptr → Timer.Action ev (Unit {0})
  quiet cb' args s = ok tt s

  -- The loop's turn is `deliver` and then the call of the callback with its argument.
  pub fire-deliver :
      (client : Ptr → Ptr → Timer.Action ev (Unit {0})) (now : ℕ) (s : Timer.Store ev.W)
      → null < cb
      → TimerWaiting s
      → Timer.fire ev client now s ≡ and_then (Timer.fire ev quiet now s) (λ _. client cb self)
  unfolding Timer.fire Timer.on_timer
  fire-deliver client now s real (timer_waiting t w active handler once c a) =
      let callable : is_null t.cb ≡ false = ap is_null c ∙ (ground arith) in
      rw (handler, callable, c, a)

  pub timer_start :
      (a : ℕ × ℕ) (s : Timer.Store ev.W)
      → TimerIdle s
      → Returns (λ _ u. TimerWaiting u) (Timer.start ev a.0 a.1 cb self s)
  timer_start a s (timer_idle t w resting handler quiet_w) =
      let begun = start_lem ev a.0 a.1 cb self t w quiet_w in
      rw begun.0 (
        returns (
          timer_waiting (started ev a.1 cb self t) (armed ev a.0 a.1 w) refl (begun.4 ∙ handler)
            begun.3 refl refl))

  pub timer_deliver :
      (now : ℕ) (s : Timer.Store ev.W)
      → TimerWaiting s
      → Returns (λ _ u. TimerIdle u) (Timer.fire ev quiet now s)
  unfolding Timer.fire Timer.on_timer
  timer_deliver now s (timer_waiting t w active handler once c a) =
      let over =
        timer_idle (record t { active = false }) (ev.expire now w) refl
          (ev.cb-expire now w ∙ handler) (ev.active-expire now w ∙ ap (ltb 0) once) in
      elim (Bool-cases (is_null t.cb)) [
        | inl e ↦ rw (handler, e) (returns over)
        | inr e ↦ rw (handler, e) (returns over)
      ]

  pub timer_free :
      (s : Timer.Store ev.W) → TimerIdle s → Returns (λ _ u. TimerFreed u) (Timer.free ev s)
  unfolding Timer.free
  timer_free s (timer_idle t w resting handler quiet_w) = rw resting (returns (timer_freed w))

  pub timer_free_waiting : (s : Timer.Store ev.W) → TimerWaiting s → Timer.free ev s ≡ err aborted
  unfolding Timer.free
  timer_free_waiting s (timer_waiting t w active handler once c a) = rw active

  -- A start has the loop's time and the interval, a turn of the loop its time.
  abbrev pub timer_impl : Impl
  timer_impl = record {
    I = Timer.Store ev.W;
    Arg = ℕ × ℕ;
    When = ℕ;
    counted = true;
    start = λ a. Timer.start ev a.0 a.1 cb self;
    deliver = λ now. Timer.fire ev quiet now;
    free = Timer.free ev;
    IsIdle = TimerIdle;
    IsWaiting = TimerWaiting;
    IsFreed = TimerFreed;
    start-IsWaiting = timer_start;
    deliver-IsIdle = timer_deliver;
    free-Returns = timer_free;
    free_waiting = timer_free_waiting;
  }

-- The state of the client is not used.
module _ (ev : Watchers Child.Handler ℕ) (cb self : Ptr) where
  pub data ChildIdle : Child.Store ev.W (Unit {0}) → Type 0 where
    child_idle :
        (c : ChildWatcher) (w : ev.W) (r : Option Report)
        → ev.is_active w ≡ false
        → ev.is_pending w ≡ false
        → ChildIdle (watching c w r tt)

  pub data ChildWaiting : Child.Store ev.W (Unit {0}) → Type 0 where
    child_waiting :
        (w : ev.W) (r : Option Report)
        → ev.is_active w ≡ true
        → ChildWaiting (watching (record { cb = cb; args = self }) w r tt)

  pub data ChildFreed : Child.Store ev.W (Unit {0}) → Type 0 where
    child_freed :
        (r : Option Report)
        → ChildFreed (record { childw = none; event = none; report = r; client_state = tt })

  abbrev pub no_client : Ptr → Ptr → Child.Action ev (Unit {0}) (Unit {0})
  no_client cb' args s = ok tt s

  pub fire_child-deliver :
      (client : Ptr → Ptr → Child.Action ev (Unit {0}) (Unit {0})) (rep : Report)
      (s : Child.Store ev.W (Unit {0}))
      → null < cb
      → ChildWaiting s
      → Child.fire ev (Unit {0}) client rep s
        ≡ and_then (Child.fire ev (Unit {0}) no_client rep s) (λ _. client cb self)
  unfolding Child.fire Child.on_child
  fire_child-deliver client rep s real (child_waiting w r active) =
      let callable : is_null cb ≡ false = ground arith in rw callable

  pub child_start :
      (pid : ℕ) (s : Child.Store ev.W (Unit {0}))
      → ChildIdle s
      → Returns (λ _ u. ChildWaiting u) (Child.start ev (Unit {0}) pid cb self s)
  child_start pid s (child_idle c w r resting calm) =
      rw (Watching.start-ok ev (Unit {0}) pid cb self c w r tt resting calm)
        (returns (child_waiting (Watching.started ev pid w) r (ev.active-start (ev.set pid w))))

  pub child_deliver :
      (rep : Report) (s : Child.Store ev.W (Unit {0}))
      → ChildWaiting s
      → Returns (λ _ u. ChildIdle u) (Child.fire ev (Unit {0}) no_client rep s)
  unfolding Child.fire Child.on_child
  child_deliver rep s (child_waiting w r active) =
      let over =
        child_idle (record { cb = cb; args = self }) (ev.stop w) (some rep) (ev.active-stop w)
          (ev.pending-stop w) in
      elim (Bool-cases (is_null cb)) [ inl e ↦ rw e (returns over) | inr e ↦ rw e (returns over) ]

  pub child_free :
      (s : Child.Store ev.W (Unit {0}))
      → ChildIdle s
      → Returns (λ _ u. ChildFreed u) (Child.free ev (Unit {0}) s)
  unfolding Child.free
  child_free s (child_idle c w r resting calm) = rw (resting, calm) (returns (child_freed r))

  pub child_free_waiting :
      (s : Child.Store ev.W (Unit {0})) → ChildWaiting s → Child.free ev (Unit {0}) s ≡ err aborted
  unfolding Child.free
  child_free_waiting s (child_waiting w r active) = rw active

  -- A start has the pid, a turn of the loop the report.
  abbrev pub child_impl : Impl
  child_impl = record {
    I = Child.Store ev.W (Unit {0});
    Arg = ℕ;
    When = Report;
    counted = false;
    start = λ pid. Child.start ev (Unit {0}) pid cb self;
    deliver = λ rep. Child.fire ev (Unit {0}) no_client rep;
    free = Child.free ev (Unit {0});
    IsIdle = ChildIdle;
    IsWaiting = ChildWaiting;
    IsFreed = ChildFreed;
    start-IsWaiting = child_start;
    deliver-IsIdle = child_deliver;
    free-Returns = child_free;
    free_waiting = child_free_waiting;
  }
