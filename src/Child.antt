-- ===== src/Child.antt =====
-- src/childprocess.hxx and src/childprocess.cxx: forking, and one watcher of a child process with
-- its `ev_child`. libev's child watchers are a parameter; what they are set to is the pid.
pub mod Status
pub mod Watching
pub mod Reuse
mod Examples
use iojxd.Prelude.{
  ℕ, zero, suc, ℤ, pos, negsuc, Bool, true, false, not, Option, none, some, ◌==◌, ◌&&◌, ◌||◌,
  if◌then◌else◌,
}
use iojxd.Memory.{
  Ptr, null, Cmd, Fault, ok, err, aborted, bad_access, pure, fail, ◌>>=◌, ◌>>◌, assert, is_null,
}
use iojxd.Ev.{Watchers}

-- The function that the source gives to the watcher.
pub data Handler : Type 0 where
  childw_cb : Handler

-- `struct ixut_child_watcher`, without its pointers to the event and the context.
pub record ChildWatcher : Type 0 where
  pub cb : Ptr
  pub args : Ptr

-- `rpid` and `rstatus` of the `ev_child`.
pub record Report : Type 0 where
  pub rpid : ℕ
  pub rstatus : ℕ

-- One watcher, `none` once it is freed, its `ev_child`, likewise, and the state of the client. The
-- report is `none` while its fields are indeterminate.
pub record Store (W C : Type 0) : Type 0 where
  pub childw : Option ChildWatcher
  pub event : Option W
  pub report : Option Report
  pub client_state : C

-- `ixut_fork`: `pid` is what `fork` returned, and `cb` the callback with its arguments.
unfoldable pub fork : {S : Type 0} → ℤ → Cmd S (Unit {0}) → Cmd S ℤ
fork (negsuc n) cb = pure (negsuc n)
fork (pos zero) cb = do cb; fail aborted
fork (pos (suc n)) cb = pure (pos (suc n))

module _ (ev : Watchers Handler ℕ) (C : Type 0) where
  abbrev pub Action : Type 0 → Type 0
  Action A = Cmd (Store ev.W C) A

  -- `childw->…` and `childw->event->…`, through pointers that may dangle.
  abbrev pub get : Action ChildWatcher
  get s = elim s.childw [ none ↦ err bad_access | some c ↦ ok c s ]

  abbrev pub get_event : Action ev.W
  get_event s = elim s.event [ none ↦ err bad_access | some w ↦ ok w s ]

  abbrev pub set_event : ev.W → Action (Unit {0})
  set_event w s = ok tt (record s { event = some w })

  unfoldable pub create : C → Store ev.W C
  create c = record {
    childw = some (record { cb = null; args = null });
    event = some (ev.init childw_cb ev.blank);
    report = none;
    client_state = c;
  }

  unfoldable pub free : Action (Unit {0})
  free = do
    get
    w ← get_event
    assert (not (ev.is_active w))
    assert (not (ev.is_pending w))
    λ s. ok tt (record s { childw = none; event = none })

  unfoldable pub start : ℕ → Ptr → Ptr → Action (Unit {0})
  start pid cb args = do
    get
    w ← get_event
    assert (not (ev.is_active w))
    assert (not (ev.is_pending w))
    set_event (ev.set pid w)
    λ s. ok tt (record s { childw = some (record { cb = cb; args = args }) })
    w ← get_event
    set_event (ev.start w)

  -- `ixut_childw_cb`. A watcher has one `ev_child`, so the assertion on it holds.
  unfoldable pub on_child : (Ptr → Ptr → Action (Unit {0})) → Action (Unit {0})
  on_child client = do
    c ← get
    w ← get_event
    set_event (ev.stop w)
    if is_null c.cb then pure tt else client c.cb c.args

  -- What libev does at a watcher of the child: it stores the report and calls back.
  unfoldable pub fire : (Ptr → Ptr → Action (Unit {0})) → Report → Action (Unit {0})
  unfolding on_child
  fire client r s = on_child client (record s { report = some r })

  -- libev's test on the watchers of child processes when a child is reported; 0 stands for any
  -- child.
  abbrev covers : ℕ → Option ℕ → Bool
  covers pid none = false
  covers pid (some watched) = (watched == pid) || (watched == 0)

  abbrev pub watches : ℕ → ev.W → Bool
  watches pid w = ev.is_active w && covers pid (ev.cfg w)

  -- The loop's turn when a child has changed its state: libev passes over a watcher that is not
  -- active or that watches another child.
  unfoldable pub reported : (Ptr → Ptr → Action (Unit {0})) → Report → Action (Unit {0})
  unfolding fire
  reported client r s = elim s.event [
    | none ↦ ok tt s
    | some w ↦ if watches r.rpid w then fire client r s else ok tt s
  ]

  abbrev pub get_report : Action Report
  get_report s = elim s.report [ none ↦ err bad_access | some r ↦ ok r s ]

  unfoldable pub getpid : Action ℕ
  getpid = do get; get_event; r ← get_report; pure r.rpid
