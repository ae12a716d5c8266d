-- ===== src/Zookeeper/Watch.antt =====
-- lib/zookeeperMgr.js: `watch`, which keeps a watch on a node or a directory of ZooKeeper and reads it
-- again whenever the watch fires.
pub mod Alive
mod Tests
use manatee.Base.{
  ℕ, zero, suc, ◌+◌, Text, List, [], ◌∷◌, Option, none, some, Bool, true, false, if◌then◌else◌,
}

-- What `getFunc` calls back with. `D` is what is read: the data, or the children.
pub data Answer (D : Type 0) : Type 0 where
  got : D → ℕ → Answer D
  no_node : Answer D
  failed : Text → Answer D

-- What `zk.exists` calls back with.
pub data Existence : Type 0 where
  there absent : Existence
  unknown : Text → Existence

-- What the callback of `watch` is called with: an error, nothing, or what was read with its version.
pub data Told (D : Type 0) : Type 0 where
  an_error : Text → Told D
  nothing : Told D
  a_read : D → ℕ → Told D

-- `closed` is the manager's; `called` is that of `once`. The numbers are of the requests and timers that
-- have not come back: reads that set a watch, reads that do not, tests for the node, timers; and of the
-- watches that ZooKeeper holds. `told` and `changes` are the calls of `cb` and `wat`, newest first.
pub record Watch (D : Type 0) : Type 0 where
  pub closed : Bool
  pub called : Bool
  pub gets : ℕ
  pub plain_gets : ℕ
  pub tests : ℕ
  pub timers : ℕ
  pub watches : ℕ
  pub told : List (Told D)
  pub changes : List (D × ℕ)

-- What comes back, or happens.
pub data Event (D : Type 0) : Type 0 where
  watch_fires timer_ends closes : Event D
  get_returns plain_get_returns : Answer D → Event D
  test_returns : Existence → Event D

module _ {D : Type 0} where
  -- `registerWatch`
  unfoldable pub register_watch : Watch D → Watch D
  register_watch w = if w.closed then w else record w { gets = suc w.gets }

  -- `cb`, which `once` calls only the first time.
  unfoldable pub call_back : Told D → Watch D → Watch D
  call_back t w = if w.called then w else record w { called = true; told = t ∷ w.told }

  tell_or_pass : Told D → Watch D → Watch D → Watch D
  unfolding call_back
  tell_or_pass t w later = if w.called then later else call_back t w

  -- `onGet`
  unfoldable pub on_get : Answer D → Watch D → Watch D
  unfolding tell_or_pass
  on_get no_node w = if w.closed then w else record w { tests = suc w.tests }
  on_get (failed e) w =
      if w.closed then w else tell_or_pass (an_error e) w (record w { timers = suc w.timers })
  on_get (got d version) w =
      if w.closed
      then w
      else tell_or_pass (a_read d version) w (record w { changes = (d, version) ∷ w.changes })

  -- The callback of `zk.exists`. The test leaves a watch unless it fails.
  unfoldable pub on_test : Existence → Watch D → Watch D
  unfolding call_back
  on_test there w =
      call_back nothing (record w { plain_gets = suc w.plain_gets; watches = suc w.watches })
  on_test absent w = call_back nothing (record w { watches = suc w.watches })
  on_test (unknown e) w = call_back (an_error e) w

  -- A read that finds the node leaves the watch that it was given.
  leave_watch : Answer D → Watch D → Watch D
  leave_watch (got d version) w = record w { watches = suc w.watches }
  leave_watch _ w = w

  come_back : ℕ → (ℕ → Watch D) → Option (Watch D)
  come_back zero f = none
  come_back (suc n) f = some (f n)

  -- A step, if the event can happen.
  unfoldable pub step : Event D → Watch D → Option (Watch D)
  unfolding come_back leave_watch register_watch on_get on_test
  step watch_fires w = come_back w.watches (λ n. register_watch (record w { watches = n }))
  step timer_ends w = come_back w.timers (λ n. register_watch (record w { timers = n }))
  step closes w = some (record w { closed = true })
  step (get_returns a) w = come_back w.gets (λ n. on_get a (leave_watch a (record w { gets = n })))
  step (plain_get_returns a) w =
      come_back w.plain_gets (λ n. on_get a (record w { plain_gets = n }))
  step (test_returns x) w = come_back w.tests (λ n. on_test x (record w { tests = n }))

  -- An event that cannot happen changes nothing.
  unfoldable pub run : List (Event D) → Watch D → Watch D
  run [] w = w
  run (e ∷ events) w = elim (step e w) [ none ↦ run events w | some v ↦ run events v ]

  -- `watch`, just called.
  abbrev pub started : Watch D
  started = record {
    closed = false;
    called = false;
    gets = 1;
    plain_gets = 0;
    tests = 0;
    timers = 0;
    watches = 0;
    told = [];
    changes = [];
  }
