-- ===== src/Zookeeper/Watch/Alive.antt =====
-- lib/zookeeperMgr.js: whether a watch goes on watching.
use manatee.Base.{
  ℕ, zero, suc, ◌+◌, ◌<◌, Text, ◌≡◌, refl, subst, ◌⊎◌, inl, inr, List, [], ◌∷◌, Option-cases, some,
  Bool-cases, true, false, arith,
}
use manatee.Zookeeper.Watch.{
  Answer, got, no_node, failed, Existence, there, absent, unknown, Told, an_error, Watch, Event,
  watch_fires, timer_ends, closes, get_returns, plain_get_returns, test_returns, register_watch,
  call_back, on_get, on_test, step, run, come_back, leave_watch, tell_or_pass,
}

module _ {D : Type 0} where
  -- The caller was called once, with that, or not yet.
  abbrev pub CalledOnce : Watch D → Type 0
  CalledOnce w =
      ((w.called ≡ false) × (w.told ≡ []))
      ⊎ ((w.called ≡ true) × ((t : Told D) × (w.told ≡ t ∷ [])))

  abbrev pub ToldError : Watch D → Type 0
  ToldError w = (e : Text) × (w.told ≡ an_error e ∷ [])

  -- The manager is closed, or a watch is set, or about to be, or the caller was told of an error; and the
  -- caller was called once at most.
  abbrev pub Alive : Watch D → Type 0
  Alive w =
      ((w.closed ≡ true) ⊎ ((0 < w.watches + (w.gets + (w.tests + w.timers))) ⊎ ToldError w))
      × CalledOnce w

  -- The test for the node does not fail.
  abbrev pub IsSafe : Event D → Type 0
  IsSafe (test_returns (unknown e)) = ⊥
  IsSafe _ = Unit

  abbrev pub AllSafe : List (Event D) → Type 0
  AllSafe [] = Unit
  AllSafe (e ∷ events) = IsSafe e × AllSafe events

  come_back-some :
      (n : ℕ) (f : ℕ → Watch D) (v : Watch D)
      → come_back n f ≡ some v
      → (m : ℕ) × (n ≡ suc m) × (f m ≡ v)
  unfolding come_back
  come_back-some zero f v h = cc
  come_back-some (suc n) f v h = (n, refl, ground arith)

  register_watch-Alive : (w : Watch D) → CalledOnce w → Alive (register_watch w)
  unfolding register_watch
  register_watch-Alive w o = ground (arith, Bool-cases w.closed)

  on_get-keeps_Alive : (x : Answer D) (w : Watch D) → Alive w → Alive (on_get x w)
  unfolding on_get tell_or_pass call_back
  on_get-keeps_Alive (got d version) w (a, o) =
      ground (arith, Bool-cases w.closed, Bool-cases w.called)
  on_get-keeps_Alive no_node w (a, o) = ground (arith, Bool-cases w.closed)
  on_get-keeps_Alive (failed e) w (a, o) = ground (arith, Bool-cases w.closed, Bool-cases w.called)

  on_get-Alive : (x : Answer D) (w : Watch D) → CalledOnce w → Alive (on_get x (leave_watch x w))
  unfolding leave_watch on_get tell_or_pass call_back
  on_get-Alive (got d version) w o =
      on_get-keeps_Alive (got d version) (record w { watches = suc w.watches })
        (inr (inl (omega arith)), o)
  on_get-Alive no_node w o = ground (arith, Bool-cases w.closed)
  on_get-Alive (failed e) w o = elim (Bool-cases w.closed) [
    | inl c ↦ (inl (ground arith), ground arith)
    | inr c ↦ elim o [
      | inl (k, n) ↦ (inr (inr (e, ground arith)), inr (ground arith, (an_error e, ground arith)))
      | inr (k, (t, n)) ↦ (inr (inl (ground arith)), inr (ground arith, (t, ground arith)))
    ]
  ]

  on_test-Alive :
      (x : Existence) (w : Watch D) → IsSafe (test_returns x) → CalledOnce w → Alive (on_test x w)
  unfolding on_test call_back
  on_test-Alive there w s o = ground (arith, Bool-cases w.called)
  on_test-Alive absent w s o = ground (arith, Bool-cases w.called)
  on_test-Alive (unknown e) w s o = absurd s

  step-Alive : (e : Event D) (w v : Watch D) → IsSafe e → Alive w → step e w ≡ some v → Alive v
  unfolding step
  step-Alive watch_fires w v s (a, o) h =
      let (n, p, q) =
        come_back-some w.watches (λ n. register_watch (record w { watches = n })) v h in
      subst Alive q (register_watch-Alive (record w { watches = n }) o)
  step-Alive timer_ends w v s (a, o) h =
      let (n, p, q) = come_back-some w.timers (λ n. register_watch (record w { timers = n })) v h in
      subst Alive q (register_watch-Alive (record w { timers = n }) o)
  step-Alive closes w v s (a, o) h = ground arith
  step-Alive (get_returns x) w v s (a, o) h =
      let (n, p, q) =
        come_back-some w.gets (λ n. on_get x (leave_watch x (record w { gets = n }))) v h in
      subst Alive q (on_get-Alive x (record w { gets = n }) o)
  step-Alive (plain_get_returns x) w v s (a, o) h =
      let (n, p, q) =
        come_back-some w.plain_gets (λ n. on_get x (record w { plain_gets = n })) v h in
      subst Alive q (on_get-keeps_Alive x (record w { plain_gets = n }) (a, o))
  step-Alive (test_returns x) w v s (a, o) h =
      let (n, p, q) = come_back-some w.tests (λ n. on_test x (record w { tests = n })) v h in
      subst Alive q (on_test-Alive x (record w { tests = n }) s o)

  -- A watch that goes on still does after any run in which no test for the node fails: until the
  -- manager is closed, or the caller is told of an error, a watch is set, or a
  -- read, a test or a timer that leads to one has still to come back. The caller is called once at
  -- most.
  pub watch-Alive :
      (events : List (Event D)) (w : Watch D) → AllSafe events → Alive w → Alive (run events w)
  unfolding run
  watch-Alive [] w s a = a
  watch-Alive (e ∷ events) w (s, more) a = elim (Option-cases (step e w)) [
    | inl n ↦ rw (run, n) (watch-Alive events w more a)
    | inr (v, n) ↦ rw (run, n) (watch-Alive events v more (step-Alive e w v s a n))
  ]
