-- ===== src/Postgres/Repl/Progress.antt =====
-- What the replication check remembers of the standby's progress, and when it gives up.
use manatee.Base.{
  ℕ, ◌+◌, ◌<◌, Text, ◌≡◌, refl, ◌⊎◌, inl, inr, List, [], ◌∷◌, ◌++◌, Option, none, some, false,
  arith, All, Option-cases,
}
use manatee.Postgres.Repl.{
  Lsn, Check, Poll, Event, polled, cancelled, going, timed_out, Status, unknown, caught_up, behind,
  check_repl_status, note_progress, judge, handle_status, step, run,
}
use manatee.Postgres.Repl.Verdicts.{Verdict-cases}

module _ (lsn : Lsn) (replication_timeout : ℕ) where
  -- The position is not above the one that is remembered.
  abbrev pub AtMost : Text → Option Text → Type 0
  AtMost loc none = ⊥
  AtMost loc (some high) = lsn.above loc high ≡ false

  abbrev pub ReportedAtMost : Status → Option Text → Type 0
  ReportedAtMost (behind loc) high = AtMost loc high
  ReportedAtMost _ high = Unit

  -- Any position that the event reports is not above the one that is remembered.
  abbrev pub Seen : Option Text → Event → Type 0
  Seen high cancelled = Unit
  Seen high (polled p) = ReportedAtMost (check_repl_status lsn replication_timeout p.reply) high

  note_progress-AtMost :
      (loc new : Text) (now : ℕ) (c : Check)
      → AtMost loc c.replay_loc
      → AtMost loc (note_progress lsn replication_timeout new now c).replay_loc
  unfolding note_progress
  note_progress-AtMost loc new now c h = elim (Option-cases c.replay_loc) [
    | inl p ↦ absurd (ground arith)
    | inr (old, p) ↦ ground (arith, lsn.above_cotrans loc old new, lsn.above_asym new old)
  ]

  note_progress_self :
      (new : Text) (now : ℕ) (c : Check)
      → AtMost new (note_progress lsn replication_timeout new now c).replay_loc
  unfolding note_progress
  note_progress_self new now c = ground (arith, lsn.above_irrefl new)

  handle_status-AtMost :
      (status : Status) (p : Poll) (c d : Check) (loc : Text)
      → handle_status lsn replication_timeout status p c ≡ going d
      → AtMost loc c.replay_loc
      → AtMost loc d.replay_loc
  unfolding handle_status
  handle_status-AtMost (unknown e) p c d loc h k = ground arith
  handle_status-AtMost (caught_up new) p c d loc h k = absurd (ground arith)
  handle_status-AtMost (behind new) p c d loc h k =
      ground (arith, note_progress-AtMost loc new p.reset_at c k)

  handle_status-Seen :
      (status : Status) (p : Poll) (c d : Check)
      → handle_status lsn replication_timeout status p c ≡ going d
      → ReportedAtMost status d.replay_loc
  unfolding handle_status
  handle_status-Seen (unknown e) p c d h = tt
  handle_status-Seen (caught_up new) p c d h = tt
  handle_status-Seen (behind new) p c d h = ground (arith, note_progress_self new p.reset_at c)

  step-AtMost :
      (e : Event) (c d : Check) (loc : Text)
      → step lsn replication_timeout e c ≡ going d
      → AtMost loc c.replay_loc
      → AtMost loc d.replay_loc
  unfolding step
  step-AtMost (polled p) c d loc h k =
      handle_status-AtMost (check_repl_status lsn replication_timeout p.reply) p c d loc h k
  step-AtMost cancelled c d loc h k = absurd (ground arith)

  step-Seen :
      (e : Event) (c d : Check) → step lsn replication_timeout e c ≡ going d → Seen d.replay_loc e
  unfolding step
  step-Seen (polled p) c d h =
      handle_status-Seen (check_repl_status lsn replication_timeout p.reply) p c d h
  step-Seen cancelled c d h = tt

  run-AtMost :
      (events : List Event) (c d : Check) (loc : Text)
      → run lsn replication_timeout events c ≡ going d
      → AtMost loc c.replay_loc
      → AtMost loc d.replay_loc
  unfolding run
  run-AtMost [] c d loc h k = ground arith
  run-AtMost (e ∷ events) c d loc h k = elim (Verdict-cases (step lsn replication_timeout e c)) [
    | inl (b, p) ↦ run-AtMost events b d loc (ground arith) (step-AtMost e c b loc p k)
    | inr (inl p) ↦ absurd (ground arith)
    | inr (inr p) ↦ absurd (ground arith)
  ]

  reported-AtMost :
      (status : Status) (b d : Check)
      → ((loc : Text) → AtMost loc b.replay_loc → AtMost loc d.replay_loc)
      → ReportedAtMost status b.replay_loc
      → ReportedAtMost status d.replay_loc
  reported-AtMost (unknown e) b d f r = tt
  reported-AtMost (caught_up loc) b d f r = tt
  reported-AtMost (behind loc) b d f r = f loc r

  Seen-AtMost :
      (e : Event) (b d : Check)
      → ((loc : Text) → AtMost loc b.replay_loc → AtMost loc d.replay_loc)
      → Seen b.replay_loc e
      → Seen d.replay_loc e
  Seen-AtMost (polled p) b d f r =
      reported-AtMost (check_repl_status lsn replication_timeout p.reply) b d f r
  Seen-AtMost cancelled b d f r = tt

  -- While the check goes on, the position that it remembers is the highest that any poll has reported,
  -- also where positions went back or polls failed in between.
  run-highest :
      (events : List Event) (c d : Check)
      → run lsn replication_timeout events c ≡ going d
      → All (Seen d.replay_loc) events
  unfolding run
  run-highest [] c d h = tt
  run-highest (e ∷ events) c d h = elim (Verdict-cases (step lsn replication_timeout e c)) [
    | inl (b, p) ↦ (
      Seen-AtMost e b d (λ loc. run-AtMost events b d loc (ground arith)) (step-Seen e c b p),
      run-highest events b d (ground arith),
    )
    | inr (inl p) ↦ absurd (ground arith)
    | inr (inr p) ↦ absurd (ground arith)
  ]

  -- Every poll brings a row in which the position is still `loc`.
  abbrev pub StuckAt : Text → Event → Type 0
  StuckAt loc cancelled = ⊥
  StuckAt loc (polled p) = check_repl_status lsn replication_timeout p.reply ≡ behind loc

  step-stuck :
      (loc : Text) (e : Event) (c : Check)
      → c.replay_loc ≡ some loc
      → StuckAt loc e
      → (step lsn replication_timeout e c ≡ going c)
        ⊎ (step lsn replication_timeout e c ≡ timed_out)
  unfolding step handle_status note_progress judge
  step-stuck loc (polled p) c h k = ground (arith, lsn.above_irrefl loc)
  step-stuck loc cancelled c h k = absurd k

  step-late :
      (loc : Text) (p : Poll) (c : Check)
      → c.replay_loc ≡ some loc
      → StuckAt loc (polled p)
      → c.start_time + replication_timeout < p.diff_at
      → step lsn replication_timeout (polled p) c ≡ timed_out
  unfolding step handle_status note_progress judge
  step-late loc p c h k l = ground (arith, lsn.above_irrefl loc)

  -- A standby that stays at one position is given up: once a poll finds it there more than the timeout
  -- after the position was reached, the check has ended with an error, however often it was polled.
  pub run-gives_up :
      (loc : Text) (events : List Event) (p : Poll) (c : Check)
      → c.replay_loc ≡ some loc
      → All (StuckAt loc) events
      → StuckAt loc (polled p)
      → c.start_time + replication_timeout < p.diff_at
      → run lsn replication_timeout (events ++ polled p ∷ []) c ≡ timed_out
  unfolding run
  run-gives_up loc [] p c h a k l = rw (run, step-late loc p c h k l) refl
  run-gives_up loc (e ∷ events) p c h a k l = elim (step-stuck loc e c h a.0) [
    | inl q ↦ rw (run, q) (run-gives_up loc events p c h a.1 k l)
    | inr q ↦ rw (run, q) refl
  ]
