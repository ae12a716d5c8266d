-- ===== src/Postgres/Repl/Verdicts.antt =====
-- When the replication check emits `done`, and when it emits an error.
use manatee.Base.{
  ℕ, ◌+◌, ◌≤◌, ◌≡◌, refl, ◌≢◌, ◌⊎◌, inl, inr, List, [], ◌∷◌, arith, All, Text, some, true,
  Option-cases,
}
use manatee.Postgres.Repl.{
  Lsn, Check, Event, polled, cancelled, Verdict, going, done, timed_out, Status, caught_up, unknown,
  behind, QueryReply, query_failed, no_row, row, Row, Poll, status_of, handle_status,
  check_repl_status, step, run,
}

pub Verdict-cases : (v : Verdict) → ((d : Check) × (v ≡ going d)) ⊎ ((v ≡ done) ⊎ (v ≡ timed_out))
Verdict-cases (going d) = inl (d, refl)
Verdict-cases done = inr (inl refl)
Verdict-cases timed_out = inr (inr refl)

Status-cases :
    (s : Status)
    → ((loc : Text) × (s ≡ caught_up loc))
      ⊎ (((e : Text) × (s ≡ unknown e)) ⊎ ((loc : Text) × (s ≡ behind loc)))
Status-cases (caught_up loc) = inl (loc, refl)
Status-cases (unknown e) = inr (inl (e, refl))
Status-cases (behind loc) = inr (inr (loc, refl))

module _ (lsn : Lsn) (replication_timeout : ℕ) where
  -- The row says, in two valid positions that are the same, that all that was sent was flushed.
  abbrev pub CaughtUp : QueryReply → Type 0
  CaughtUp (row r) =
      (sent : Text) × (flush : Text) × (r.sent_location ≡ some sent)
      × (r.flush_location ≡ some flush)
      × (lsn.valid sent ≡ true)
      × (lsn.valid flush ≡ true)
      × (lsn.same sent flush ≡ true)
  CaughtUp _ = ⊥

  -- The event cancels the check, or brings such a row.
  abbrev pub Ends : Event → Type 0
  Ends cancelled = Unit
  Ends (polled p) = CaughtUp p.reply

  abbrev pub SomeEnds : List Event → Type 0
  SomeEnds [] = ⊥
  SomeEnds (e ∷ events) = Ends e ⊎ SomeEnds events

  -- Only a row in which the two positions are the same counts as caught up.
  status_of-CaughtUp :
      (r : Row) (loc : Text)
      → status_of lsn replication_timeout r ≡ caught_up loc
      → CaughtUp (row r)
  status_of-CaughtUp r loc h = elim (Option-cases r.sent_location) [
    | inl e ↦ absurd (ground arith)
    | inr (sent, e) ↦ elim (Option-cases r.flush_location) [
      | inl f ↦ absurd (ground arith)
      | inr (flush, f) ↦ (sent, flush, e, f, ground arith, ground arith, ground arith)
    ]
  ]

  handle_status-done :
      (reply : QueryReply) (p : Poll) (c : Check)
      → handle_status lsn replication_timeout (check_repl_status lsn replication_timeout reply) p c
        ≡ done
      → CaughtUp reply
  unfolding handle_status check_repl_status
  handle_status-done (query_failed e) p c h = ground arith
  handle_status-done no_row p c h = ground arith
  handle_status-done (row r) p c h = elim (Status-cases (status_of lsn replication_timeout r)) [
    | inl (loc, e) ↦ status_of-CaughtUp r loc e
    | inr (inl (loc, e)) ↦ absurd (ground arith)
    | inr (inr (loc, e)) ↦ absurd (ground arith)
  ]

  step-done : (e : Event) (c : Check) → step lsn replication_timeout e c ≡ done → Ends e
  unfolding step
  step-done (polled p) c h = handle_status-done p.reply p c h
  step-done cancelled c h = tt

  -- The check emits `done` only after it was cancelled, or after a poll at which what was sent to the
  -- standby and what was flushed there were two valid positions that pg-lsn finds the same.
  pub run-done :
      (events : List Event) (c : Check)
      → run lsn replication_timeout events c ≡ done
      → SomeEnds events
  unfolding run
  run-done [] c h = cc
  run-done (e ∷ events) c h = elim (Verdict-cases (step lsn replication_timeout e c)) [
    | inl (d, p) ↦ inr (run-done events d (ground arith))
    | inr (inl p) ↦ inl (step-done e c p)
    | inr (inr p) ↦ absurd (ground arith)
  ]

  -- A poll that is handled within the timeout, counted from `start`.
  abbrev pub Within : ℕ → Event → Type 0
  Within start cancelled = Unit
  Within start (polled p) = (start ≤ p.reset_at) × (p.diff_at ≤ start + replication_timeout)

  step-Within :
      (start : ℕ) (e : Event) (c : Check)
      → Within start e
      → start ≤ c.start_time
      → step lsn replication_timeout e c ≢ timed_out
  unfolding step
  step-Within start (polled p) c w h = ground arith
  step-Within start cancelled c w h = ground arith

  step-later :
      (start : ℕ) (e : Event) (c d : Check)
      → Within start e
      → start ≤ c.start_time
      → step lsn replication_timeout e c ≡ going d
      → start ≤ d.start_time
  unfolding step
  step-later start (polled p) c d w h k = ground arith
  step-later start cancelled c d w h k = absurd (ground arith)

  -- The standby is not given up before the timeout has passed since the start of the check, whatever
  -- the polls bring, if the clock is not set back.
  run-patient :
      (start : ℕ) (events : List Event) (c : Check)
      → All (Within start) events
      → start ≤ c.start_time
      → run lsn replication_timeout events c ≢ timed_out
  unfolding run
  run-patient start [] c w h k = cc
  run-patient start (e ∷ events) c w h k = elim (Verdict-cases (step lsn replication_timeout e c)) [
    | inl (d, p) ↦ run-patient start events d w.1 (step-later start e c d w.0 h p) (ground arith)
    | inr (inl p) ↦ absurd (ground arith)
    | inr (inr p) ↦ step-Within start e c w.0 h p
  ]
