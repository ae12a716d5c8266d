-- ===== src/Backup/Sending.antt =====
-- What the poll of a job says of the sending.
use manatee.Base.{
  Text, ◌≡◌, ◌≢◌, ◌⊎◌, inl, inr, List, [], ◌∷◌, Option-cases, none, some, true, arith,
}
use manatee.Backup.{
  listing, get_latest_snapshot, yes_done, Sender, Event, exit, listed, socket_error, step, run,
  poll,
}
use manatee.Zfs.{done}

abbrev pub Exited : List Event → Type 0
Exited [] = ⊥
Exited (e ∷ events) = (e ≡ exit 0) ⊎ Exited events

step-done :
    (e : Event) (s t : Sender)
    → step e s ≡ some t
    → t.job.done_flag ≡ yes_done
    → (s.job.done_flag ≡ yes_done) ⊎ (e ≡ exit 0)
unfolding step
step-done e s t h k = ground arith

run-Exited :
    (events : List Event) (s t : Sender)
    → run events s ≡ some t
    → t.job.done_flag ≡ yes_done
    → (s.job.done_flag ≡ yes_done) ⊎ Exited events
unfolding run
run-Exited [] s t h k = ground arith
run-Exited (e ∷ events) s t h k = elim (Option-cases (step e s)) [
  | inl p ↦ absurd (ground arith)
  | inr (u, p) ↦ ground (arith, run-Exited events u t, step-done e s u p)
]

-- A poll finds the job done only if `zfs send` has exited with code 0, when the job was not done to
-- begin with.
pub poll-done :
    (events : List Event) (s t : Sender)
    → s.job.done_flag ≢ yes_done
    → run events s ≡ some t
    → poll t ≡ done
    → Exited events
unfolding poll
poll-done events s t n h k = ground (arith, run-Exited events s t h)

step-error :
    (e : Event) (s t : Sender) (m : Text)
    → s.reported ≡ true
    → s.job.error ≡ some m
    → step e s ≡ some t
    → (t.reported ≡ true) × (t.job.error ≡ some m)
unfolding step
step-error e s t m r j h = ground arith

-- Once the failure of a job has been reported, every later poll answers with that error, also where
-- `zfs send` exits with code 0 afterwards.
pub run-error_stays :
    (events : List Event) (s t : Sender) (m : Text)
    → s.reported ≡ true
    → s.job.error ≡ some m
    → run events s ≡ some t
    → poll t ≡ poll s
unfolding run poll
run-error_stays [] s t m r j h = ground arith
run-error_stays (e ∷ events) s t m r j h = elim (Option-cases (step e s)) [
  | inl p ↦ absurd (ground arith)
  | inr (u, p) ↦
      let (r', j') = step-error e s u m r j p in ground (arith, run-error_stays events u t m r' j')
]

-- If there is a snapshot to send but the receiver does not accept the connection, the handler of the
-- error throws.
refused_throws :
    (lines : List Text) (snapshot e : Text) (s : Sender)
    → s.phase ≡ listing
    → get_latest_snapshot lines ≡ some snapshot
    → run (listed lines ∷ socket_error e ∷ []) s ≡ none
unfolding run step
refused_throws lines snapshot e s h k = ground arith
