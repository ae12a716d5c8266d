-- ===== src/Backup/Polling.antt =====
-- A restore on one peer against the sender on another: the client polls the job between the events that
-- the sender meets.
use manatee.Base.{
  ◌≡◌, refl, ◌≢◌, ◌⊎◌, inl, inr, List, [], ◌∷◌, Option, Option-cases, none, some, arith, ok,
}
use manatee.Backup.{Sender, Event, yes_done, run, poll}
use manatee.Backup.Sending.{Exited, poll-done}
use manatee.Zfs.{JobReply, done, unreachable, job_failed, pending, poll_restore_completion}

prepend : JobReply → Option (List JobReply) → Option (List JobReply)
prepend reply none = none
prepend reply (some replies) = some (reply ∷ replies)

-- The replies that the client gets, by the events between two polls, unless the sender throws.
unfoldable pub replies_during : List (List Event) → Sender → Option (List JobReply)
unfolding prepend
replies_during [] s = some []
replies_during (events ∷ batches) s = elim (run events s) [
  | none ↦ none
  | some t ↦ prepend (poll t) (replies_during batches t)
]

abbrev pub SomeExited : List (List Event) → Type 0
SomeExited [] = ⊥
SomeExited (events ∷ batches) = Exited events ⊎ SomeExited batches

poll-final :
    (reply : JobReply) (replies : List JobReply)
    → poll_restore_completion (reply ∷ replies) ≡ ok tt
    → (reply ≡ done) ⊎ ((reply ≡ pending) × (poll_restore_completion replies ≡ ok tt))
unfolding poll_restore_completion
poll-final done replies h = inl refl
poll-final pending replies h = inr (refl, h)
poll-final (unreachable e) replies h = cc
poll-final job_failed replies h = cc

prepend-some :
    (reply : JobReply) (r : Option (List JobReply)) (replies : List JobReply)
    → prepend reply r ≡ some replies
    → (rest : List JobReply) × (r ≡ some rest) × (replies ≡ reply ∷ rest)
unfolding prepend
prepend-some reply none replies h = absurd (ground arith)
prepend-some reply (some rest) replies h = (rest, refl, ground arith)

not_yet : (t : Sender) → poll t ≡ pending → t.job.done_flag ≢ yes_done
unfolding poll
not_yet t h k = ground arith

no_reply : {replies : List JobReply} → poll_restore_completion replies ≡ ok tt → replies ≢ []
unfolding poll_restore_completion
no_reply k e = ground arith

-- If the poll of a restore succeeds, on the replies that it gets while the job runs, then `zfs send` has
-- exited with code 0 on the other side, however polls and events interleave.
pub completion-Exited :
    (batches : List (List Event)) (s : Sender) (replies : List JobReply)
    → s.job.done_flag ≢ yes_done
    → replies_during batches s ≡ some replies
    → poll_restore_completion replies ≡ ok tt
    → SomeExited batches
unfolding replies_during
completion-Exited [] s replies n h k = absurd (no_reply k (ground arith))
completion-Exited (events ∷ batches) s replies n h k = elim (Option-cases (run events s)) [
  | inl p ↦ absurd (ground arith)
  | inr (t, p) ↦
      let (rest, r, e) = prepend-some (poll t) (replies_during batches t) replies (ground arith) in
      elim (poll-final (poll t) rest (rw e at k)) [
        | inl d ↦ inl (poll-done events s t n p d)
        | inr (w, more) ↦ inr (completion-Exited batches t rest (not_yet t w) r more)
      ]
]
