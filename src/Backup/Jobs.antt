-- ===== src/Backup/Jobs.antt =====
-- The queue of jobs.
use manatee.Base.{
  Text, text_eq, text_eq_iff, ◌≡◌, refl, ◌≢◌, List, [], ◌∷◌, Option-cases, none, some, true, false,
  arith, inl, inr,
}
use manatee.Backup.{Job, no, push, pop, get, check_backup, post_backup}
use manatee.Zfs.{pending}

-- The queue is last in, first out: what was pushed last is popped first.
pub pop-push : (job : Job) (queue : List Job) → pop (push job queue) ≡ (some job, queue)
unfolding pop push
pop-push job [] = refl
pop-push job (first ∷ []) = refl
pop-push job (first ∷ next ∷ queue) = rw (pop-push job (next ∷ queue)) refl

get-push :
    (job : Job) (uuid : Text) (queue : List Job)
    → get uuid (push job queue) ≡ (elim (get uuid queue) [
      | some found ↦ some found
      | none ↦ elim (text_eq job.uuid uuid) [ true ↦ some job | false ↦ none ]
    ])
unfolding get push
get-push job uuid [] = ground arith
get-push job uuid (first ∷ queue) = ground (arith, get-push job uuid queue)

abbrev new_job : Text → Text → Text → Text → Job
new_job uuid host dataset port = record {
  uuid = uuid;
  host = host;
  port = port;
  dataset = dataset;
  done_flag = no;
  error = none;
}

post_backup-push :
    (uuid host dataset port : Text) (queue after : List Job)
    → post_backup uuid host dataset port queue ≡ some after
    → after ≡ push (new_job uuid host dataset port) queue
unfolding post_backup
post_backup-push uuid host dataset port queue after h = ground arith

-- A request that is accepted under a new uuid is pending at once, and the answer to a poll of any job
-- that is there already stays as it is.
post_backup-checks :
    (uuid host dataset port : Text) (queue after : List Job)
    → post_backup uuid host dataset port queue ≡ some after
    → get uuid queue ≡ none
    → (check_backup uuid after ≡ pending)
      × ((other : Text)
          → get other queue ≢ none
          → check_backup other after ≡ check_backup other queue)
unfolding post_backup check_backup
post_backup-checks uuid host dataset port queue after h f =
    let job = new_job uuid host dataset port in
    let e = post_backup-push uuid host dataset port queue after h in
    (
      rw (check_backup, e, get-push job uuid queue, f) (ground (arith, text_eq_iff uuid uuid)),
      λ other n. elim (Option-cases (get other queue)) [
        | inl p ↦ absurd (n p)
        | inr (found, p) ↦ rw (check_backup, e, get-push job other queue, p) refl
      ],
    )
