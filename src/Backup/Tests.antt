-- ===== src/Backup/Tests.antt =====
-- One job, from the request to a failure and to a success.
use manatee.Backup.Progress.{Progress, on_data}
use manatee.Backup.Progress.Printed.{header, progress_line, on_data-printed}
use manatee.Base.{
  arith, ok, Text, text_dec, codes, ◌≡◌, refl, ◌≢◌, List, [], ◌∷◌, none, some, true, false,
}
use manatee.Backup.{
  Job, no, yes_done, failed, listing, sending, Sender, Event, listed, connect, exit, push, pop, get,
  post_backup, get_latest_snapshot, is_backup, step, run, poll,
}
use manatee.Backup.Latest.{Descending}
use manatee.Base.Texts.{text_leb}
use manatee.Backup.Jobs.{pop-push}
use manatee.Snapshots.{is_timestamp}
use manatee.Backup.Polling.{SomeExited, replies_during, completion-Exited}
use manatee.Zfs.{done, pending, poll_restore_completion}

abbrev first_job : Job
first_job = record {
  uuid = codes "a";
  host = codes "10.0.0.2";
  port = codes "1234";
  dataset = codes "zones/pg";
  done_flag = no;
  error = none;
}

abbrev second_job : Job
second_job = record first_job { uuid = codes "b" }

last_popped : pop (push second_job (first_job ∷ [])) ≡ (some second_job, first_job ∷ [])
last_popped = pop-push second_job (first_job ∷ [])

accepted :
    post_backup (codes "b") (codes "10.0.0.2") (codes "zones/pg") (codes "1234") (first_job ∷ [])
    ≡ some (first_job ∷ second_job ∷ [])
unfolding post_backup push
accepted = refl

unknown_yet : get (codes "b") (first_job ∷ []) ≡ none
unfolding get text_dec
unknown_yet = refl

abbrev begun : Sender
begun = record { phase = listing; reported = false; job = first_job }

abbrev lines : List Text
lines = codes "zones/pg@before upgrade" ∷ codes "zones/pg@1400000000002" ∷ []

abbrev success : List Event
success = listed lines ∷ connect ∷ exit 0 ∷ []

abbrev sent : Sender
sent = record { phase = sending; reported = true; job = record first_job { done_flag = yes_done } }

not_done : begun.job.done_flag ≢ yes_done
not_done h = cc

succeeds : run success begun ≡ some sent
unfolding run step get_latest_snapshot is_backup is_timestamp
succeeds = refl

found_done : poll sent ≡ done
unfolding poll
found_done = refl

abbrev broken : Sender
broken = record {
  phase = sending;
  reported = true;
  job = record first_job { done_flag = failed; error = some (codes "ECONNRESET") };
}

abbrev ended : Sender
ended = record {
  phase = sending;
  reported = true;
  job = record first_job { done_flag = yes_done; error = some (codes "ECONNRESET") };
}

ends : run (exit 0 ∷ []) broken ≡ some ended
unfolding run step
ends = refl

abbrev listing_lines : List Text
listing_lines =
    codes "zones/pg@before upgrade"
    ∷ codes "zones/pg@1400000000002"
    ∷ codes "zones/pg@1400000000001"
    ∷ []

listing_lines-Descending : Descending listing_lines
unfolding text_leb
listing_lines-Descending = ((refl, (refl, tt)), ((refl, tt), (tt, tt)))

found_snapshot : get_latest_snapshot lines ≡ some (codes "zones/pg@1400000000002")
unfolding get_latest_snapshot is_backup is_timestamp
found_snapshot = refl

-- The first poll comes before the exit, the second one after it.
abbrev batches : List (List Event)
batches = (listed lines ∷ connect ∷ []) ∷ (exit 0 ∷ []) ∷ []

two_replies : replies_during batches begun ≡ some (pending ∷ done ∷ [])
unfolding replies_during run step get_latest_snapshot is_backup is_timestamp poll
two_replies = refl

restored : poll_restore_completion (pending ∷ done ∷ []) ≡ ok tt
unfolding poll_restore_completion
restored = refl

completion-Exited_example : SomeExited batches
completion-Exited_example =
    completion-Exited batches begun (pending ∷ done ∷ []) not_done two_replies restored

-- The lines that zfs prints for a dataset of 4261506216 bytes.
abbrev before_sending : Progress
before_sending = record { size = none; completed = none; msg = [] }

progress_is_read :
    let q =
      on_data (progress_line b'1' b'8' b'4' b'4' b'0' b'0' (codes "86419656") (codes "zones/pg")) (
        on_data
          (header (codes "zones/pg") (codes "4261506216") (codes "size\t4261506216"))
          before_sending) in
    (q.size ≡ some (codes "4261506216")) × (q.completed ≡ some (codes "86419656"))
progress_is_read =
    on_data-printed b'1' b'8' b'4' b'4' b'0' b'0' b'4' b'8' b'z' (codes "261506216")
      (codes "6419656") (codes "ones/pg") (codes "size\t4261506216") before_sending (ground arith)
      (ground arith) (ground arith) (ground arith) (ground arith)
