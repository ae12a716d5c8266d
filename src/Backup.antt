-- ===== src/Backup.antt =====
-- lib/backupQueue.js, lib/backupSender.js and lib/backupServer.js: the jobs by which a peer sends its
-- latest snapshot to another, from the request to the answer that a poll of the job gives.
pub mod Jobs
pub mod Sending
pub mod Latest
pub mod Polling
pub mod Progress
mod Tests
use manatee.Base.{
  ℕ, zero, suc, Text, codes, text_eq, List, [], ◌∷◌, ◌++◌, Option, none, some, Bool, true, false,
  if◌then◌else◌,
}
use manatee.Base.Texts.{split}
use manatee.Snapshots.{is_timestamp}
use manatee.Zfs.{JobReply, unreachable, done, job_failed, pending}

-- The values of the field `done` of a job.
pub data Done : Type 0 where
  no zero_bytes yes_done failed : Done

pub record Job : Type 0 where
  pub uuid : Text
  pub host : Text
  pub port : Text
  pub dataset : Text
  pub done_flag : Done
  pub error : Option Text

-- `BackupQueue.push`, on the array that backs the queue.
unfoldable pub push : Job → List Job → List Job
push job queue = queue ++ job ∷ []

pop_from : Job → List Job → Option Job × List Job
pop_from job [] = (some job, [])
pop_from job (next ∷ queue) = let (popped, rest) = pop_from next queue in (popped, job ∷ rest)

-- `BackupQueue.pop`: `Array.prototype.pop` takes the last element.
unfoldable pub pop : List Job → Option Job × List Job
unfolding pop_from
pop [] = (none, [])
pop (job ∷ queue) = pop_from job queue

-- `BackupQueue.get`
unfoldable pub get : Text → List Job → Option Job
get uuid [] = none
get uuid (job ∷ queue) = if text_eq job.uuid uuid then some job else get uuid queue

-- `checkBackup`, as the poll of the client sees it: an error of the server, or the field `done`.
reply_of_done : Done → JobReply
reply_of_done no = pending
reply_of_done zero_bytes = pending
reply_of_done yes_done = done
reply_of_done failed = job_failed

reply_of_job : Done → Option Text → JobReply
unfolding reply_of_done
reply_of_job flag (some e) = unreachable e
reply_of_job flag none = reply_of_done flag

reply_of : Option Job → JobReply
unfolding reply_of_job
reply_of none = unreachable (codes "ResourceNotFound")
reply_of (some job) = reply_of_job job.done_flag job.error

unfoldable pub check_backup : Text → List Job → JobReply
unfolding reply_of
check_backup uuid queue = reply_of (get uuid queue)

abbrev pub is_given : Text → Bool
is_given [] = false
is_given (u ∷ t) = true

-- `postBackup`, for parameters that may be empty; `uuid` is what `uuid.v4()` gives.
unfoldable pub post_backup : Text → Text → Text → Text → List Job → Option (List Job)
unfolding push
post_backup uuid host dataset port queue =
    if is_given host
    then if is_given dataset
      then if is_given port
        then some (
            push
              (record {
                uuid = uuid;
                host = host;
                port = port;
                dataset = dataset;
                done_flag = no;
                error = none;
              })
              queue)
        else none
      else none
    else none

-- `snapshots[i].split('@')[1]` against `/^\d{13}$/`; `undefined` is tested as a text of letters.
second_is_timestamp : List Text → Bool
second_is_timestamp (a ∷ b ∷ rest) = is_timestamp b
second_is_timestamp _ = false

unfoldable pub is_backup : Text → Bool
unfolding second_is_timestamp split
is_backup line = second_is_timestamp (split b'@' line)

-- The loop of `_getLatestSnapshot`, over the lines of `zfs list`, in descending order of their names.
unfoldable pub get_latest_snapshot : List Text → Option Text
get_latest_snapshot [] = none
get_latest_snapshot (line ∷ snapshots) =
    let rest = get_latest_snapshot snapshots in if is_backup line then some line else rest

-- Where `_send` is with its job, and what it can meet there: the answer of `zfs list`, the events of
-- the socket, and the exit of `zfs send` with a code. `reported` says that the callback, which runs
-- once, has run.
pub data Phase : Type 0 where
  listing connecting sending : Phase

pub record Sender : Type 0 where
  pub phase : Phase
  pub reported : Bool
  pub job : Job

pub data Event : Type 0 where
  list_failed : Text → Event
  listed : List Text → Event
  connect : Event
  exit : ℕ → Event
  socket_error : Text → Event

-- The callback of `_send` in the handler of `push`, with an error, behind `once`.
report : Text → Sender → Sender
report e s =
    if s.reported then s else record s { reported = true; job = record s.job { error = some e } }

report_done : Sender → Sender
report_done s = record s { reported = true }

set_done : Done → Sender → Sender
set_done flag s = record s { job = record s.job { done_flag = flag } }

on_listed : Option Text → Sender → Sender
unfolding report
on_listed none s = report (codes "no snapshots found") s
on_listed (some snapshot) s = record s { phase = connecting }

on_exit : ℕ → Sender → Sender
unfolding report report_done set_done
on_exit zero s = report_done (set_done yes_done s)
on_exit (suc code) s = report (codes "zfs send") (set_done failed s)

-- One event of `_send`. `none` is the exception of `zfsSend.kill` where no process was spawned; an
-- event that cannot come in a phase changes nothing.
unfoldable pub step : Event → Sender → Option Sender
unfolding report report_done set_done on_listed on_exit
step (list_failed e) s = elim s.phase [ listing ↦ some (report e s) | _ ↦ some s ]
step (listed lines) s = elim s.phase [
  | listing ↦ some (on_listed (get_latest_snapshot lines) s)
  | _ ↦ some s
]
step connect s = elim s.phase [
  | connecting ↦ some (set_done zero_bytes (record s { phase = sending }))
  | _ ↦ some s
]
step (exit code) s = elim s.phase [ sending ↦ some (on_exit code s) | _ ↦ some s ]
step (socket_error e) s = elim s.phase [
  | listing ↦ some s
  | connecting ↦ none
  | sending ↦ some (report e (set_done failed s))
]

unfoldable pub run : List Event → Sender → Option Sender
run [] s = some s
run (e ∷ events) s = elim (step e s) [ none ↦ none | some t ↦ run events t ]

-- What a poll of the job finds.
unfoldable pub poll : Sender → JobReply
unfolding reply_of
poll s = reply_of (some s.job)
