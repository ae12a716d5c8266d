-- ===== src/Postgres/Repl.antt =====
-- lib/postgresMgr.js: `_checkRepl` and `_checkReplStatus`, by which a primary waits for its standby to
-- catch up. The comparison of log positions is that of the package pg-lsn.
pub mod Verdicts
pub mod Progress
mod Tests
use manatee.Base.{
  ℕ, ◌-◌, Text, codes, ◌≡◌, List, [], ◌∷◌, Option, none, some, Bool, true, false, ◌||◌, not, ltb,
  if◌then◌else◌,
}
use manatee.Base.Texts.{is_missing}

-- pg-lsn: `xlogValidate(a)` is no error, `xlogCompare(a, b) === 0` and `xlogCompare(a, b) > 0`, by which
-- positions are ordered as the numbers that they stand for.
pub record Lsn : Type 0 where
  pub valid : Text → Bool
  pub same : Text → Text → Bool
  pub above : Text → Text → Bool
  pub above_irrefl : (a : Text) → above a a ≡ false
  pub above_cotrans : (a b c : Text) → above a b ≡ false → above b c ≡ false → above a c ≡ false
  pub above_asym : (a b : Text) → above a b ≡ true → above b a ≡ false

-- The columns of pg_stat_replication that are read, which may be missing.
pub record Row : Type 0 where
  pub sync_state : Option Text
  pub sent_location : Option Text
  pub flush_location : Option Text

-- What `_queryDb` calls back with.
pub data QueryReply : Type 0 where
  query_failed : Text → QueryReply
  no_row : QueryReply
  row : Row → QueryReply

-- What `_checkReplStatus` calls back with: an error, or the `stop` flag and the position flushed.
pub data Status : Type 0 where
  unknown : Text → Status
  caught_up : Text → Status
  behind : Text → Status

-- What the loop keeps between polls: `replReplayLoc` and `replStartTime`.
pub record Check : Type 0 where
  pub replay_loc : Option Text
  pub start_time : ℕ

-- A poll: the reply, and the clock when it is handled, read at the reset of the start time and again
-- for the time that has passed.
pub record Poll : Type 0 where
  pub reply : QueryReply
  pub reset_at : ℕ
  pub diff_at : ℕ

pub data Event : Type 0 where
  polled : Poll → Event
  cancelled : Event

-- The loop goes on, or it has emitted `done` or `error`.
pub data Verdict : Type 0 where
  going : Check → Verdict
  done : Verdict
  timed_out : Verdict

module _ (lsn : Lsn) (replication_timeout : ℕ) where
  abbrev pub compare_locations : Option Text → Option Text → Status
  compare_locations (some sent) (some flush) =
      if not (lsn.valid sent) || not (lsn.valid flush)
      then unknown (codes "failed to validate LSNs returned by postgres")
      else if lsn.same sent flush
      then caught_up flush
      else behind flush
  compare_locations _ _ = unknown (codes "no replication status")

  abbrev pub status_of : Row → Status
  status_of r =
      if is_missing r.sync_state || (is_missing r.sent_location || is_missing r.flush_location)
      then unknown (codes "no replication status")
      else compare_locations r.sent_location r.flush_location

  -- `_checkReplStatus`
  unfoldable pub check_repl_status : QueryReply → Status
  check_repl_status (query_failed e) = unknown e
  check_repl_status no_row = unknown (codes "no replication status")
  check_repl_status (row r) = status_of r

  abbrev pub is_progress : Text → Option Text → Bool
  is_progress loc none = true
  is_progress loc (some old) = lsn.above loc old

  -- `else if (!replReplayLoc || mod_lsn.xlogCompare(replayLoc, replReplayLoc) > 0)`
  unfoldable pub note_progress : Text → ℕ → Check → Check
  note_progress loc now c =
      if is_progress loc c.replay_loc then record { replay_loc = some loc; start_time = now } else c

  -- `diffTime > self._replicationTimeout`; a clock that was set back gives a negative difference, here
  -- 0, which is as little above the timeout.
  unfoldable pub judge : ℕ → Check → Verdict
  judge now c = if ltb replication_timeout (now - c.start_time) then timed_out else going c

  -- The callback of `_checkReplStatus` in `checkReplication`.
  unfoldable pub handle_status : Status → Poll → Check → Verdict
  unfolding note_progress judge
  handle_status (unknown e) p c = going (record c { start_time = p.reset_at })
  handle_status (caught_up loc) p c = done
  handle_status (behind loc) p c = judge p.diff_at (note_progress loc p.reset_at c)

  unfoldable pub step : Event → Check → Verdict
  unfolding handle_status check_repl_status
  step (polled p) c = handle_status (check_repl_status p.reply) p c
  step cancelled c = done

  -- `_checkRepl`: what comes after a verdict is not looked at.
  unfoldable pub run : List Event → Check → Verdict
  run [] c = going c
  run (e ∷ events) c = elim (step e c) [
    | going d ↦ run events d
    | done ↦ done
    | timed_out ↦ timed_out
  ]
