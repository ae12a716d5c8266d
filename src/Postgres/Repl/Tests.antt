-- ===== src/Postgres/Repl/Tests.antt =====
-- A standby that catches up, and one that stalls.
use manatee.Base.{
  ℕ, Text, codes, ◌≡◌, refl, List, [], ◌∷◌, ◌++◌, none, some, Bool, true, false, not, text_eq,
  text_dec, arith, All,
}
use manatee.Base.Texts.{text_leb, text_leb_total, text_leb_trans}
use manatee.Postgres.Repl.{
  Lsn, QueryReply, query_failed, row, Check, Poll, Event, polled, going, done, timed_out,
  check_repl_status, note_progress, judge, handle_status, step, run,
}
use manatee.Postgres.Repl.Verdicts.{SomeEnds, Within, run-done}
use manatee.Postgres.Repl.Progress.{StuckAt, run-gives_up}

above_text : Text → Text → Bool
above_text a b = not (text_leb a b)

above_text_cotrans :
    (a b c : Text) → above_text a b ≡ false → above_text b c ≡ false → above_text a c ≡ false
unfolding above_text
above_text_cotrans a b c h k = ground (arith, text_leb_trans a b c)

above_text_irrefl : (a : Text) → above_text a a ≡ false
unfolding above_text
above_text_irrefl a = ground (arith, text_leb_total a a)

above_text_asym : (a b : Text) → above_text a b ≡ true → above_text b a ≡ false
unfolding above_text
above_text_asym a b h = ground (arith, text_leb_total a b)

-- Positions of one width, ordered as texts.
abbrev lsn : Lsn
lsn = record {
  valid = λ a. true;
  same = text_eq;
  above = above_text;
  above_irrefl = above_text_irrefl;
  above_cotrans = above_text_cotrans;
  above_asym = above_text_asym;
}

abbrev row_at : Text → QueryReply
row_at flush = row (record {
  sync_state = some (codes "sync");
  sent_location = some (codes "0/30");
  flush_location = some flush;
})

abbrev poll : QueryReply → ℕ → Event
poll reply now = polled (record { reply = reply; reset_at = now; diff_at = now })

abbrev begun : Check
begun = record { replay_loc = none; start_time = 100 }

abbrev catching_up : List Event
catching_up =
    poll (query_failed (codes "no connection")) 101
    ∷ poll (row_at (codes "0/10")) 102
    ∷ poll (row_at (codes "0/30")) 103
    ∷ []

catches_up : run lsn 60 catching_up begun ≡ done
unfolding run step handle_status check_repl_status text_dec
catches_up = ground arith

run-done_example : SomeEnds lsn 60 catching_up
run-done_example = run-done lsn 60 catching_up begun catches_up

prompt : All (Within lsn 60 100) catching_up
prompt = omega arith

abbrev moving : List Event
moving = poll (row_at (codes "0/20")) 102 ∷ poll (row_at (codes "0/10")) 103 ∷ []

abbrev at_twenty : Check
at_twenty = record { replay_loc = some (codes "0/20"); start_time = 102 }

moves : run lsn 60 moving begun ≡ going at_twenty
unfolding run step handle_status check_repl_status text_dec note_progress judge above_text text_leb
moves = refl

abbrev late : Poll
late = record { reply = row_at (codes "0/20"); reset_at = 200; diff_at = 200 }

stays : StuckAt lsn 60 (codes "0/20") (polled late)
unfolding check_repl_status text_dec
stays = refl

stayed : All (StuckAt lsn 60 (codes "0/20")) (poll (row_at (codes "0/20")) 150 ∷ [])
unfolding check_repl_status text_dec
stayed = (refl, tt)

run-gives_up_example :
    run lsn 60 ((poll (row_at (codes "0/20")) 150 ∷ []) ++ polled late ∷ []) at_twenty ≡ timed_out
run-gives_up_example =
    run-gives_up lsn 60 (codes "0/20") (poll (row_at (codes "0/20")) 150 ∷ []) late at_twenty refl
      stayed stays (omega arith)
