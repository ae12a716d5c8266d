-- ===== src/Adm/Connections.antt =====
-- lib/adm.js: `createZkClient` and `queryPg`, the two waits of manatee-adm that race with a timer.
pub mod Once
mod Tests
use manatee.Base.{Text, codes, List, [], ◌∷◌, Option, none, some, Bool, true, false, if◌then◌else◌}

-- What the callback of `createZkClient` gets.
pub data ZkAnswer : Type 0 where
  a_client : ZkAnswer
  no_client : Text → ZkAnswer

-- Which listeners the client still has, and what became of it. `crashed` says that a listener threw,
-- which ends the program.
pub record ZkWait : Type 0 where
  pub on_connected : Bool
  pub on_disconnected : Bool
  pub on_error : Bool
  pub timer : Bool
  pub closed : Bool
  pub crashed : Bool
  pub answers : List ZkAnswer

pub data ZkEvent : Type 0 where
  connected disconnected zk_error ten_seconds : ZkEvent

-- `createZkClient`, up to its return.
abbrev pub connecting : ZkWait
connecting = record {
  on_connected = true;
  on_disconnected = true;
  on_error = true;
  timer = true;
  closed = false;
  crashed = false;
  answers = [];
}

-- `removeAllListeners` and `close`.
unfoldable pub drop_client : ZkWait → ZkWait
drop_client w = record w {
  on_connected = false;
  on_disconnected = false;
  on_error = false;
  closed = true;
}

-- The listener of `connected`; `cb.called` is whether there was an answer.
heard_connected : ZkWait → ZkWait
unfolding drop_client
heard_connected w =
    let once_heard = record w { on_connected = false } in
    elim w.answers [
      | [] ↦ record once_heard { answers = a_client ∷ [] }
      | a ∷ rest ↦ drop_client once_heard
    ]

-- The function of the timer.
time_out : ZkWait → ZkWait
time_out w =
    let fired = record w { timer = false } in
    elim w.answers [
      | [] ↦ record fired { answers = no_client (codes "unable to connect to zk") ∷ [] }
      | a ∷ rest ↦ fired
    ]

unfoldable pub zk_step : ZkEvent → ZkWait → ZkWait
unfolding heard_connected time_out
zk_step connected w = if w.on_connected then heard_connected w else w
zk_step disconnected w =
    if w.on_disconnected then record w { on_disconnected = false; crashed = true } else w
zk_step zk_error w = if w.on_error then record w { crashed = true } else w
zk_step ten_seconds w = if w.timer then time_out w else w

-- Nothing happens to a program that has ended.
unfoldable pub zk_run : List ZkEvent → ZkWait → ZkWait
unfolding zk_step
zk_run [] w = w
zk_run (e ∷ events) w = if w.crashed then w else zk_run events (zk_step e w)

-- Where a query of `queryPg` is.
pub data Asking : Type 0 where
  opening asking over : Asking

-- `answers` are the calls of the callback that `once` lets through, by the error, if any; `ended` is
-- whether the client was closed.
pub record PgWait : Type 0 where
  pub asking_now : Asking
  pub timer : Bool
  pub ended : Bool
  pub answers : List (Option Text)

pub data PgEvent : Type 0 where
  opened : Option Text → PgEvent
  queried : Option Text → PgEvent
  one_second : PgEvent

abbrev pub querying : PgWait
querying = record { asking_now = opening; timer = true; ended = false; answers = [] }

answer_once : Option Text → List (Option Text) → List (Option Text)
answer_once e [] = e ∷ []
answer_once e (a ∷ rest) = a ∷ rest

-- The callback of `client.connect`.
on_opened : Option Text → PgWait → PgWait
unfolding answer_once
on_opened none w = record w { asking_now = asking }
on_opened (some e) w = record w { asking_now = over; answers = answer_once (some e) w.answers }

unfoldable pub pg_step : PgEvent → PgWait → PgWait
unfolding on_opened answer_once
pg_step (opened e) w = elim w.asking_now [ opening ↦ on_opened e w | _ ↦ w ]
pg_step (queried e) w = elim w.asking_now [
  | asking ↦ record w { asking_now = over; ended = true; answers = answer_once e w.answers }
  | _ ↦ w
]
pg_step one_second w =
    if w.timer
    then record w {
      timer = false;
      answers = answer_once (some (codes "postgres request timed out")) w.answers;
    }
    else w

unfoldable pub pg_run : List PgEvent → PgWait → PgWait
unfolding pg_step
pg_run [] w = w
pg_run (e ∷ events) w = pg_run events (pg_step e w)
