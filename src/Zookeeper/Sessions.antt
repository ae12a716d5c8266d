-- ===== src/Zookeeper/Sessions.antt =====
-- lib/zookeeperMgr.js: `init` and `close`, which make and drop the clients of ZooKeeper as their
-- sessions come and go.
pub mod One
mod Tests
use manatee.Base.{
  ℕ, zero, suc, Text, List, [], ◌∷◌, Option, none, some, Bool, true, false, ◌==◌, ◌&&◌, not,
  if◌then◌else◌,
}

-- `_zkSetupState`
pub data SetupState : Type 0 where
  uninit init data_setup data_error ready closed_state : SetupState

-- A client: whether it is open, whether the manager still listens to its events, and whether its two
-- functions under `once`, `resetZkClient` and `setupZkData`, have run.
pub record Client : Type 0 where
  pub number : ℕ
  pub is_open : Bool
  pub listened : Bool
  pub was_reset : Bool
  pub set_up : Bool

-- `clients` are all that were ever made, the newest first, which is `_zk`; `restarts` are the calls of
-- `setupZkClient` that wait in `setImmediate`; `inits` counts the events `init`.
pub record Sessions : Type 0 where
  pub clients : List Client
  pub next : ℕ
  pub restarts : ℕ
  pub inited : Bool
  pub inits : ℕ
  pub closed : Bool
  pub setup_state : SetupState

-- What happens: `setupZkClient` runs; a client is connected, for the first time or again; its
-- `setupData` calls back; its session expires or it has an error; the rest of the manager calls its
-- `reset`; the owner calls `close`.
pub data Event : Type 0 where
  restart : Event
  connected : ℕ → Event
  data_done : ℕ → Option Text → Event
  expired : ℕ → Event
  reset : ℕ → Event
  close : Event

-- The manager just made: `init` waits in `setImmediate`.
abbrev pub created : Sessions
created = record {
  clients = [];
  next = 0;
  restarts = 1;
  inited = false;
  inits = 0;
  closed = false;
  setup_state = uninit;
}

unfoldable pub find : ℕ → List Client → Option Client
find n [] = none
find n (c ∷ clients) = let rest = find n clients in if c.number == n then some c else rest

unfoldable pub update : Client → List Client → List Client
update c [] = []
update c (d ∷ clients) =
    let rest = update c clients in if d.number == c.number then c ∷ clients else d ∷ rest

-- `setupZkClient`
setup_client : Sessions → Sessions
setup_client s = record s {
  clients =
      record { number = s.next; is_open = true; listened = true; was_reset = false; set_up = false }
      ∷ s.clients;
  next = suc s.next;
  setup_state = init;
}

-- `resetZkClientOnce`
unfoldable pub reset_client : Client → Sessions → Sessions
unfolding update
reset_client c s = if c.was_reset then s else record s {
  clients = update (record c { is_open = false; was_reset = true }) s.clients;
  restarts = suc s.restarts;
  setup_state = closed_state;
}

-- The handler of `connected`. What `once` holds back of the second time is the whole of it.
on_connected : Client → Sessions → Sessions
unfolding update
on_connected c s =
    if c.listened && not c.set_up
    then record s {
      clients = update (record c { set_up = true }) s.clients;
      setup_state = data_setup;
    }
    else s

-- `emitInit`
emit_init : Sessions → Sessions
emit_init s = if s.inited then s else record s { inited = true; inits = suc s.inits }

-- The callback of `setupDataOnce`.
on_data : Client → Option Text → Sessions → Sessions
unfolding reset_client emit_init
on_data c none s = emit_init (record s { setup_state = ready })
on_data c (some e) s = reset_client c (record s { setup_state = data_error })

-- The handlers of `expired` and `error`.
on_expired : Client → Sessions → Sessions
unfolding reset_client
on_expired c s = if c.listened then reset_client c s else s

-- `close`
close_client : Sessions → Sessions
unfolding update
close_client s = elim s.clients [
  | [] ↦ s
  | c ∷ older ↦ record s {
    clients = record c { is_open = false; listened = false } ∷ older;
    closed = true;
  }
]

with_client : ℕ → (Client → Sessions → Sessions) → Sessions → Sessions
unfolding find
with_client n f s = elim (find n s.clients) [ none ↦ s | some c ↦ f c s ]

-- `setImmediate(setupZkClient)` comes to pass, if it waits.
restart_from : ℕ → Sessions → Sessions
unfolding setup_client
restart_from zero s = s
restart_from (suc n) s = setup_client (record s { restarts = n })

-- A step; an event of a client that does not exist changes nothing, nor does the end of a
-- `setupData` that has not begun.
unfoldable pub step : Event → Sessions → Sessions
unfolding with_client restart_from on_connected on_data on_expired reset_client close_client
step restart s = restart_from s.restarts s
step (connected n) s = with_client n on_connected s
step (data_done n e) s = with_client n (λ c. if c.set_up then on_data c e else λ t. t) s
step (expired n) s = with_client n on_expired s
step (reset n) s = with_client n reset_client s
step close s = close_client s

unfoldable pub run : List Event → Sessions → Sessions
unfolding step
run [] s = s
run (e ∷ events) s = run events (step e s)
