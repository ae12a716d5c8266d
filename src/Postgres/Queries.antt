-- ===== src/Postgres/Queries.antt =====
-- lib/postgresMgr.js: `_queryDb`, `_pgQueryKick` and `_pgQueryFini`, which funnel every query of the
-- manager through one connection, one query at a time.
pub mod Order
pub mod Progress
pub mod Stale
mod Tests
use manatee.Base.{
  ℕ, suc, ◌+◌, Text, List, [], ◌∷◌, ◌++◌, Option, none, some, Bool, false, ◌==◌, if◌then◌else◌,
}

-- What `_queryDb` pushes. `id` stands for the identity of the object, which the handlers compare.
pub record Request : Type 0 where
  pub id : ℕ
  pub query_str : Text

-- What a callback is given: an error, or the first row of the result, if it has one.
pub data Reply : Type 0 where
  failed : Text → Reply
  result : Option Text → Reply

-- `client` is `_pgClient`, by a serial number; `made` counts the clients created. `submitted` and
-- `answered` record the calls of `_queryDb` and of the callbacks, in order.
pub record Pg : Type 0 where
  pub outstanding : Option Request
  pub queued : List Request
  pub client : Option ℕ
  pub made : ℕ
  pub submitted : List Request
  pub answered : List (Request × Reply)

unfoldable pub new : Pg
new = record {
  outstanding = none;
  queued = [];
  client = none;
  made = 0;
  submitted = [];
  answered = [];
}

-- `if (!self._pgClient) { self._pgClient = new Client(…); … }`
ensure_client : Pg → Pg
ensure_client s = elim s.client [
  | none ↦ record s { client = some s.made; made = suc s.made }
  | some c ↦ s
]

-- `_pgRequestsQueued.shift()` and the dispatch of what it gives.
dispatch : List Request → Pg → Pg
unfolding ensure_client
dispatch [] s = s
dispatch (rq ∷ rest) s = ensure_client (record s { queued = rest; outstanding = some rq })

unfoldable pub kick : Pg → Pg
unfolding dispatch
kick s = elim s.outstanding [ some rq ↦ s | none ↦ dispatch s.queued s ]

unfoldable pub query_db : Request → Pg → Pg
unfolding kick
query_db rq s = kick (record s { queued = s.queued ++ rq ∷ []; submitted = s.submitted ++ rq ∷ [] })

-- The queries that a callback enqueues before it returns.
unfoldable pub query_all : List Request → Pg → Pg
query_all [] s = s
query_all (rq ∷ calls) s = query_all calls (query_db rq s)

-- After an error the client is dropped, so that the next query makes a new one.
client_after : Reply → Option ℕ → Option ℕ
client_after (failed e) c = none
client_after (result r) c = c

-- The first half of `_pgQueryFini`: the request is no longer outstanding, and its callback is told.
unfoldable pub settle : Request → Reply → Pg → Pg
unfolding client_after
settle rq reply s = record s {
  outstanding = none;
  client = client_after reply s.client;
  answered = s.answered ++ (rq, reply) ∷ [];
}

-- `_pgQueryFini`, where `calls` are the queries that the callback enqueues. `none` is the failure of
-- its assertion that a request is outstanding.
unfoldable pub fini : Reply → List Request → Pg → Option Pg
fini reply calls s = elim s.outstanding [
  | none ↦ none
  | some rq ↦ some (kick (query_all calls (settle rq reply s)))
]

-- What the event loop delivers: a caller's query, the handlers of the query that was issued for
-- `rq`, or an `error` event of a client on which its handler is still registered.
pub data Event : Type 0 where
  submit : Request → Event
  query_error : Request → Text → List Request → Event
  query_end : Request → Option Text → List Request → Event
  client_error : Text → List Request → Event

-- `rq == self._pgRequestOutstanding`
abbrev pub is_outstanding : Request → Option Request → Bool
is_outstanding rq none = false
is_outstanding rq (some out) = rq.id == out.id

-- The handler of the client's `error` event, as it is registered: it names `self._pgClient`, which
-- need not be the client that fails. `none` is the exception on a null client.
unfoldable pub on_client_error : Text → List Request → Pg → Option Pg
on_client_error e calls s = elim s.client [
  | none ↦ none
  | some c ↦ elim s.outstanding [
    | some rq ↦ fini (failed e) calls s
    | none ↦ some (record s { client = none })
  ]
]

unfoldable pub step : Event → Pg → Option Pg
unfolding on_client_error
step (submit rq) s = some (query_db rq s)
step (query_error rq e calls) s =
    if is_outstanding rq s.outstanding then fini (failed e) calls s else some s
step (query_end rq row calls) s =
    if is_outstanding rq s.outstanding then fini (result row) calls s else none
step (client_error e calls) s = on_client_error e calls s

-- A run of events, which ends where an exception escapes.
unfoldable pub run : List Event → Pg → Option Pg
run [] s = some s
run (e ∷ es) s = elim (step e s) [ none ↦ none | some t ↦ run es t ]
