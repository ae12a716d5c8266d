-- ===== src/Postgres/Queries/Stale.antt =====
-- What an error of a client that was dropped does. The handler is registered on the old client and
-- stays there, and it acts on whatever client the manager has by then.
use manatee.Base.{Text, ◌≡◌, List, [], ◌∷◌, ◌++◌, none, some, arith}
use manatee.Postgres.Queries.{
  Pg, Request, failed, query_error, client_error, kick, query_all, settle, fini, on_client_error,
  step, run,
}

-- A query fails with nothing waiting, so that its client is dropped; when that client then reports
-- an error of its own, the handler throws on the null client, whatever the two errors are.
pub stale_client_throws :
    (s : Pg) (rq : Request) (e e' : Text) (calls : List Request)
    → s.outstanding ≡ some rq
    → s.queued ≡ []
    → run (query_error rq e [] ∷ client_error e' calls ∷ []) s ≡ none
unfolding run step fini kick settle query_all on_client_error
stale_client_throws s rq e e' calls p q = ground arith

-- If a request waits, it is issued on a new client; the late error of the old client then fails that
-- request, although nothing is wrong with the connection that it was issued on.
stale_client_fails_next :
    (s t : Pg) (rq next : Request) (e e' : Text)
    → s.outstanding ≡ some rq
    → s.queued ≡ next ∷ []
    → run (query_error rq e [] ∷ client_error e' [] ∷ []) s ≡ some t
    → (t.answered ≡ (s.answered ++ (rq, failed e) ∷ []) ++ (next, failed e') ∷ [])
unfolding run step fini kick settle query_all on_client_error
stale_client_fails_next s t rq next e e' p q r = ground arith
