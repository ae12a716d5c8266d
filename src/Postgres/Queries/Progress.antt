-- ===== src/Postgres/Queries/Progress.antt =====
-- Every query is answered as long as the connection replies.
use manatee.Base.{◌≡◌, refl, List, [], ◌∷◌, map, none, some, arith}
use mathlib.Core.List.{append-nil}
use manatee.Postgres.Queries.{
  Pg, Request, Reply, failed, result, Event, query_error, query_end, kick, query_all, settle, fini,
  step, run,
}
use manatee.Postgres.Queries.Order.{Inv, IsBusy, replied, run-Inv}

-- The event by which the query of a request ends, for a callback that enqueues nothing.
abbrev pub ending : Request → Reply → Event
ending rq (failed e) = query_error rq e []
ending rq (result r) = query_end rq r []

step-ending :
    (s : Pg) (rq : Request) (reply : Reply)
    → s.outstanding ≡ some rq
    → step (ending rq reply) s ≡ some (kick (settle rq reply s))
unfolding step fini query_all
step-ending s rq (failed e) p = ground arith
step-ending s rq (result r) p = ground arith

kick-settle_last :
    (s : Pg) (rq : Request) (reply : Reply)
    → s.queued ≡ []
    → ((kick (settle rq reply s)).outstanding ≡ none)
      × ((kick (settle rq reply s)).submitted ≡ s.submitted)
unfolding kick settle
kick-settle_last s rq reply p = ground arith

kick-settle_more :
    (s : Pg) (rq q : Request) (qs : List Request) (reply : Reply)
    → s.queued ≡ q ∷ qs
    → ((kick (settle rq reply s)).outstanding ≡ some q)
      × ((kick (settle rq reply s)).queued ≡ qs)
      × ((kick (settle rq reply s)).submitted ≡ s.submitted)
unfolding kick settle
kick-settle_more s rq q qs reply p = ground arith

drain :
    (how : Request → Reply) (qs : List Request) (rq : Request) (s : Pg)
    → s.outstanding ≡ some rq
    → s.queued ≡ qs
    → (t : Pg) × (run (map (λ q. ending q (how q)) (rq ∷ qs)) s ≡ some t)
      × (t.outstanding ≡ none)
      × (t.submitted ≡ s.submitted)
unfolding run
drain how [] rq s p e =
    let (a, b) = kick-settle_last s rq (how rq) e in
    (kick (settle rq (how rq) s), rw (run, step-ending s rq (how rq) p), a, b)
drain how (q ∷ qs) rq s p e =
    let (a, b, c) = kick-settle_more s rq q qs (how rq) e in
    let (t, r, f, g) = drain how qs q (kick (settle rq (how rq) s)) a b in
    (t, rw (run, step-ending s rq (how rq) p) r, f, ground arith)

-- From a state that keeps the invariant, with a request outstanding, let the outstanding query and
-- then each waiting one end, by a row, by no row or by an error. Then no exception escapes, and every
-- request that was ever submitted has been answered, in order.
pub drain_all :
    (how : Request → Reply) (rq : Request) (s : Pg)
    → Inv s
    → IsBusy s
    → s.outstanding ≡ some rq
    → (t : Pg) × (run (map (λ q. ending q (how q)) (rq ∷ s.queued)) s ≡ some t)
      × (t.outstanding ≡ none)
      × (replied t.answered ≡ s.submitted)
drain_all how rq s h b p =
    let (t, r, o, same) = drain how s.queued rq s p refl in
    let (h', b') = run-Inv _ s t h b r in
    (t, r, o, ground (arith, h'.in_order, b' o, append-nil (replied t.answered)))
