-- ===== src/Postgres/Queries/Order.antt =====
-- Every query is answered once and in the order of submission.
use mathlib.Core.List.{append_assoc, map-append}
use manatee.Base.{
  Text, subst, ◌≡◌, refl, ◌≢◌, List, [], ◌∷◌, ◌++◌, map, Option, none, some, arith, Option-cases,
  inl, inr,
}
use manatee.Postgres.Queries.{
  Pg, Request, Reply, Event, submit, query_error, query_end, client_error, new, kick, query_db,
  query_all, settle, fini, failed, result, on_client_error, step, run,
}

abbrev pub to_list {ℓ} : {A : Type ℓ} → Option A → List A
to_list none = []
to_list (some a) = a ∷ []

-- The requests that were answered, in the order of their callbacks.
abbrev pub replied : List (Request × Reply) → List Request
replied = map (λ a. a.0)

pub record Inv (s : Pg) : Type 0 where
  pub in_order : replied s.answered ++ (to_list s.outstanding ++ s.queued) ≡ s.submitted
  pub connected : s.outstanding ≢ none → s.client ≢ none

-- Nothing waits while the connection is free.
abbrev pub IsBusy : Pg → Type 0
IsBusy s = s.outstanding ≡ none → s.queued ≡ []

kick-Inv : (s : Pg) → Inv s → Inv (kick s) × IsBusy (kick s)
unfolding kick
kick-Inv s h = ground arith

push-order :
    (rs : List Request) (o : List Request) (qs ss : List Request) (rq : Request)
    → rs ++ (o ++ qs) ≡ ss
    → rs ++ (o ++ (qs ++ rq ∷ [])) ≡ ss ++ rq ∷ []
push-order rs o qs ss rq h = rw (← h) (simp append_assoc)

query_db-Inv : (rq : Request) (s : Pg) → Inv s → Inv (query_db rq s) × IsBusy (query_db rq s)
unfolding query_db
query_db-Inv rq s h =
    kick-Inv (record s { queued = s.queued ++ rq ∷ []; submitted = s.submitted ++ rq ∷ [] })
      (record {
        in_order = push-order _ (to_list s.outstanding) s.queued _ rq h.in_order;
        connected = h.connected;
      })

query_all-Inv : (calls : List Request) (s : Pg) → Inv s → Inv (query_all calls s)
unfolding query_all
query_all-Inv [] s h = h
query_all-Inv (rq ∷ calls) s h = query_all-Inv calls (query_db rq s) (query_db-Inv rq s h).0

answer-order :
    (done : List (Request × Reply)) (rq : Request) (reply : Reply) (qs ss : List Request)
    → replied done ++ (rq ∷ qs) ≡ ss
    → replied (done ++ (rq, reply) ∷ []) ++ qs ≡ ss
answer-order done rq reply qs ss h = rw (← h) (simp (map-append, append_assoc))

settle-Inv :
    (rq : Request) (reply : Reply) (s : Pg)
    → s.outstanding ≡ some rq
    → Inv s
    → Inv (settle rq reply s)
unfolding settle
settle-Inv rq reply s p h = record {
  in_order =
      answer-order s.answered rq reply s.queued s.submitted
        (subst (λ o. replied s.answered ++ (to_list o ++ s.queued) ≡ s.submitted) p h.in_order);
  connected = λ n. absurd (n refl);
}

fini-Inv :
    (reply : Reply) (calls : List Request) (s t : Pg)
    → Inv s
    → fini reply calls s ≡ some t
    → Inv t × IsBusy t
unfolding fini
fini-Inv reply calls s t h e = elim (Option-cases s.outstanding) [
  | inl p ↦ absurd (ground arith)
  | inr (rq, p) ↦
      subst (λ u. Inv u × IsBusy u) (ground arith)
        (kick-Inv _ (query_all-Inv calls _ (settle-Inv rq reply s p h)))
]

on_client_error-Inv :
    (e : Text) (calls : List Request) (s t : Pg)
    → Inv s
    → IsBusy s
    → on_client_error e calls s ≡ some t
    → Inv t × IsBusy t
unfolding on_client_error
on_client_error-Inv e calls s t h b r = ground (arith, fini-Inv (failed e) calls s t h)

-- Every event that does not throw keeps the invariant, and leaves nothing waiting behind a free
-- connection.
pub step-Inv : (e : Event) (s t : Pg) → Inv s → IsBusy s → step e s ≡ some t → Inv t × IsBusy t
unfolding step
step-Inv (submit rq) s t h b r = subst (λ u. Inv u × IsBusy u) (ground arith) (query_db-Inv rq s h)
step-Inv (query_error rq e calls) s t h b r = ground (arith, fini-Inv (failed e) calls s t h)
step-Inv (query_end rq row calls) s t h b r = ground (arith, fini-Inv (result row) calls s t h)
step-Inv (client_error e calls) s t h b r = on_client_error-Inv e calls s t h b r

pub run-Inv : (es : List Event) (s t : Pg) → Inv s → IsBusy s → run es s ≡ some t → Inv t × IsBusy t
unfolding run
run-Inv [] s t h b r = ground arith
run-Inv (e ∷ es) s t h b r = elim (Option-cases (step e s)) [
  | inl p ↦ absurd (ground arith)
  | inr (u, p) ↦ let (h', b') = step-Inv e s u h b p in run-Inv es u t h' b' (ground arith)
]

-- After any run of events from a new manager that throws no exception, the callbacks that have run,
-- followed by the request that is outstanding and by those that wait, are the submitted requests in
-- their order; and if no request is outstanding then none waits.
pub run-new-in_order :
    (es : List Event) (t : Pg)
    → run es new ≡ some t
    → (replied t.answered ++ (to_list t.outstanding ++ t.queued) ≡ t.submitted)
      × (t.outstanding ≡ none → t.queued ≡ [])
unfolding new
run-new-in_order es t r =
    let (h, b) =
      run-Inv es new t (record { in_order = refl; connected = λ n. absurd (n refl) }) (λ _. refl)
        r in
    (h.in_order, b)
