-- ===== src/Adm/Details/Links.antt =====
-- lib/adm.js: when `loadReplErrors` finds nothing wrong between a peer and the one downstream of it.
use manatee.Base.{
  Text, codes, text_eq_iff, ◌≡◌, refl, List, [], ◌∷◌, Option, Option-cases, none, some, false,
  arith, Outcome, ok, err, lost, thrown,
}
use manatee.Base.Objects.{Object, lookup}
use manatee.Adm.Details.{
  Repl, Detail, Problem, load_repl_errors, async_errors, first, repl_errors, both_lists, differs,
}

differs-none : (s : Option Text) (t : Text) → differs s t ≡ false → s ≡ some t
differs-none none t h = cc
differs-none (some s) t h = grind (arith, text_eq_iff)

differs-same : (s : Option Text) (t : Text) → s ≡ some t → differs s t ≡ false
differs-same none t h = cc
differs-same (some s) t h = grind (arith, text_eq_iff)

-- The row says that a peer of this address is connected, streams, and in the given way.
abbrev pub Streams : Repl → Text → Text → Type 0
Streams r ip kind =
    (r.client_addr ≡ some ip) × (r.state ≡ some (codes "streaming")) × (r.sync_state ≡ some kind)

repl_errors-Streams :
    (up down : Detail) (kind : Text) (r : Repl)
    → Streams r down.ident.ip kind
    → repl_errors up (some down) kind (some r) ≡ ok []
unfolding repl_errors
repl_errors-Streams up down kind r (a, s, k) =
    rw
      (
        differs-same r.client_addr down.ident.ip a,
        differs-same r.state (codes "streaming") s,
        differs-same r.sync_state kind k,
      )
      refl

repl_errors-only-Streams :
    (up down : Detail) (kind : Text) (r : Repl)
    → repl_errors up (some down) kind (some r) ≡ ok []
    → Streams r down.ident.ip kind
unfolding repl_errors
repl_errors-only-Streams up down kind r h =
    let a = differs-none r.client_addr down.ident.ip in
    let s = differs-none r.state (codes "streaming") in
    let k = differs-none r.sync_state kind in ground arith

-- The downstream peer, if there is one, is known, and `up` replicates to it.
abbrev pub Feeds : Object Detail → Detail → Option Text → Text → Type 0
Feeds peers up none kind = Unit
Feeds peers up (some id) kind =
    (down : Detail) × (r : Repl) × (lookup id peers ≡ some down)
    × (up.repl ≡ some r)
    × Streams r down.ident.ip kind

pub load_repl_errors-Feeds :
    (peers : Object Detail) (up : Detail) (id : Option Text) (kind : Text)
    → Feeds peers up id kind
    → load_repl_errors peers up id kind ≡ ok []
unfolding load_repl_errors
load_repl_errors-Feeds peers up none kind h = refl
load_repl_errors-Feeds peers up (some id) kind (down, r, l, q, h) =
    rw (l, q) (repl_errors-Streams up down kind r h)

streams_row :
    (peers : Object Detail) (up : Detail) (id kind : Text) (down : Option Detail) (r : Option Repl)
    → lookup id peers ≡ down
    → up.repl ≡ r
    → repl_errors up down kind r ≡ ok []
    → Feeds peers up (some id) kind
unfolding repl_errors
streams_row peers up id kind down none l q h = cc
streams_row peers up id kind none (some r) l q h = cc
streams_row peers up id kind (some down) (some r) l q h =
    (down, r, l, q, repl_errors-only-Streams up down kind r h)

pub load_repl_errors-only-Feeds :
    (peers : Object Detail) (up : Detail) (id : Option Text) (kind : Text)
    → load_repl_errors peers up id kind ≡ ok []
    → Feeds peers up id kind
unfolding load_repl_errors
load_repl_errors-only-Feeds peers up none kind h = tt
load_repl_errors-only-Feeds peers up (some id) kind h =
    streams_row peers up id kind (lookup id peers) up.repl refl refl h

-- Every async is known, and replicates to the one after it.
abbrev pub Chained : Object Detail → List Text → Type 0
Chained peers [] = Unit
Chained peers (a ∷ rest) =
    ((up : Detail) × (lookup a peers ≡ some up) × Feeds peers up (first rest) (codes "async"))
    × Chained peers rest

pub both_lists-nil :
    (r q : Outcome Text (List Problem)) → both_lists r q ≡ ok [] → (r ≡ ok []) × (q ≡ ok [])
unfolding both_lists
both_lists-nil (ok []) (ok qs) h = (refl, h)
both_lists-nil (ok (p ∷ ps)) (ok qs) h = cc
both_lists-nil (ok ps) (err e) h = cc
both_lists-nil (ok ps) lost h = cc
both_lists-nil (ok ps) thrown h = cc
both_lists-nil (err e) q h = cc
both_lists-nil lost q h = cc
both_lists-nil thrown q h = cc

pub async_errors-Chained :
    (peers : Object Detail) (ids : List Text) → Chained peers ids → async_errors peers ids ≡ ok []
unfolding async_errors both_lists
async_errors-Chained peers [] h = refl
async_errors-Chained peers (a ∷ rest) ((up, l, f), h) =
    rw
      (
        async_errors,
        l,
        load_repl_errors-Feeds peers up (first rest) (codes "async") f,
        async_errors-Chained peers rest h,
      )
      refl

head_known :
    (peers : Object Detail) (a : Text) (next : Option Text) (more : Outcome Text (List Problem))
    → elim (lookup a peers) [
      | none ↦ thrown
      | some up ↦ both_lists (load_repl_errors peers up next (codes "async")) more
    ]
      ≡ ok []
    → (up : Detail) × (lookup a peers ≡ some up)
      × (both_lists (load_repl_errors peers up next (codes "async")) more ≡ ok [])
head_known peers a next more h = ground (arith, Option-cases (lookup a peers))

pub async_errors-only-Chained :
    (peers : Object Detail) (ids : List Text) → async_errors peers ids ≡ ok [] → Chained peers ids
unfolding async_errors
async_errors-only-Chained peers [] h = tt
async_errors-only-Chained peers (a ∷ rest) h =
    let (up, l, k) = head_known peers a (first rest) (async_errors peers rest) h in
    let (e, f) =
      both_lists-nil (load_repl_errors peers up (first rest) (codes "async"))
        (async_errors peers rest) k in
    (
      (up, l, load_repl_errors-only-Feeds peers up (first rest) (codes "async") e),
      async_errors-only-Chained peers rest f,
    )
