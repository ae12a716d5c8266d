-- ===== src/Adm/Details/Runs.antt =====
-- lib/adm.js: when the checks of `loadErrors` end with a list of problems.
use manatee.Base.{
  Text, codes, ◌≡◌, refl, ◌≢◌, ◌⊎◌, inl, inr, List, [], ◌∷◌, ◌++◌, Option, Option-cases, none, some,
  Bool-cases, true, false, arith, Outcome, ok, thrown, All,
}
use manatee.Base.Objects.{Object, lookup}
use manatee.Adm.Details.{
  Repl, Detail, Details, Problem, load_repl_errors, async_errors, load_errors, first, repl_errors,
  both_lists, with_chain, sync_errors, with_peers, find, topology_warnings, unreachable_primary,
}

-- The peer has an entry.
abbrev pub Known : Object Detail → Text → Type 0
Known peers id = (d : Detail) × (lookup id peers ≡ some d)

-- The check ends with a list of problems.
abbrev pub Runs : {A : Type 0} → Outcome Text A → Type 0
Runs {A} r = (a : A) × (r ≡ ok a)

repl_errors-Runs :
    (up down : Detail) (kind : Text) (r : Option Repl) → Runs (repl_errors up (some down) kind r)
unfolding repl_errors
repl_errors-Runs up down kind none = (_, refl)
repl_errors-Runs up down kind (some r) = (_, refl)

load_repl_errors-Runs :
    (peers : Object Detail) (up : Detail) (id : Option Text) (kind : Text)
    → ((q : Text) → id ≡ some q → Known peers q)
    → Runs (load_repl_errors peers up id kind)
unfolding load_repl_errors
load_repl_errors-Runs peers up none kind k = ([], refl)
load_repl_errors-Runs peers up (some id) kind k =
    let (d, l) = k id refl in let (ps, h) = repl_errors-Runs up d kind up.repl in (ps, rw (l) h)

both_lists-Runs : (r q : Outcome Text (List Problem)) → Runs r → Runs q → Runs (both_lists r q)
unfolding both_lists
both_lists-Runs r q (ps, h) (qs, k) = (ps ++ qs, rw (h, k) refl)

first-Known :
    (peers : Object Detail) (ids : List Text)
    → All (Known peers) ids
    → (q : Text) → first ids ≡ some q
    → Known peers q
first-Known peers [] k q e = cc
first-Known peers (a ∷ ids) ((d, l), _) q e = (d, ground (arith, l))

async_errors-Runs :
    (peers : Object Detail) (ids : List Text)
    → All (Known peers) ids
    → Runs (async_errors peers ids)
unfolding async_errors
async_errors-Runs peers [] k = ([], refl)
async_errors-Runs peers (a ∷ rest) ((d, l), k) =
    rw (async_errors, l)
      (both_lists-Runs (load_repl_errors peers d (first rest) (codes "async"))
        (async_errors peers rest)
        (load_repl_errors-Runs peers d (first rest) (codes "async") (first-Known peers rest k))
        (async_errors-Runs peers rest k))

with_chain-Runs :
    (errors warnings : List Problem) (p q : Outcome Text (List Problem))
    → Runs p
    → Runs q
    → Runs (with_chain errors warnings p q)
unfolding with_chain
with_chain-Runs errors warnings p q (ps, h) (qs, k) =
    (record { errors = errors ++ ps; warnings = warnings ++ qs }, rw (h, k) refl)

sync_errors-Runs :
    (c : Details) (p s : Detail)
    → ((q : Text) → c.sync ≡ some q → Known c.peers q)
    → All (Known c.peers) c.asyncs
    → Runs (sync_errors c p s)
unfolding sync_errors load_repl_errors
sync_errors-Runs c p s ks ka = elim (Option-cases s.pg_error) [
  | inr (e, f) ↦ rw (f) (_, refl)
  | inl f ↦ rw (f) (
      with_chain-Runs (unreachable_primary p.pg_error) (topology_warnings c.deposed c.asyncs)
        (load_repl_errors c.peers p c.sync (codes "sync"))
        (both_lists (load_repl_errors c.peers s (first c.asyncs) (codes "async"))
          (async_errors c.peers c.asyncs))
        (load_repl_errors-Runs c.peers p c.sync (codes "sync") ks)
        (both_lists-Runs (load_repl_errors c.peers s (first c.asyncs) (codes "async"))
          (async_errors c.peers c.asyncs)
          (load_repl_errors-Runs c.peers s (first c.asyncs) (codes "async")
            (first-Known c.peers c.asyncs ka))
          (async_errors-Runs c.peers c.asyncs ka)))
]

pub load_errors-Runs :
    (c : Details)
    → Known c.peers c.primary
    → ((q : Text) → c.sync ≡ some q → Known c.peers q)
    → All (Known c.peers) c.asyncs
    → (c.singleton ≡ true) ⊎ (c.sync ≢ none)
    → Runs (load_errors c)
unfolding load_errors with_peers find
load_errors-Runs c (p, lp) ks ka m = elim (Bool-cases c.singleton) [
  | inl e ↦ rw (lp, e) (_, refl)
  | inr e ↦ elim (Option-cases c.sync) [
    | inl n ↦ elim m [ inl t ↦ cc | inr some_sync ↦ absurd (some_sync n) ]
    | inr (q, f) ↦ let (s, ls) = ks q f in rw (lp, e, f, ls) (sync_errors-Runs c p s ks ka)
  ]
]

pub null_sync_throws : (c : Details) → c.singleton ≡ false → c.sync ≡ none → load_errors c ≡ thrown
unfolding load_errors with_peers find
null_sync_throws c e n = ground (arith, Option-cases (lookup c.primary c.peers))
