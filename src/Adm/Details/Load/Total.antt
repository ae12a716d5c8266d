-- ===== src/Adm/Details/Load/Total.antt =====
-- For which cluster states `loadClusterDetails` gives a summary.
use mathlib.Core.Option
use manatee.Base.{
  Text, text_eq, text_eq_iff, ◌≡◌, refl, ◌≢◌, ◌⊎◌, inl, inr, ◌↔◌, List, [], ◌∷◌, map, Option,
  Option-cases, none, some, Bool, Bool-cases, true, false, arith, ok, thrown, All,
}
use manatee.Base.Objects.{Object, lookup-insert}
use manatee.Adm.{ShardState}
use manatee.Adm.Edits.{State}
use manatee.Adm.History.{is_on}
use manatee.Adm.Details.{Repl, Detail, Details, load_errors}
use manatee.Adm.Details.Status.{
  Lag, PeerInfo, Answer, primary, sync, async, each_peer, ask, unasked, unfetched,
  add_postgres_status, fill_empty_postgres_status,
}
use manatee.Adm.Details.Load.{
  detail, load_peer, load_peers, load_sync, load_deposed, details_of, construct,
  load_cluster_details, with_report,
}
use manatee.Adm.Details.Runs.{Known, Runs, load_errors-Runs, null_sync_throws}

module _ (verror : Option Text → Text → List Text → Text) where
  load_peer-own :
      (p : PeerInfo) (peers : Object Detail) → Known (load_peer verror p peers) p.ident.id
  unfolding load_peer
  load_peer-own p peers = (detail verror p, grind (arith, lookup-insert, text_eq_iff))

  load_peer-keeps :
      (p : PeerInfo) (peers : Object Detail) (id : Text)
      → Known peers id
      → Known (load_peer verror p peers) id
  unfolding load_peer
  load_peer-keeps p peers id (d, l) = elim (Bool-cases (text_eq p.ident.id id)) [
    | inl e ↦ (detail verror p, grind (arith, lookup-insert, e))
    | inr e ↦ (d, grind (arith, lookup-insert, e, l))
  ]

  load_peers-keeps :
      (ps : List PeerInfo) (peers : Object Detail) (id : Text)
      → Known peers id
      → Known (load_peers verror ps peers) id
  unfolding load_peers
  load_peers-keeps [] peers id k = k
  load_peers-keeps (p ∷ ps) peers id k =
      load_peers-keeps ps (load_peer verror p peers) id (load_peer-keeps p peers id k)

  load_peers-own :
      (ps : List PeerInfo) (peers : Object Detail)
      → All (Known (load_peers verror ps peers)) (map (λ q. q.ident.id) ps)
  unfolding load_peers
  load_peers-own [] peers = tt
  load_peers-own (p ∷ ps) peers = (
    load_peers-keeps ps (load_peer verror p peers) p.ident.id (load_peer-own p peers),
    load_peers-own ps (load_peer verror p peers),
  )

  load_deposed-keeps :
      (ds : Option (List PeerInfo)) (peers : Object Detail) (id : Text)
      → Known peers id
      → Known (load_deposed verror ds peers) id
  unfolding load_deposed
  load_deposed-keeps none peers id k = k
  load_deposed-keeps (some ps) peers id k = load_peers-keeps ps peers id k

-- There is a primary and a list of asyncs, and a sync unless the shard is in one-node-write mode.
abbrev pub Complete : {P : Type 0} → ShardState P → Type 0
Complete s =
    (s.primary ≢ none)
    × (s.asyncs ≢ none)
    × ((is_on s.one_node_write_mode ≡ true) ⊎ (s.sync ≢ none))

map_some : {A B : Type 0} (f : A → B) (o : Option A) → (o ≢ none) ↔ (Option.map f o ≢ none)
map_some f none = (λ n. absurd (n refl), λ n. absurd (n refl))
map_some f (some a) = (λ n. λ e. cc, λ n. λ e. cc)

each_peer-Complete :
    {P Q : Type 0} (f g h k : P → Q) (s : ShardState P)
    → Complete s ↔ Complete (each_peer f g h k s)
unfolding each_peer
each_peer-Complete f g h k s =
    let (p, p') = map_some f s.primary in
    let (q, q') = map_some g s.sync in
    let (a, a') = map_some (map h) s.asyncs in
    (
      λ (n, m, o). (p n, a m, elim o [ inl e ↦ inl e | inr r ↦ inr (q r) ]),
      λ (n, m, o). (p' n, a' m, elim o [ inl e ↦ inl e | inr r ↦ inr (q' r) ]),
    )

module _ (verror : Option Text → Text → List Text → Text) where
  load_sync-own :
      (s : Option PeerInfo) (peers : Object Detail) (q : Text)
      → Option.map (λ p. p.ident.id) s ≡ some q
      → Known (load_sync verror s peers) q
  unfolding load_sync load_peer
  load_sync-own none peers q e = cc
  load_sync-own (some p) peers q e = (detail verror p, grind (arith, lookup-insert, text_eq_iff))

  load_sync-keeps :
      (s : Option PeerInfo) (peers : Object Detail) (id : Text)
      → Known peers id
      → Known (load_sync verror s peers) id
  unfolding load_sync
  load_sync-keeps none peers id k = k
  load_sync-keeps (some p) peers id k = load_peer-keeps verror p peers id k

  load_deposed-keeps_each :
      (ds : Option (List PeerInfo)) (peers : Object Detail) (ids : List Text)
      → All (Known peers) ids
      → All (Known (load_deposed verror ds peers)) ids
  load_deposed-keeps_each ds peers [] k = tt
  load_deposed-keeps_each ds peers (id ∷ ids) (k, ks) =
      (load_deposed-keeps verror ds peers id k, load_deposed-keeps_each ds peers ids ks)

  details_of-Runs :
      (s : ShardState PeerInfo) (p : PeerInfo) (ps : List PeerInfo)
      → (is_on s.one_node_write_mode ≡ true) ⊎ (s.sync ≢ none)
      → Runs (load_errors (details_of verror s p ps))
  unfolding details_of
  details_of-Runs s p ps m =
      let one = load_peer verror p [] in
      let two = load_sync verror s.sync one in
      let three = load_peers verror ps two in
      load_errors-Runs (details_of verror s p ps)
        (load_deposed-keeps verror s.deposed three p.ident.id (
          load_peers-keeps verror ps two p.ident.id
            (load_sync-keeps s.sync one p.ident.id (load_peer-own verror p []))))
        (λ q e.
          load_deposed-keeps verror s.deposed three q
            (load_peers-keeps verror ps two q (load_sync-own s.sync one q e)))
        (load_deposed-keeps_each s.deposed three (map (λ q. q.ident.id) ps)
          (load_peers-own verror ps two))
        (elim m [ inl e ↦ inl e | inr n ↦ inr ((map_some (λ q. q.ident.id) s.sync).0 n) ])

  with_report-Runs : (c : Details) → Runs (load_errors c) → Runs (with_report verror (ok c))
  unfolding with_report
  with_report-Runs c (r, h) = ((c, r), rw (with_report, h) refl)

  construct_whole :
      (s : ShardState PeerInfo) (p : PeerInfo) (ps : List PeerInfo)
      → s.primary ≡ some p
      → s.asyncs ≡ some ps
      → construct verror s ≡ ok (details_of verror s p ps)
  unfolding construct
  construct_whole s p ps e f = ground arith

  summary-Complete :
      (s : ShardState PeerInfo) → Complete s → Runs (with_report verror (construct verror s))
  summary-Complete s (hp, ha, m) = elim (Option-cases s.primary) [
    | inl e ↦ absurd (hp e)
    | inr (p, e) ↦ elim (Option-cases s.asyncs) [
      | inl f ↦ absurd (ha f)
      | inr (ps, f) ↦
          rw (construct_whole s p ps e f)
            (with_report-Runs (details_of verror s p ps) (details_of-Runs s p ps m))
    ]
  ]

  summary_throws :
      (s : ShardState PeerInfo) (p : PeerInfo) (ps : List PeerInfo)
      → s.primary ≡ some p
      → s.asyncs ≡ some ps
      → is_on s.one_node_write_mode ≡ false
      → s.sync ≡ none
      → with_report verror (construct verror s) ≡ thrown
  unfolding details_of with_report
  summary_throws s p ps e f m n =
      rw
        (
          construct_whole s p ps e f,
          with_report,
          null_sync_throws (details_of verror s p ps) m (rw (n) refl),
        )
        refl

  summary-only-Complete :
      (s : ShardState PeerInfo) → Runs (with_report verror (construct verror s)) → Complete s
  unfolding with_report construct
  summary-only-Complete s (r, h) = elim (Option-cases s.primary) [
    | inl e ↦ ground arith
    | inr (p, e) ↦ elim (Option-cases s.asyncs) [
      | inl f ↦ ground arith
      | inr (ps, f) ↦ (
        λ n. cc,
        λ n. cc,
        elim (Bool-cases (is_on s.one_node_write_mode)) [
          | inl m ↦ inl m
          | inr m ↦ inr (λ n. let t = summary_throws s p ps e f m n in cc)
        ],
      )
    ]
  ]

  -- `loadClusterDetails` gives a summary of a cluster state, whatever postgres answers and also when it is
  -- not asked, exactly if the state has a primary, a list of asyncs and, unless it is in one-node-write
  -- mode, a sync.
  pub load_cluster_details_iff :
      (skip_postgres : Bool) (repl : Text → Answer Repl) (lag : Text → Answer Lag) (s : State)
      → Runs (load_cluster_details verror skip_postgres repl lag s) ↔ Complete s
  unfolding load_cluster_details add_postgres_status fill_empty_postgres_status
  load_cluster_details_iff true repl lag s =
      let (back, on) = each_peer-Complete unfetched unfetched unfetched unfetched s in
      let t = each_peer unfetched unfetched unfetched unfetched s in
      (λ r. on (summary-only-Complete t r), λ r. summary-Complete t (back r))
  load_cluster_details_iff false repl lag s =
      let role = ask repl lag in
      let (back, on) = each_peer-Complete (role primary) (role sync) (role async) unasked s in
      let t = each_peer (role primary) (role sync) (role async) unasked s in
      (λ r. on (summary-only-Complete t r), λ r. summary-Complete t (back r))
