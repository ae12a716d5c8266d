-- ===== src/Adm/Rebuild/Watching/Online.antt =====
-- lib/adm.js: how the watch of `rebuild` over the sitter ends.
use mathlib.Core.List.{Mem, mem-cons_self, mem-cons_of_mem}
use manatee.Base.{
  ◌≤◌, Text, text_eq_iff, ◌≡◌, refl, subst, ◌⊎◌, inl, inr, List, [], ◌∷◌, Option, Option-cases,
  none, some, Bool, Bool-cases, true, arith, Outcome, ok, err, lost, thrown,
}
use manatee.Adm.{ShardState}
use manatee.Adm.Details.Status.{PeerInfo}
use manatee.Adm.Rebuild.Watching.{
  Restore, Found, Watch, restore_retries, current_peer, is_online, note_restore, noted, go_on,
  last_async, in_asyncs, is_zone, watch_sitter,
}

last_async-zone :
    (zone : Text) (ps : List PeerInfo) (p : PeerInfo)
    → last_async zone ps ≡ some p
    → p.ident.zone_id ≡ zone
unfolding last_async is_zone
last_async-zone zone [] p h = cc
last_async-zone zone (q ∷ ps) p h = elim (Option-cases (last_async zone ps)) [
  | inl e ↦ ground (arith, text_eq_iff q.ident.zone_id zone)
  | inr (r, e) ↦ let same = last_async-zone zone ps r e in ground (arith, same)
]

in_asyncs-zone :
    (zone : Text) (ps : Option (List PeerInfo)) (p : PeerInfo)
    → in_asyncs zone ps ≡ some p
    → p.ident.zone_id ≡ zone
unfolding in_asyncs
in_asyncs-zone zone none p h = cc
in_asyncs-zone zone (some ps) p h = last_async-zone zone ps p h

-- The current peer is one of the zone.
pub current_peer-zone :
    (zone : Text) (s : ShardState PeerInfo) (p : PeerInfo)
    → current_peer zone s ≡ some p
    → p.ident.zone_id ≡ zone
unfolding current_peer is_zone
current_peer-zone zone s p h = elim (Option-cases s.sync) [
  | inl e ↦ in_asyncs-zone zone s.asyncs p (ground arith)
  | inr (q, e) ↦ elim (Bool-cases (is_zone zone q)) [
    | inl z ↦ ground (arith, text_eq_iff q.ident.zone_id zone)
    | inr z ↦ in_asyncs-zone zone s.asyncs p (ground arith)
  ]
]

note_restore-bound :
    (w v : Watch) (r : Option Restore)
    → w.restore_try ≤ restore_retries
    → note_restore w r ≡ ok v
    → v.restore_try ≤ restore_retries
unfolding note_restore
note_restore-bound w v r b h = ground arith

noted-bound :
    (w v : Watch) (r : Outcome Text (Option Restore))
    → w.restore_try ≤ restore_retries
    → noted w r ≡ ok v
    → v.restore_try ≤ restore_retries
unfolding noted
noted-bound w v (ok r) b h = note_restore-bound w v r b h
noted-bound w v (err e) b h = cc
noted-bound w v lost b h = cc
noted-bound w v thrown b h = cc

go_on-ok :
    (r : Outcome Text Watch) (up : Bool) (more : Watch → Outcome Text Watch) (v : Watch)
    → go_on r up more ≡ ok v
    → (u : Watch) × (r ≡ ok u) × (((up ≡ true) × (u ≡ v)) ⊎ (more u ≡ ok v))
unfolding go_on
go_on-ok (ok u) up more v h = (u, refl, ground arith)
go_on-ok (err e) up more v h = cc
go_on-ok lost up more v h = cc
go_on-ok thrown up more v h = cc

online_peer :
    (o : Option PeerInfo)
    → is_online o ≡ true
    → (p : PeerInfo) × (o ≡ some p) × (p.online ≡ some true)
online_peer none h = cc
online_peer (some p) h = (p, refl, ground arith)

-- The watch ends well only when a poll finds the peer online, as the sync or an async, and while the
-- restores that were begun are no more than are allowed.
pub watch_sitter-ok :
    (zone : Text) (polls : List (Outcome Text Found)) (w v : Watch)
    → w.restore_try ≤ restore_retries
    → watch_sitter zone polls w ≡ ok v
    → (v.restore_try ≤ restore_retries)
      × ((f : Found) × (p : PeerInfo) × Mem (ok f) polls
          × (current_peer zone f.cluster ≡ some p)
          × (p.online ≡ some true))
unfolding watch_sitter
watch_sitter-ok zone [] w v b h = cc
watch_sitter-ok zone (err e ∷ polls) w v b h = cc
watch_sitter-ok zone (lost ∷ polls) w v b h = cc
watch_sitter-ok zone (thrown ∷ polls) w v b h = cc
watch_sitter-ok zone (ok f ∷ polls) w v b h =
    let (u, e, next) =
      go_on-ok (noted w f.answer) (is_online (current_peer zone f.cluster))
        (watch_sitter zone polls) v h in
    let bound = noted-bound w u f.answer b e in
    elim next [
      | inl (o, same) ↦
          let (p, q, up) = online_peer (current_peer zone f.cluster) o in
          (subst (λ x. x.restore_try ≤ restore_retries) same bound, (f, p, mem-cons_self, q, up))
      | inr more ↦
          let (c, (g, p, m, q, up)) = watch_sitter-ok zone polls u v bound more in
          (c, (g, p, mem-cons_of_mem (ok f) m, q, up))
    ]
