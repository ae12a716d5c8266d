-- ===== src/Adm/Rebuild/Safety.antt =====
-- lib/adm.js: what `rebuild` makes sure of before it deletes data or writes the state.
use manatee.Base.{
  ap, ◌∙◌, sym, subst, text_eq, ℕ, Text, ◌≡◌, ◌≢◌, ◌⊎◌, inl, inr, List, [], ◌∷◌, Option,
  Option-cases, none, some, arith, ok,
}
use manatee.Base.Objects.{Object}
use manatee.Host.{Host, rm_contents, Succeeded}
use manatee.Adm.{Peer}
use manatee.Adm.Edits.{State, splice}
use manatee.Adm.Edits.Reap.{CutAtLast, last_index-cut}
use manatee.Adm.Backfill.{LegacyNode}
use manatee.Adm.Rebuild.Waiting.Ends.{NotListed}
use manatee.Adm.Rebuild.{
  Config, Scene, Trail, check_deposed, prompt_confirm, replace_data, rebuild, remove_from_deposed,
  put_state, without,
}
use manatee.Adm.Rebuild.Steps.{nothing_done, rebuild-Done}

-- The peer is not the primary and, unless it is deposed, has no node in the election, and the user agreed.
abbrev pub Allowed : Config → Scene → State → Type 0
Allowed config scene s =
    (scene.state ≡ ok s)
    × ((p : Peer) × (s.primary ≡ some p) × (p.zone_id ≢ config.zone_id))
    × (prompt_confirm scene.prompt ≡ ok tt)
    × ((nodes : Object LegacyNode) × (scene.active ≡ ok nodes)
        × (NotListed config.zone_id nodes ⊎ (check_deposed config.zone_id s ≢ none)))

-- What was sent to ZooKeeper: nothing, or the state with the deposed entry removed, after the deletion.
abbrev Sent : Config → State → Option ℕ → Trail → Type 0
Sent config s index t =
    (t.sent ≡ [])
    ⊎ ((i : ℕ) × (index ≡ some i)
        × (t.sent ≡ without i s ∷ [])
        × Succeeded (rm_contents config.data_dir) t.log)

replace_data-Sent :
    (config : Config) (host : Host) (scene : Scene) (s : State) (index : Option ℕ)
    → Sent config s index (replace_data config host scene (s, index) nothing_done).1
unfolding replace_data remove_from_deposed put_state
replace_data-Sent config host scene s none = ground arith
replace_data-Sent config host scene s (some i) = ground arith

without-CutAtLast :
    (zone : Text) (s : State) (i : ℕ)
    → check_deposed zone s ≡ some i
    → (ds : List Peer) × (rest : List Peer) × (s.deposed ≡ some ds)
      × (without i s ≡ record s { deposed = some rest })
      × CutAtLast (λ d. text_eq d.zone_id zone) ds rest
unfolding check_deposed without
without-CutAtLast zone s i h = elim (Option-cases s.deposed) [
  | inl e ↦ ground arith
  | inr (ds, e) ↦
      let (j, q, c) = last_index-cut (λ d. text_eq d.zone_id zone) 0 ds i (ground arith) in
      (
        ds,
        splice i ds,
        e,
        ground arith,
        subst (λ k. CutAtLast (λ d. text_eq d.zone_id zone) ds (splice k ds)) (omega (arith, q)) c,
      )
]

-- `rebuild` writes the cluster state only of a deposed peer, once, after its data was deleted; the state
-- it writes is the one it read, with the last entry of this zone taken off the list of deposed peers.
pub rebuild-removes :
    (config : Config) (host : Host) (scene : Scene)
    → let t = (rebuild config host scene nothing_done).1 in
      t.sent ≢ []
      → (s : State) × (ds : List Peer) × (rest : List Peer) × (scene.state ≡ ok s)
        × (s.deposed ≡ some ds)
        × (t.sent ≡ record s { deposed = some rest } ∷ [])
        × CutAtLast (λ d. text_eq d.zone_id config.zone_id) ds rest
        × Succeeded (rm_contents config.data_dir) t.log
rebuild-removes config host scene h = elim (rebuild-Done config host scene) [
  | inl e ↦ absurd (h (ap (λ t. t.sent) e))
  | inr (s, index, (r, _, i, _, _), e) ↦
      elim (subst (Sent config s index) (sym e) (replace_data-Sent config host scene s index)) [
        | inl f ↦ absurd (h f)
        | inr (k, q, f, d) ↦
            let (ds, rest, g, w, c) = without-CutAtLast config.zone_id s k (sym i ∙ q) in
            (s, ds, rest, r, g, f ∙ ap (λ x. x ∷ []) w, c, d)
      ]
]
