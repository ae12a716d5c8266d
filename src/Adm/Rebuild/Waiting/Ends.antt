-- ===== src/Adm/Rebuild/Waiting/Ends.antt =====
-- lib/adm.js: when the wait of `rebuild` for the election ends, and with what.
use manatee.Base.{
  ℕ, ◌*◌, ◌≤◌, ◌<◌, Text, text_eq_iff, ◌≡◌, refl, ap, ◌≢◌, ◌⊎◌, inl, inr, List, [], ◌∷◌, ◌++◌,
  Option-cases, none, Bool, false, arith, Outcome, ok, err, lost, thrown, All,
}
use manatee.Base.Objects.{Object}
use manatee.Adm.Backfill.{LegacyNode}
use manatee.Adm.Rebuild.Waiting.{
  active_zk_node, Look, wait_inactive, gives_up, look_again, still_active,
}

-- No node of the election is of this zone.
abbrev pub NotListed : Text → Object LegacyNode → Type 0
NotListed zone nodes = All (λ e. e.1.zone_id ≢ zone) nodes

pub active_zk_node-NotListed :
    (zone : Text) (nodes : Object LegacyNode)
    → active_zk_node zone nodes ≡ none
    → NotListed zone nodes
unfolding active_zk_node
active_zk_node-NotListed zone [] h = tt
active_zk_node-NotListed zone ((name, n) ∷ nodes) h =
    ground (arith, text_eq_iff n.zone_id zone, active_zk_node-NotListed zone nodes)

-- The wait ends with the look `l`, which shows no node of the peer, and no look before was late.
pub record Inactive (zone : Text) (timeout : ℕ) (looks : List Look) : Type 0 where
  pub before : List Look
  pub last : Look
  pub behind : List Look
  pub nodes : Object LegacyNode
  pub whole : looks ≡ before ++ last ∷ behind
  pub read : last.nodes ≡ ok nodes
  pub gone : NotListed zone nodes
  pub in_time : All (λ l. 2000 * l.seconds ≤ 3 * timeout) before

look_again-ok :
    (zone : Text) (late : Bool) (more : Outcome Text (Unit {0}))
    (r : Outcome Text (Object LegacyNode))
    → look_again zone late more r ≡ ok tt
    → ((nodes : Object LegacyNode) × (r ≡ ok nodes) × (active_zk_node zone nodes ≡ none))
      ⊎ ((late ≡ false) × (more ≡ ok tt))
unfolding look_again still_active
look_again-ok zone late more (ok nodes) h = elim (Option-cases (active_zk_node zone nodes)) [
  | inl e ↦ inl (nodes, refl, e)
  | inr (n, e) ↦ inr (ground arith)
]
look_again-ok zone late more (err e) h = cc
look_again-ok zone late more lost h = cc
look_again-ok zone late more thrown h = cc

Inactive-later :
    (zone : Text) (timeout : ℕ) (l : Look) (looks : List Look)
    → gives_up timeout l.seconds ≡ false
    → Inactive zone timeout looks
    → Inactive zone timeout (l ∷ looks)
Inactive-later zone timeout l looks g i = record {
  before = l ∷ i.before;
  last = i.last;
  behind = i.behind;
  nodes = i.nodes;
  whole = ap (◌∷◌ l) i.whole;
  read = i.read;
  gone = i.gone;
  in_time = (ground arith, i.in_time);
}

-- A wait that ends well ends with a look that shows no node of the peer, and every look before it came
-- within one and a half session timeouts.
pub wait_inactive-Inactive :
    (zone : Text) (timeout : ℕ) (looks : List Look)
    → wait_inactive zone timeout looks ≡ ok tt
    → Inactive zone timeout looks
unfolding wait_inactive
wait_inactive-Inactive zone timeout [] h = cc
wait_inactive-Inactive zone timeout (l ∷ looks) h =
    elim (look_again-ok zone (gives_up timeout l.seconds) (wait_inactive zone timeout looks) l.nodes
      h) [
        | inl (nodes, r, n) ↦ record {
          before = [];
          last = l;
          behind = looks;
          nodes = nodes;
          whole = refl;
          read = r;
          gone = active_zk_node-NotListed zone nodes n;
          in_time = tt;
        }
        | inr (g, m) ↦
            Inactive-later zone timeout l looks g (wait_inactive-Inactive zone timeout looks m)
      ]

look_again-lost :
    (zone : Text) (late : Bool) (more : Outcome Text (Unit {0}))
    (r : Outcome Text (Object LegacyNode))
    → r ≢ lost
    → look_again zone late more r ≡ lost
    → (late ≡ false) × (more ≡ lost)
unfolding look_again still_active
look_again-lost zone late more (ok nodes) n h =
    ground (arith, Option-cases (active_zk_node zone nodes))
look_again-lost zone late more (err e) n h = cc
look_again-lost zone late more lost n h = absurd (n refl)
look_again-lost zone late more thrown n h = cc

-- If the reads of the election call back at every look, the wait ends, once a look comes later
-- than one and a half session timeouts.
pub wait_inactive-ends :
    (zone : Text) (timeout : ℕ) (before : List Look) (l : Look) (behind : List Look)
    → All (λ k. k.nodes ≢ lost) before
    → l.nodes ≢ lost
    → 3 * timeout < 2000 * l.seconds
    → wait_inactive zone timeout (before ++ l ∷ behind) ≢ lost
unfolding wait_inactive
wait_inactive-ends zone timeout [] l behind n m late = λ h.
    let (g, _) =
      look_again-lost zone (gives_up timeout l.seconds) (wait_inactive zone timeout behind) l.nodes
        m h in
    ground arith
wait_inactive-ends zone timeout (k ∷ before) l behind n m late = λ h.
    wait_inactive-ends zone timeout before l behind n.1 m late
      (look_again-lost zone (gives_up timeout k.seconds)
        (wait_inactive zone timeout (before ++ l ∷ behind)) k.nodes n.0 h).1
