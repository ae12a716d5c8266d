-- ===== src/Adm/Edits/Reap.antt =====
-- Which deposed peer is reaped.
use manatee.Base.{
  ℕ, suc, ◌+◌, Text, ◌≡◌, ap, Bool-cases, refl, List, [], ◌∷◌, ◌++◌, Option-cases, none, some, Bool,
  true, false, arith, ok, inl, inr, All,
}
use manatee.Adm.{Peer}
use manatee.Adm.Edits.{State, last_index, splice, is_meant, reap}

-- The list, cut at the last entry that passes.
pub record CutAtLast (p : Peer → Bool) (ds rest : List Peer) : Type 0 where
  pub before : List Peer
  pub found : Peer
  pub behind : List Peer
  pub whole : ds ≡ before ++ found ∷ behind
  pub left : rest ≡ before ++ behind
  pub passes : p found ≡ true
  pub last : All (λ d. p d ≡ false) behind

module _ (p : Peer → Bool) where
  last_index-none : (i : ℕ) (ds : List Peer) → last_index p i ds ≡ none → All (λ d. p d ≡ false) ds
  unfolding last_index
  last_index-none i [] h = tt
  last_index-none i (d ∷ ds) h = ground (arith, last_index-none (suc i) ds)

  CutAtLast-cons :
      (d : Peer) (ds rest : List Peer) → CutAtLast p ds rest → CutAtLast p (d ∷ ds) (d ∷ rest)
  CutAtLast-cons d ds rest c = record {
    before = d ∷ c.before;
    found = c.found;
    behind = c.behind;
    whole = ap (◌∷◌ d) c.whole;
    left = ap (◌∷◌ d) c.left;
    passes = c.passes;
    last = c.last;
  }

  pub last_index-cut :
      (k : ℕ) (ds : List Peer) (j : ℕ)
      → last_index p k ds ≡ some j
      → (i : ℕ) × (j ≡ i + k) × CutAtLast p ds (splice i ds)
  unfolding last_index splice
  last_index-cut k [] j h = absurd (ground arith)
  last_index-cut k (d ∷ ds) j h = elim (Option-cases (last_index p (suc k) ds)) [
    | inr (m, e) ↦
        let (i, f, c) = last_index-cut (suc k) ds m e in
        (suc i, ground arith, CutAtLast-cons d ds (splice i ds) c)
    | inl e ↦ elim (Bool-cases (p d)) [
      | inl y ↦ (
        0,
        ground arith,
        record {
          before = [];
          found = d;
          behind = ds;
          whole = refl;
          left = refl;
          passes = y;
          last = last_index-none (suc k) ds e;
        },
      )
      | inr n ↦ absurd (ground arith)
    ]
  ]

-- A reap that succeeds takes one peer off the list of deposed peers, the last one that has the zone name
-- or the address, keeps the others in their order, and changes nothing else.
pub reap-ok :
    (zonename ip : Text) (s t : State)
    → reap zonename ip s ≡ ok t
    → (ds : List Peer) × (rest : List Peer) × (s.deposed ≡ some ds)
      × (t ≡ record s { deposed = some rest })
      × CutAtLast (is_meant zonename ip) ds rest
unfolding reap
reap-ok zonename ip s t h = elim (Option-cases s.deposed) [
  | inl e ↦ absurd (ground arith)
  | inr (ds, e) ↦ elim (Option-cases (last_index (is_meant zonename ip) 0 ds)) [
    | inl f ↦ absurd (ground arith)
    | inr (j, f) ↦
        let (i, g, c) = last_index-cut (is_meant zonename ip) 0 ds j f in
        (ds, splice i ds, e, ground arith, c)
  ]
]
