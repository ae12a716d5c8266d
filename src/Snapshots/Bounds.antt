-- ===== src/Snapshots/Bounds.antt =====
-- How many snapshots a cleanup removes, and at which level it complains.
use native.Mathlib.Decide.{dec_lt}
use manatee.Base.{
  ℕ, suc, ◌+◌, ◌-◌, ◌≤◌, ◌<◌, Text, ◌≡◌, refl, ◌≢◌, ◌⊎◌, inl, inr, List, [], ◌∷◌, arith, length,
  length-append, Outcome, Outcome-cases, after-of_ok, after-of_ne, ok,
}
use manatee.Snapshots.{
  Cleanup, quiet, error, fatal, Deleter, attempt, delete_each, delete_snapshots, idle,
}

-- How many deletions were tried.
abbrev pub tried : Cleanup → ℕ
tried c = length c.deleted + length c.stuck

module _ (delete : Deleter) (total excess : ℕ) where
  -- A cleanup under way.
  pub record Going (c : Cleanup) : Type 0 where
    pub few : length c.deleted ≤ excess
    pub slack : length c.stuck < excess
    pub calm : c.level ≡ quiet

  -- A cleanup that has ended.
  pub record Ended (r : Outcome Text (Unit {0}) × Cleanup) : Type 0 where
    pub few : length r.1.deleted ≤ excess
    pub not_fatal : r.1.level ≢ fatal
    pub won : r.0 ≡ ok tt → (length r.1.stuck < excess) × (r.1.level ≡ quiet)
    pub failed : r.0 ≢ ok tt → (length r.1.stuck ≡ excess) × (r.1.level ≡ error)

  abbrev pub Complete : ℕ → Cleanup → Type 0
  Complete n c = (length c.deleted ≡ excess) ⊎ (tried c ≡ n)

  weaken : (m n k : ℕ) (c : Cleanup) → m ≡ suc k → Complete (m + n) c → Complete (k + suc n) c
  weaken m n k c h (inl f) = inl f
  weaken m n k c h (inr p) = inr (omega arith)

  module _ (spare : excess < total) where
    attempt-ok :
        (s : Text) (c : Cleanup)
        → Going c
        → (attempt delete total excess s c).0 ≡ ok tt
        → Going (attempt delete total excess s c).1
          × Complete (suc (tried c)) (attempt delete total excess s c).1
    unfolding attempt
    attempt-ok s c g h =
        ground (arith, length-append c.deleted (s ∷ []), length-append c.stuck (s ∷ []))

    attempt-Ended :
        (s : Text) (c : Cleanup)
        → Going c
        → (attempt delete total excess s c).0 ≢ ok tt
        → Ended (attempt delete total excess s c)
    unfolding attempt
    attempt-Ended s c g h =
        ground (arith, length-append c.deleted (s ∷ []), length-append c.stuck (s ∷ []))

    pub delete_each-Ended :
        (xs : List Text) (c : Cleanup) → Going c → Ended (delete_each delete total excess xs c)
    unfolding delete_each
    delete_each-Ended [] c g = ground arith
    delete_each-Ended (x ∷ xs) c g = elim (Outcome-cases (attempt delete total excess x c).0) [
      | inl h ↦
          rw
            (after-of_ok (λ _. delete_each delete total excess xs) (attempt delete total excess x c)
              h)
            (delete_each-Ended xs (attempt delete total excess x c).1 (attempt-ok x c g h).0)
      | inr h ↦
          rw
            (after-of_ne (λ _. delete_each delete total excess xs) (attempt delete total excess x c)
              h)
            (attempt-Ended x c g h)
    ]

    -- Once enough snapshots are gone the other rounds do nothing.
    pub delete_each-full :
        (xs : List Text) (c : Cleanup)
        → length c.deleted ≡ excess
        → delete_each delete total excess xs c ≡ (ok tt, c)
    unfolding delete_each attempt
    delete_each-full [] c h = refl
    delete_each-full (x ∷ xs) c h = ground (arith, delete_each-full xs c h)

    pub delete_each-Complete :
        (xs : List Text) (c : Cleanup)
        → Going c
        → (delete_each delete total excess xs c).0 ≡ ok tt
        → Complete (tried c + length xs) (delete_each delete total excess xs c).1
    unfolding delete_each
    delete_each-Complete [] c g h = ground arith
    delete_each-Complete (x ∷ xs) c g h = elim (Outcome-cases (attempt delete total excess x c).0) [
      | inl k ↦
          let e =
            after-of_ok (λ _. delete_each delete total excess xs) (attempt delete total excess x c)
              k in
          let (g', done) = attempt-ok x c g k in
          rw e (elim done [
            | inl full ↦
                inl (rw (delete_each-full xs (attempt delete total excess x c).1 full) full)
            | inr more ↦
                weaken _ _ _
                  (delete_each delete total excess xs (attempt delete total excess x c).1).1 more
                  (delete_each-Complete xs (attempt delete total excess x c).1 g' (rw e at h))
          ])
      | inr k ↦ absurd (
          k (
            rw
              (after-of_ne (λ _. delete_each delete total excess xs)
                (attempt delete total excess x c) k)
              at h))
    ]

pub idle-Going : (delete : Deleter) (total excess : ℕ) → 0 < excess → Going delete total excess idle
idle-Going delete total excess h = record { few = omega arith; slack = h; calm = refl }

-- A cleanup that is to keep at least one snapshot never deletes more than the excess, never logs a
-- fatal error, and fails only when as many deletions failed as there are snapshots in excess.
pub delete_snapshots_bounds :
    (delete : Deleter) (keep : ℕ) (snapshots : List Text)
    → 0 < keep
    → (length (delete_snapshots delete keep snapshots).1.deleted ≤ length snapshots - keep)
      × ((delete_snapshots delete keep snapshots).1.level ≢ fatal)
      × ((delete_snapshots delete keep snapshots).0 ≢ ok tt
          → (length (delete_snapshots delete keep snapshots).1.stuck ≡ length snapshots - keep)
            × ((delete_snapshots delete keep snapshots).1.level ≡ error))
unfolding delete_snapshots
delete_snapshots_bounds delete keep snapshots h = elim (dec_lt keep (length snapshots)) [
  | yes over ↦ ground (
    arith,
    delete_each-Ended delete (length snapshots) (length snapshots - keep) (omega arith) snapshots
        idle (idle-Going delete (length snapshots) (length snapshots - keep) (omega arith)),
  )
  | no under ↦ ground arith
]
