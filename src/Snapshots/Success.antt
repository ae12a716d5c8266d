-- ===== src/Snapshots/Success.antt =====
-- What a cleanup that reports no error has done.
use native.Mathlib.Decide.{dec_lt}
use mathlib.Core.List.{append-nil, append_assoc}
use manatee.Base.{
  ℕ, zero, suc, codes, map, ◌+◌, ◌-◌, ◌≤◌, ◌<◌, Text, ◌≡◌, ◌⊎◌, inl, List, [], ◌∷◌, ◌++◌, none,
  arith, length, take, length-append, ok,
}
use manatee.Snapshots.{Cleanup, Deleter, attempt, delete_each, delete_snapshots, idle}
use manatee.Snapshots.Bounds.{idle-Going, delete_each-Complete, delete_each-Ended}

-- A cleanup that reports no error either had nothing to do, or has removed exactly the excess, or has
-- removed more snapshots than it is to keep; in the last case some of the excess may still be there.
delete_snapshots-ok :
    (delete : Deleter) (keep : ℕ) (snapshots : List Text)
    → 0 < keep
    → (delete_snapshots delete keep snapshots).0 ≡ ok tt
    → (length snapshots ≤ keep)
      ⊎ ((length (delete_snapshots delete keep snapshots).1.deleted ≡ length snapshots - keep)
          ⊎ (keep < length (delete_snapshots delete keep snapshots).1.deleted))
unfolding delete_snapshots
delete_snapshots-ok delete keep snapshots h k = elim (dec_lt keep (length snapshots)) [
  | yes over ↦
      let g = idle-Going delete (length snapshots) (length snapshots - keep) (omega arith) in
      ground (
        arith,
        delete_each-Ended delete (length snapshots) (length snapshots - keep) (omega arith)
            snapshots idle g,
        delete_each-Complete delete (length snapshots) (length snapshots - keep) (omega arith)
            snapshots idle g,
      )
  | no under ↦ inl (omega arith)
]

-- `zfs destroy`, of a snapshot.
abbrev pub destroying : Text → List Text
destroying s = codes "destroy" ∷ s ∷ []

-- Deletions that all succeed.
abbrev pub reliable : Deleter
reliable n s = record { ran = destroying s ∷ []; error = none }

reliable_round :
    (total excess : ℕ) (x : Text) (c : Cleanup)
    → length c.deleted < excess
    → attempt reliable total excess x c ≡ (
      ok tt,
      record c { deleted = c.deleted ++ x ∷ []; commands = c.commands ++ destroying x ∷ [] },
    )
unfolding attempt
reliable_round total excess x c h = ground arith

idle_round :
    (total excess : ℕ) (x : Text) (c : Cleanup)
    → excess ≤ length c.deleted
    → attempt reliable total excess x c ≡ (ok tt, c)
unfolding attempt
idle_round total excess x c h = ground arith

module _ (total excess : ℕ) where
  delete_each-reliable :
      (xs : List Text) (c : Cleanup) (n : ℕ)
      → length c.deleted + n ≡ excess
      → delete_each reliable total excess xs c ≡ (
        ok tt,
        record c {
          deleted = c.deleted ++ take n xs;
          commands = c.commands ++ map destroying (take n xs);
        },
      )
  unfolding delete_each
  delete_each-reliable [] c zero h = simp append-nil
  delete_each-reliable [] c (suc n) h = simp append-nil
  delete_each-reliable (x ∷ xs) c zero h =
      rw (idle_round total excess x c (omega arith)) (delete_each-reliable xs c 0 h)
  delete_each-reliable (x ∷ xs) c (suc n) h = rw (reliable_round total excess x c (omega arith)) (
      rw
        (
          append_assoc c.deleted (x ∷ []) (take n xs),
          append_assoc c.commands (destroying x ∷ []) (map destroying (take n xs)),
        )
        at
        (delete_each-reliable xs
          (record c { deleted = c.deleted ++ x ∷ []; commands = c.commands ++ destroying x ∷ [] }) n
          (omega (arith, length-append c.deleted (x ∷ [])))))

-- If every deletion succeeds, a cleanup removes exactly the excess, oldest first, and reports no error.
pub delete_snapshots-oldest :
    (keep : ℕ) (snapshots : List Text)
    → delete_snapshots reliable keep snapshots ≡ (
      ok tt,
      record idle {
        deleted = take (length snapshots - keep) snapshots;
        commands = map destroying (take (length snapshots - keep) snapshots);
      },
    )
unfolding delete_snapshots
delete_snapshots-oldest keep snapshots = ground (
  arith,
  delete_each-reliable (length snapshots) (length snapshots - keep) snapshots idle
      (length snapshots - keep) (omega arith),
)
