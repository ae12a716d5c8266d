-- ===== src/Snapshots/Daemon/Newest.antt =====
-- lib/snapShotter.js: what a cleanup does to a dataset whose zfs does as it is told.
use manatee.Base.{
  ℕ, suc, map, ◌+◌, ◌-◌, Text, codes, ◌≡◌, refl, sym, ap, ◌∙◌, List, [], ◌∷◌, ◌++◌, none, some, err,
  true, false, All, Outcome-cases, after-of_ok, after-of_ne, length, take, ok, inl, inr,
  if◌then◌else◌,
}
use manatee.Base.Texts.{split}
use manatee.Base.Texts.Splits.{Without, split-part}
use manatee.Snapshots.{
  get_snapshots, is_manatee_snapshot, Cleanup, Deleter, attempt, delete_each, delete_snapshots,
  idle,
}
use manatee.Snapshots.Success.{reliable, destroying, delete_snapshots-oldest}
use manatee.Snapshots.Daemon.{
  Config, Zfs, Daemon, is_snapshot, exec_zfs, list_args, list_and_delete, delete_listed, cleanup,
  deleter, delete_snapshot, on_end,
}
use manatee.Snapshots.Daemon.Own.{IsOwn, get_snapshots-IsOwn}

-- The listing of the snapshots, each on a line.
abbrev pub unlines : List Text → Text
unlines [] = []
unlines (l ∷ lines) = l ++ b'\n' ∷ unlines lines

get_snapshots-unlines :
    (lines : List Text)
    → All (Without b'\n') lines
    → get_snapshots (split b'\n' (unlines lines)) ≡ get_snapshots lines
unfolding get_snapshots split is_manatee_snapshot
get_snapshots-unlines [] h = refl
get_snapshots-unlines (l ∷ lines) h =
    ap get_snapshots (split-part b'\n' l (unlines lines) h.0)
    ∙ ap (λ rest. if is_manatee_snapshot l then l ∷ rest else rest)
        (get_snapshots-unlines lines h.1)

-- Two deleters that agree on the snapshots do the same.
abbrev Alike : Deleter → Deleter → List Text → Type 0
Alike f g = All (λ s. (k : ℕ) → f k s ≡ g k s)

attempt-Alike :
    (f g : Deleter) (total excess : ℕ) (s : Text) (c : Cleanup)
    → ((k : ℕ) → f k s ≡ g k s)
    → attempt f total excess s c ≡ attempt g total excess s c
unfolding attempt
attempt-Alike f g total excess s c h = rw (h (length c.deleted + length c.stuck)) refl

delete_each-Alike :
    (f g : Deleter) (total excess : ℕ) (xs : List Text) (c : Cleanup)
    → Alike f g xs
    → delete_each f total excess xs c ≡ delete_each g total excess xs c
unfolding delete_each
delete_each-Alike f g total excess [] c h = refl
delete_each-Alike f g total excess (x ∷ xs) c h =
    let r = attempt g total excess x c in
    let next = λ (d : Deleter) (_ : Unit {0}). delete_each d total excess xs in
    rw (attempt-Alike f g total excess x c h.0) (elim (Outcome-cases r.0) [
      | inl e ↦
          after-of_ok (next f) r e
          ∙ delete_each-Alike f g total excess xs r.1 h.1
          ∙ sym (after-of_ok (next g) r e)
      | inr e ↦ after-of_ne (next f) r e ∙ sym (after-of_ne (next g) r e)
    ])

delete_snapshots-Alike :
    (f g : Deleter) (keep : ℕ) (xs : List Text)
    → Alike f g xs
    → delete_snapshots f keep xs ≡ delete_snapshots g keep xs
unfolding delete_snapshots
delete_snapshots-Alike f g keep xs h =
    rw (delete_each-Alike f g (length xs) (length xs - keep) xs idle h) refl

-- A zfs(1M) that lists the lines, and destroys all that it is asked to.
abbrev Obedient : Config → List Text → Zfs → Type 0
Obedient config lines zfs =
    ((n : ℕ) → zfs n (list_args config) ≡ (record { error = none; stdout = unlines lines }))
    × ((n : ℕ) (s : Text) → (zfs n (codes "destroy" ∷ s ∷ [])).error ≡ none)

module _ (config : Config) (lines : List Text) (zfs : Zfs) (h : Obedient config lines zfs) where
  deleter-reliable :
      (d : Daemon) (k : ℕ) (s : Text) → is_snapshot s ≡ true → deleter zfs d k s ≡ reliable k s
  unfolding deleter delete_snapshot exec_zfs
  deleter-reliable d k s own = rw own (rw (h.1 (suc (d.zfs_runs + k)) s) refl)

  deleter-Alike :
      (d : Daemon) (seen xs : List Text) → All (IsOwn seen) xs → Alike (deleter zfs d) reliable xs
  deleter-Alike d seen [] own = tt
  deleter-Alike d seen (x ∷ xs) ((m, (f, o)), own) =
      (λ k. deleter-reliable d k x o, deleter-Alike d seen xs own)

  -- The snapshots to go, oldest first.
  abbrev pub excess : List Text
  excess = take (length (get_snapshots lines) - config.snapshot_number) (get_snapshots lines)

  deleter-oldest :
      (d : Daemon)
      → delete_snapshots (deleter zfs d) config.snapshot_number (get_snapshots lines)
        ≡ (ok tt, record idle { deleted = excess; commands = map destroying excess })
  deleter-oldest d =
      let own = get_snapshots lines in
      delete_snapshots-Alike (deleter zfs d) reliable config.snapshot_number own
        (deleter-Alike d lines own (get_snapshots-IsOwn lines))
      ∙ delete_snapshots-oldest config.snapshot_number own

  after_list : Daemon → Daemon
  after_list d = record d { zfs_runs = suc d.zfs_runs; told = d.told ++ list_args config ∷ [] }

  list_and_delete-Obedient :
      (d : Daemon)
      → All (Without b'\n') lines
      → list_and_delete config zfs d ≡ delete_listed config zfs (get_snapshots lines) (after_list d)
  unfolding list_and_delete exec_zfs after_list
  list_and_delete-Obedient d flat =
      ap
        (λ r. elim r.error [
          | some e ↦ (err e, (idle, after_list d))
          | none ↦ delete_listed config zfs (get_snapshots (split b'\n' r.stdout)) (after_list d)
        ])
        (h.0 (suc d.zfs_runs))
      ∙ (ap (λ own. delete_listed config zfs own (after_list d)) (get_snapshots-unlines lines flat))

  -- Let zfs list the snapshots of a dataset without an error, each on a line, which it does by their age,
  -- and destroy all that it is asked to; the dataset is not named like a snapshot. Then a cleanup has it
  -- destroy the first ones of those that are named by thirteen digits, as the daemon names its own, each
  -- once and in this order, and nothing else, until the configured number is left.
  pub cleanup-oldest :
      (d : Daemon)
      → is_snapshot config.dataset ≡ false
      → All (Without b'\n') lines
      → ((cleanup config zfs d).0 ≡ ok tt)
        × ((cleanup config zfs d).1.1.told
            ≡ (d.told ++ list_args config ∷ []) ++ map destroying excess)
  unfolding cleanup delete_listed on_end after_list
  cleanup-oldest d dataset flat =
      rw dataset
        (rw (list_and_delete-Obedient d flat) (rw (deleter-oldest (after_list d)) (refl, refl)))
