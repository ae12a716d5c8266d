-- ===== src/Snapshots/Daemon/Ends.antt =====
-- lib/snapShotter.js: each cleanup ends, and is followed by another.
use manatee.Base.{
  ℕ, suc, ◌-◌, Text, ◌≡◌, ◌⊎◌, refl, List, [], ◌∷◌, false, length, arith, Outcome, ok, err,
  Outcome-cases, after-of_ok, after-of_ne, inl, inr, Option-cases,
}
use manatee.Base.Texts.{split}
use manatee.Snapshots.{
  get_snapshots, Cleanup, Deleter, attempt, delete_each, delete_snapshots, idle, record_failure,
}
use manatee.Snapshots.Daemon.{
  Config, Zfs, Daemon, is_snapshot, exec_zfs, list_args, list_and_delete, delete_listed, cleanup,
  deleter, on_end,
}

-- The callback is called, with an error or without.
abbrev pub IsAnswered : Outcome Text (Unit {0}) → Type 0
IsAnswered r = (r ≡ ok tt) ⊎ ((e : Text) × (r ≡ err e))

attempt-IsAnswered :
    (delete : Deleter) (total excess : ℕ) (s : Text) (c : Cleanup)
    → IsAnswered (attempt delete total excess s c).0
unfolding attempt record_failure
attempt-IsAnswered delete total excess s c = ground arith

delete_each-IsAnswered :
    (delete : Deleter) (total excess : ℕ) (xs : List Text) (c : Cleanup)
    → IsAnswered (delete_each delete total excess xs c).0
unfolding delete_each
delete_each-IsAnswered delete total excess [] c = inl refl
delete_each-IsAnswered delete total excess (x ∷ xs) c =
    let f = λ (_ : Unit {0}). delete_each delete total excess xs in
    let r = attempt delete total excess x c in
    elim (Outcome-cases r.0) [
      | inl e ↦ rw (after-of_ok f r e) (delete_each-IsAnswered delete total excess xs r.1)
      | inr e ↦ rw (after-of_ne f r e) (attempt-IsAnswered delete total excess x c)
    ]

delete_snapshots-IsAnswered :
    (delete : Deleter) (keep : ℕ) (snapshots : List Text)
    → IsAnswered (delete_snapshots delete keep snapshots).0
unfolding delete_snapshots
delete_snapshots-IsAnswered delete keep snapshots = ground (
  arith,
  delete_each-IsAnswered delete (length snapshots) (length snapshots - keep) snapshots idle,
)

-- What a cleanup that began at `d` leaves behind, by how it ended.
abbrev pub Follows : Daemon → Outcome Text (Unit {0}) → Daemon → Type 0
Follows d r d' =
    (d'.scheduled ≡ suc d.scheduled)
    × (((r ≡ ok tt) × (d'.errors ≡ d.errors))
        ⊎ ((e : Text) × (r ≡ err e) × (d'.errors ≡ e ∷ d.errors)))

on_end-Follows :
    (r : Outcome Text (Unit {0})) (d d' : Daemon)
    → IsAnswered r
    → d'.scheduled ≡ d.scheduled
    → d'.errors ≡ d.errors
    → Follows d r (on_end r d')
unfolding on_end
on_end-Follows r d d' (inl e) h k = ground arith
on_end-Follows r d d' (inr (x, e)) h k = ground arith

list_and_delete-kept :
    (config : Config) (zfs : Zfs) (d : Daemon)
    → let (r, (c, d')) = list_and_delete config zfs d in
      IsAnswered r × ((d'.scheduled ≡ d.scheduled) × (d'.errors ≡ d.errors))
unfolding list_and_delete delete_listed exec_zfs
list_and_delete-kept config zfs d =
    elim (Option-cases (exec_zfs zfs (list_args config) d).0.error) [
      | inl e ↦ rw e (
        delete_snapshots-IsAnswered (deleter zfs (exec_zfs zfs (list_args config) d).1)
            config.snapshot_number
            (get_snapshots (split b'\n' (exec_zfs zfs (list_args config) d).0.stdout)),
        (refl, refl),
      )
      | inr (x, e) ↦ rw e (inr (x, refl), (refl, refl))
    ]

-- However many runs of zfs fail, a cleanup of a dataset ends and sets its timer once more, and it emits
-- exactly the error that it ends with, if any.
pub cleanup-Follows :
    (config : Config) (zfs : Zfs) (d : Daemon)
    → is_snapshot config.dataset ≡ false
    → let (r, (c, d')) = cleanup config zfs d in Follows d r d'
unfolding cleanup
cleanup-Follows config zfs d h =
    let (r, (c, d')) = list_and_delete config zfs d in
    let (answered, (scheduled, errors)) = list_and_delete-kept config zfs d in
    rw h (on_end-Follows r d d' answered scheduled errors)
