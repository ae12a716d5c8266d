-- ===== src/Snapshots/Daemon/Own.antt =====
-- lib/snapShotter.js: a cleanup touches no snapshot but those that the daemon took.
use mathlib.Core.List.{append-nil, Mem, mem-cons_self, mem-cons_of_mem}
use manatee.Base.{
  ℕ, suc, ◌+◌, ◌⊎◌, sym, codes, refl, subst, Outcome, ok, err, lost, thrown, Text, ◌≡◌, List, [],
  ◌∷◌, ◌++◌, true, All, length, ◌-◌, arith, Bool-cases, Outcome-cases, after-of_ok, after-of_ne,
  inl, inr, Option-cases,
}
use manatee.Base.Texts.{split}
use manatee.Snapshots.{
  is_manatee_snapshot, has_timestamp, snapshot_parts, get_snapshots, Cleanup, attempt, delete_each,
  delete_snapshots, idle, record_failure,
}
use manatee.Snapshots.Daemon.{
  Config, Zfs, Daemon, is_snapshot, exec_zfs, list_args, list_and_delete, delete_listed, cleanup,
  deleter, delete_snapshot, on_end,
}

-- A line of the listing that names a snapshot by thirteen digits, as the daemon does.
abbrev pub IsOwn : List Text → Text → Type 0
IsOwn lines s = Mem s lines × ((is_manatee_snapshot s ≡ true) × (is_snapshot s ≡ true))

All-weaken :
    (line : Text) (lines xs : List Text) → All (IsOwn lines) xs → All (IsOwn (line ∷ lines)) xs
All-weaken line lines [] h = tt
All-weaken line lines (x ∷ xs) ((m, o), h) =
    ((mem-cons_of_mem line m, o), All-weaken line lines xs h)

-- The assertion of `_deleteSnapshot` holds of what passes the filter.
is_manatee_snapshot-is_snapshot : (s : Text) → is_manatee_snapshot s ≡ true → is_snapshot s ≡ true
unfolding is_manatee_snapshot is_snapshot has_timestamp
is_manatee_snapshot-is_snapshot s h = elim (Option-cases (snapshot_parts (split b'@' s))) [
  | inl e ↦ ground arith
  | inr (a, e) ↦ ground arith
]

pub get_snapshots-IsOwn : (lines : List Text) → All (IsOwn lines) (get_snapshots lines)
unfolding get_snapshots
get_snapshots-IsOwn [] = tt
get_snapshots-IsOwn (l ∷ lines) = elim (Bool-cases (is_manatee_snapshot l)) [
  | inl e ↦ rw e (
    (mem-cons_self, (e, is_manatee_snapshot-is_snapshot l e)),
    All-weaken l lines (get_snapshots lines) (get_snapshots-IsOwn lines),
  )
  | inr e ↦ rw e (All-weaken l lines (get_snapshots lines) (get_snapshots-IsOwn lines))
]

All-both {ℓ κ} :
    {A : Type κ} → (P : A → Type ℓ) → (xs ys : List A) → All P xs → All P ys → All P (xs ++ ys)
All-both P [] ys h k = k
All-both P (x ∷ xs) ys h k = (h.0, All-both P xs ys h.1 k)

-- A run of zfs(1M) that destroys one of the daemon's own snapshots.
abbrev pub Destroys : List Text → List Text → Type 0
Destroys lines args = (s : Text) × (args ≡ codes "destroy" ∷ s ∷ []) × IsOwn lines s

module _ (lines : List Text) (zfs : Zfs) (d : Daemon) where
  abbrev Tried : Cleanup → Type 0
  Tried c = All (Destroys lines) c.commands

  deleter-ran :
      (k : ℕ) (s : Text)
      → is_snapshot s ≡ true
      → (deleter zfs d k s).ran ≡ (codes "destroy" ∷ s ∷ []) ∷ []
  unfolding deleter delete_snapshot exec_zfs
  deleter-ran k s o = ground arith

  deleter-Destroys :
      (k : ℕ) (s : Text) → IsOwn lines s → All (Destroys lines) (deleter zfs d k s).ran
  deleter-Destroys k s (m, (f, o)) =
      subst (All (Destroys lines)) (sym (deleter-ran k s o)) ((s, refl, (m, (f, o))), tt)

  attempt-Tried :
      (total excess : ℕ) (s : Text) (c : Cleanup)
      → IsOwn lines s
      → Tried c
      → Tried (attempt (deleter zfs d) total excess s c).1
  unfolding attempt record_failure
  attempt-Tried total excess s c p h =
      let k = length c.deleted + length c.stuck in
      let r = deleter zfs d k s in
      let both = All-both (Destroys lines) c.commands r.ran h (deleter-Destroys k s p) in
      ground arith

  delete_each-Tried :
      (total excess : ℕ) (xs : List Text) (c : Cleanup)
      → All (IsOwn lines) xs
      → Tried c
      → Tried (delete_each (deleter zfs d) total excess xs c).1
  unfolding delete_each
  delete_each-Tried total excess [] c p h = h
  delete_each-Tried total excess (x ∷ xs) c p h =
      let f = λ (_ : Unit {0}). delete_each (deleter zfs d) total excess xs in
      let r = attempt (deleter zfs d) total excess x c in
      let t = attempt-Tried total excess x c p.0 h in
      elim (Outcome-cases r.0) [
        | inl e ↦ rw (after-of_ok f r e) (delete_each-Tried total excess xs r.1 p.1 t)
        | inr e ↦ rw (after-of_ne f r e) t
      ]

  delete_snapshots-Tried :
      (keep : ℕ) (snapshots : List Text)
      → All (IsOwn lines) snapshots
      → Tried (delete_snapshots (deleter zfs d) keep snapshots).1
  unfolding delete_snapshots
  delete_snapshots-Tried keep snapshots p =
      ground
        (arith, delete_each-Tried (length snapshots) (length snapshots - keep) snapshots idle p tt)

-- The lines that the run of zfs for a cleanup lists.
abbrev pub listing : Config → Zfs → Daemon → List Text
listing config zfs d = split b'\n' (exec_zfs zfs (list_args config) d).0.stdout

-- All that zfs(1M) has been told after a cleanup that began at `d`: nothing more, or to list the snapshots
-- and then only to destroy some of the daemon's own.
abbrev pub Told : Config → Zfs → Daemon → List (List Text) → Type 0
Told config zfs d told =
    (told ≡ d.told)
    ⊎ ((destroyed : List (List Text)) × (told ≡ (d.told ++ list_args config ∷ []) ++ destroyed)
        × All (Destroys (listing config zfs d)) destroyed)

list_and_delete-Told :
    (config : Config) (zfs : Zfs) (d : Daemon)
    → Told config zfs d (list_and_delete config zfs d).1.1.told
unfolding list_and_delete delete_listed exec_zfs
list_and_delete-Told config zfs d =
    let listed = (exec_zfs zfs (list_args config) d).1 in
    let own = get_snapshots (listing config zfs d) in
    elim (Option-cases (zfs (suc d.zfs_runs) (list_args config)).error) [
      | inl e ↦ inr (
          rw e (
            (delete_snapshots (deleter zfs listed) config.snapshot_number own).1.commands,
            refl,
            delete_snapshots-Tried (listing config zfs d) zfs listed config.snapshot_number own
                (get_snapshots-IsOwn (listing config zfs d)),
          ))
      | inr (x, e) ↦ inr (rw e ([], sym (append-nil (d.told ++ list_args config ∷ [])), tt))
    ]

on_end-told : (r : Outcome Text (Unit {0})) (d : Daemon) → (on_end r d).told ≡ d.told
unfolding on_end
on_end-told (ok u) d = refl
on_end-told (err e) d = refl
on_end-told lost d = refl
on_end-told thrown d = refl

-- Whatever zfs answers, a cleanup has zfs list the snapshots of its dataset and then destroy nothing but
-- snapshots that were listed, are named by thirteen digits, as the daemon names its own, and meet the
-- assertion of `_deleteSnapshot`; or it runs nothing at all.
pub cleanup-Told :
    (config : Config) (zfs : Zfs) (d : Daemon) → Told config zfs d (cleanup config zfs d).1.1.told
unfolding cleanup
cleanup-Told config zfs d = elim (Bool-cases (is_snapshot config.dataset)) [
  | inl e ↦ rw e (inl refl)
  | inr e ↦
      let r = list_and_delete config zfs d in
      rw e (
        subst (Told config zfs d) (sym (on_end-told r.0 r.1.1)) (list_and_delete-Told config zfs d))
]
