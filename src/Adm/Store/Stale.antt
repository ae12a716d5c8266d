-- ===== src/Adm/Store/Stale.antt =====
-- A command whose state has been overtaken writes nothing.
use manatee.Base.{
  ℕ, Text, ◌==◌, ◌≡◌, refl, ◌∙◌, ◌≢◌, List, [], ◌∷◌, length, Option, Option-cases, none, some,
  false, arith, inl, inr, Outcome, ok, err, lost, thrown, All,
}
use manatee.Adm.Edits.{State, Edit, apply}
use manatee.Adm.Store.{Zk, IsLawful}
use manatee.Adm.Store.Sessions.{
  World, Write, Event, reads, writes, other_writes, get_state, put_state, put_edited, write, step,
  run,
}
use manatee.Adm.Store.Serial.{run-Inv, opened, opened-Inv}

-- The event is no read of the command.
abbrev pub IsOther : ℕ → Event → Type 0
IsOther who (reads k) = (who == k) ≡ false
IsOther who (writes k e) = Unit
IsOther who (other_writes c v) = Unit

module _ (zk : Zk) where
  write-loaded :
      (what : Write) (r : Option zk.Store) (w : World zk) → (write zk what r w).loaded ≡ w.loaded
  unfolding write
  write-loaded what none w = refl
  write-loaded what (some t) w = refl

  put_edited-loaded :
      (e : Edit) (v : ℕ) (r : Outcome Text State) (w : World zk)
      → (put_edited zk e v r w).loaded ≡ w.loaded
  unfolding put_edited
  put_edited-loaded e v (ok c) w = write-loaded _ (zk.update c v w.store) w
  put_edited-loaded e v (err m) w = refl
  put_edited-loaded e v lost w = refl
  put_edited-loaded e v thrown w = refl

  step-loaded :
      (who : ℕ) (e : Event) (w : World zk) → IsOther who e → (step zk e w).loaded who ≡ w.loaded who
  unfolding step get_state put_state
  step-loaded who (reads k) w h = elim (Option-cases (zk.read w.store)) [
    | inl n ↦ rw (step, get_state, n) refl
    | inr (p, n) ↦ rw (step, get_state, n, h) refl
  ]
  step-loaded who (writes k e) w h = elim (Option-cases (w.loaded k)) [
    | inl n ↦ rw (step, put_state, n) refl
    | inr ((c, v), n) ↦
        rw (step, put_state, n) (ground (arith, put_edited-loaded e v (apply e c) w))
  ]
  step-loaded who (other_writes c v) w h =
      ground (arith, write-loaded (Write.replaced c) (zk.update c v w.store) w)

  run-loaded :
      (who : ℕ) (events : List Event) (w : World zk)
      → All (IsOther who) events
      → (run zk events w).loaded who ≡ w.loaded who
  unfolding run
  run-loaded who [] w h = refl
  run-loaded who (e ∷ events) w h =
      run-loaded who events (step zk e w) h.1 ∙ step-loaded who e w h.0

  module _ (laws : IsLawful zk) where
    update-stale :
        (c now : State) (v version : ℕ) (s : zk.Store)
        → zk.read s ≡ some (now, version)
        → v ≢ version
        → zk.update c v s ≡ none
    update-stale c now v version s h n = elim (Option-cases (zk.update c v s)) [
      | inl p ↦ p
      | inr (t, p) ↦
          let (old, r) = laws.update-version c v s t p in absurd (n (ground (arith, h, r)))
    ]

    put_edited-stale :
        (e : Edit) (now : State) (v version : ℕ) (r : Outcome Text State) (w : World zk)
        → zk.read w.store ≡ some (now, version)
        → v ≢ version
        → put_edited zk e v r w ≡ w
    unfolding put_edited write
    put_edited-stale e now v version (ok c) w h n =
        rw (put_edited, update-stale c now v version w.store h n) refl
    put_edited-stale e now v version (err m) w h n = refl
    put_edited-stale e now v version lost w h n = refl
    put_edited-stale e now v version thrown w h n = refl

    put_state-stale :
        (who : ℕ) (e : Edit) (c now : State) (v version : ℕ) (w : World zk)
        → w.loaded who ≡ some (c, v)
        → zk.read w.store ≡ some (now, version)
        → v ≢ version
        → put_state zk who e w ≡ w
    unfolding put_state
    put_state-stale who e c now v version w l h n =
        rw (put_state, l) (put_edited-stale e now v version (apply e c) w h n)

  get_state-loaded :
      (who : ℕ) (w : World zk) (p : State × ℕ)
      → zk.read w.store ≡ some p
      → ((get_state zk who w).loaded who ≡ some p) × ((get_state zk who w).written ≡ w.written)
  unfolding get_state
  get_state-loaded who w p h = ground arith

-- If another write has gone through since a command has read the state, the write of the command
-- changes nothing, whatever its edit and whatever else has happened before and in between.
pub stale_write_refused :
    (zk : Zk) (s : zk.Store) (c0 : State) (v0 who : ℕ) (e : Edit) (events between : List Event)
    → IsLawful zk
    → zk.read s ≡ some (c0, v0)
    → All (IsOther who) between
    → length (run zk (reads who ∷ between) (run zk events (opened zk s))).written
      ≢ length (run zk events (opened zk s)).written
    → put_state zk who e (run zk (reads who ∷ between) (run zk events (opened zk s)))
      ≡ run zk (reads who ∷ between) (run zk events (opened zk s))
unfolding run step
stale_write_refused zk s c0 v0 who e events between laws h other n =
    let past = zk.history s in
    let w = run zk events (opened zk s) in
    let i = run-Inv zk c0 v0 past laws events (opened zk s) (opened-Inv zk s c0 v0 h) in
    let j = run-Inv zk c0 v0 past laws (reads who ∷ between) w i in
    let (l, same) = get_state-loaded zk who w (i.now, i.version) i.current in
    put_state-stale zk laws who e i.now j.now i.version j.version
      (run zk between (get_state zk who w))
      (run-loaded zk who between (get_state zk who w) other ∙ l) j.current
      (λ q. n (omega (arith, i.counted, j.counted)))
