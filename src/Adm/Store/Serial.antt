-- ===== src/Adm/Store/Serial.antt =====
-- However commands and other writers interleave, what is in ZooKeeper is what their writes give one
-- after another.
use manatee.Base.{
  ℕ, Text, suc, ◌+◌, ◌≤◌, ◌≡◌, refl, sym, List, [], ◌∷◌, ◌++◌, length, Option, Option-cases, none,
  some, arith, inl, inr, Outcome, ok, err, lost, thrown,
}
use mathlib.Core.List.{append_assoc, append-nil}
use manatee.Adm.Edits.{State, Edit, apply}
use manatee.Adm.Store.{Zk, IsLawful}
use manatee.Adm.Store.Sessions.{
  World, Write, edited, replaced, Event, reads, writes, other_writes, get_state, put_state,
  put_edited, write, remember, step, run, replay,
}

abbrev to_list : Option State → List State
to_list none = []
to_list (some c) = c ∷ []

-- The states that were written, oldest first.
abbrev pub trail : List Write → State → List State
trail [] c = []
trail (w ∷ written) c = trail written c ++ to_list (replay (w ∷ written) c)

-- What a command has read is no newer than the state, and is the state if it has its version.
abbrev Known : State → ℕ → Option (State × ℕ) → Type 0
Known now version none = Unit
Known now version (some (c, v)) = (v ≤ version) × (v ≡ version → c ≡ now)

module _ (zk : Zk) (c0 : State) (v0 : ℕ) (past : List State) where
  pub record Inv (w : World zk) : Type 0 where
    pub now : State
    pub version : ℕ
    pub current : zk.read w.store ≡ some (now, version)
    pub counted : version ≡ v0 + length w.written
    pub serial : replay w.written c0 ≡ some now
    pub logged : zk.history w.store ≡ past ++ trail w.written c0
    pub known : (who : ℕ) → Known now version (w.loaded who)

  get_state-some :
      (who : ℕ) (w : World zk) (p : State × ℕ)
      → zk.read w.store ≡ some p
      → get_state zk who w ≡ record w { loaded = remember zk who p w.loaded }
  unfolding get_state
  get_state-some who w p h = ground arith

  Known-remember :
      (who k : ℕ) (now : State) (version : ℕ) (loaded : ℕ → Option (State × ℕ))
      → Known now version (loaded k)
      → Known now version (remember zk who (now, version) loaded k)
  Known-remember who k now version loaded h = ground arith

  get_state-Inv : (who : ℕ) (w : World zk) → Inv w → Inv (get_state zk who w)
  get_state-Inv who w i = rw (get_state-some who w (i.now, i.version) i.current) (record {
    now = i.now;
    version = i.version;
    current = i.current;
    counted = i.counted;
    serial = i.serial;
    logged = i.logged;
    known = λ k. Known-remember who k i.now i.version w.loaded (i.known k);
  })

  Known-later :
      (c now : State) (version : ℕ) (p : Option (State × ℕ))
      → Known now version p
      → Known c (suc version) p
  Known-later c now version none h = tt
  Known-later c now version (some (d, v)) h = (omega arith, λ e. absurd (omega arith))

  module _ (laws : IsLawful zk) where
    -- A write that goes through, of what replaying it gives.
    write-Inv :
        (what : Write) (c : State) (v : ℕ) (t : zk.Store) (w : World zk) (i : Inv w)
        → zk.update c v w.store ≡ some t
        → (v ≡ i.version → replay (what ∷ w.written) c0 ≡ some c)
        → Inv (record w { store = t; written = what ∷ w.written })
    write-Inv what c v t w i h f =
        let (old, r) = laws.update-version c v w.store t h in
        let e : v ≡ i.version = ground (arith, i.current) in
        record {
          now = c;
          version = suc i.version;
          current = ground (arith, laws.read-update c v w.store t h);
          counted = omega (arith, i.counted);
          serial = f e;
          logged = rw (laws.history-update c v w.store t h, i.logged, f e) (simp append_assoc);
          known = λ k. Known-later c i.now i.version (w.loaded k) (i.known k);
        }

    update-Inv :
        (what : Write) (c : State) (v : ℕ) (w : World zk) (i : Inv w)
        → (v ≡ i.version → replay (what ∷ w.written) c0 ≡ some c)
        → Inv (write zk what (zk.update c v w.store) w)
    unfolding write
    update-Inv what c v w i f = elim (Option-cases (zk.update c v w.store)) [
      | inl h ↦ rw h i
      | inr (t, h) ↦ rw h (write-Inv what c v t w i h f)
    ]

    replay-edited :
        (e : Edit) (c d now : State) (written : List Write)
        → replay written c0 ≡ some now
        → c ≡ now
        → apply e c ≡ ok d
        → replay (edited e ∷ written) c0 ≡ some d
    unfolding replay
    replay-edited e c d now written h k a = ground arith

    put_edited-Inv :
        (e : Edit) (c : State) (v : ℕ) (r : Outcome Text State) (w : World zk) (i : Inv w)
        → (v ≡ i.version → c ≡ i.now)
        → apply e c ≡ r
        → Inv (put_edited zk e v r w)
    unfolding put_edited
    put_edited-Inv e c v (ok d) w i k a =
        update-Inv (edited e) d v w i (λ h. replay-edited e c d i.now w.written i.serial (k h) a)
    put_edited-Inv e c v (err m) w i k a = i
    put_edited-Inv e c v lost w i k a = i
    put_edited-Inv e c v thrown w i k a = i

    Known-some :
        (now : State) (version : ℕ) (p : Option (State × ℕ)) (c : State) (v : ℕ)
        → Known now version p
        → p ≡ some (c, v)
        → v ≡ version
        → c ≡ now
    Known-some now version p c v h e = ground arith

    put_state-Inv : (who : ℕ) (e : Edit) (w : World zk) → Inv w → Inv (put_state zk who e w)
    unfolding put_state
    put_state-Inv who e w i = elim (Option-cases (w.loaded who)) [
      | inl h ↦ rw (put_state, h) i
      | inr ((c, v), h) ↦
          rw (put_state, h)
            (put_edited-Inv e c v (apply e c) w i
              (Known-some i.now i.version (w.loaded who) c v (i.known who) h) refl)
    ]

    replay-replaced :
        (c now : State) (written : List Write)
        → replay written c0 ≡ some now
        → replay (replaced c ∷ written) c0 ≡ some c
    unfolding replay
    replay-replaced c now written h = ground arith

    step-Inv : (e : Event) (w : World zk) → Inv w → Inv (step zk e w)
    unfolding step
    step-Inv (reads who) w i = get_state-Inv who w i
    step-Inv (writes who e) w i = put_state-Inv who e w i
    step-Inv (other_writes c v) w i =
        update-Inv (replaced c) c v w i (λ _. replay-replaced c i.now w.written i.serial)

    pub run-Inv : (events : List Event) (w : World zk) → Inv w → Inv (run zk events w)
    unfolding run
    run-Inv [] w i = i
    run-Inv (e ∷ events) w i = run-Inv events (step zk e w) (step-Inv e w i)

-- A store that nobody has read yet.
abbrev pub opened : (zk : Zk) → zk.Store → World zk
opened zk s = record { store = s; loaded = λ who. none; written = [] }

pub opened-Inv :
    (zk : Zk) (s : zk.Store) (c0 : State) (v0 : ℕ)
    → zk.read s ≡ some (c0, v0)
    → Inv zk c0 v0 (zk.history s) (opened zk s)
unfolding replay
opened-Inv zk s c0 v0 h = record {
  now = c0;
  version = v0;
  current = h;
  counted = omega arith;
  serial = refl;
  logged = sym (append-nil (zk.history s));
  known = λ who. tt;
}

-- However the commands of manatee-adm and other writers interleave, the state in ZooKeeper at the end is
-- what the writes that went through give one after another, each edit applied, and accepted, in the state
-- that the write before it has left; the version counts them, and the history has grown by exactly the
-- states between.
pub run_serial :
    (zk : Zk) (s : zk.Store) (c0 : State) (v0 : ℕ) (events : List Event)
    → IsLawful zk
    → zk.read s ≡ some (c0, v0)
    → let w = run zk events (opened zk s) in
      (now : State) × (replay w.written c0 ≡ some now)
      × (zk.read w.store ≡ some (now, v0 + length w.written))
      × (zk.history w.store ≡ zk.history s ++ trail w.written c0)
run_serial zk s c0 v0 events laws h =
    let i = run-Inv zk c0 v0 (zk.history s) laws events (opened zk s) (opened-Inv zk s c0 v0 h) in
    (i.now, i.serial, ground (arith, i.current, i.counted), i.logged)
