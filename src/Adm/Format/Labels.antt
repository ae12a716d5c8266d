-- ===== src/Adm/Format/Labels.antt =====
-- lib/adm.js: where each peer stands in a formatted state.
use mathlib.Core.Option
use manatee.Base.{
  ℕ, zero, suc, ◌+◌, ◌≤◌, Text, codes, text_eq, text_eq_iff, ◌≡◌, ◌≢◌, refl, sym, ap, ◌∙◌, List, [],
  ◌∷◌, ◌++◌, Option, none, some, arith, get_elem?, Bool-cases, inl, inr, subst,
}
use manatee.Base.Texts.{head-eq, tail-eq}
use manatee.Base.Texts.Decimals.{show-injective, show-nonempty}
use manatee.Base.Objects.{Object, insert, lookup, lookup-insert}
use manatee.Adm.{Freeze, ShardState}
use manatee.Adm.Format.{
  suffix, Shown, peer, label, insert_each, insert_freeze, insert_one, insert_list, format_shard,
}

append-cancel : (s t u : Text) → s ++ t ≡ s ++ u → t ≡ u
append-cancel [] t u h = h
append-cancel (c ∷ s) t u h = append-cancel s t u (tail-eq h)

suffix-injective : (i j : ℕ) → suffix i ≡ suffix j → i ≡ j
unfolding suffix
suffix-injective zero zero h = refl
suffix-injective zero (suc j) h = sym (show-nonempty (suc j) (sym h))
suffix-injective (suc i) zero h = show-nonempty (suc i) h
suffix-injective (suc i) (suc j) h = show-injective (suc i) (suc j) h

label-injective : (name : Text) (i j : ℕ) → label name i ≡ label name j → i ≡ j
unfolding label
label-injective name i j h = suffix-injective i j (append-cancel name (suffix i) (suffix j) h)

module _ {V : Type 0} where
  lookup-insert_same : (k : Text) (v : V) (o : Object V) → lookup k (insert k v o) ≡ some v
  lookup-insert_same k v o = rw (lookup-insert k k v o, (text_eq_iff k k).1 refl) refl

  lookup-insert_ne :
      (k q : Text) (v : V) (o : Object V) → k ≢ q → lookup q (insert k v o) ≡ lookup q o
  lookup-insert_ne k q v o n = elim (Bool-cases (text_eq k q)) [
    | inl e ↦ absurd (n ((text_eq_iff k q).0 e))
    | inr e ↦ rw (lookup-insert k q v o, e) refl
  ]

-- The first of the two that is there.
abbrev pub first : {V : Type 0} → Option V → Option V → Option V
first (some v) w = some v
first none w = w

module _ {P : Type 0} where
  lookup-insert_each_ne :
      (name key : Text) (i : ℕ) (peers : List P) (o : Object (Shown P))
      → ((j : ℕ) → i ≤ j → label name j ≢ key)
      → lookup key (insert_each name i peers o) ≡ lookup key o
  unfolding insert_each
  lookup-insert_each_ne name key i [] o h = refl
  lookup-insert_each_ne name key i (p ∷ peers) o h =
      lookup-insert_each_ne name key (suc i) peers (insert (label name i) (peer p) o)
        (λ j k. h j (omega arith))
      ∙ lookup-insert_ne (label name i) key (peer p) o (h i (omega arith))

  lookup-insert_each :
      (name : Text) (i k : ℕ) (peers : List P) (o : Object (Shown P))
      → lookup (label name (i + k)) (insert_each name i peers o)
        ≡ first (Option.map peer (get_elem? peers k)) (lookup (label name (i + k)) o)
  unfolding insert_each
  lookup-insert_each name i k [] o = refl
  lookup-insert_each name i zero (p ∷ peers) o =
      lookup-insert_each_ne name (label name (i + 0)) (suc i) peers
        (insert (label name i) (peer p) o)
        (λ j h e. let n = label-injective name j (i + 0) e in omega arith)
      ∙ (let e : i ≡ i + 0 = omega arith in
          subst (λ m. lookup (label name m) (insert (label name i) (peer p) o) ≡ some (peer p)) e
            (lookup-insert_same (label name i) (peer p) o))
  lookup-insert_each name i (suc k) (p ∷ peers) o =
      let e : suc i + k ≡ i + suc k = omega arith in
      subst
        (λ m.
          lookup (label name m) (insert_each name (suc i) peers (insert (label name i) (peer p) o))
          ≡ first (Option.map peer (get_elem? peers k)) (lookup (label name m) o))
        e
        (lookup-insert_each name (suc i) k peers (insert (label name i) (peer p) o)
          ∙ ap (first (Option.map peer (get_elem? peers k))) (
              lookup-insert_ne (label name i) (label name (suc i + k)) (peer p) o
                (λ e. let n = label-injective name i (suc i + k) e in omega arith)))

  -- The labels of the asyncs and those of the deposed peers.
  abbrev pub list_at : Option (List P) → ℕ → Option P
  list_at none i = none
  list_at (some peers) i = get_elem? peers i

  lookup-insert_list :
      (name : Text) (i : ℕ) (peers : Option (List P)) (o : Object (Shown P))
      → lookup (label name i) (insert_list name peers o)
        ≡ first (Option.map peer (list_at peers i)) (lookup (label name i) o)
  unfolding insert_list
  lookup-insert_list name i none o = refl
  lookup-insert_list name i (some peers) o =
      let e : 0 + i ≡ i = omega arith in
      subst
        (λ m.
          lookup (label name m) (insert_each name 0 peers o)
          ≡ first (Option.map peer (get_elem? peers i)) (lookup (label name m) o))
        e (lookup-insert_each name 0 i peers o)

  lookup-insert_list_ne :
      (name key : Text) (peers : Option (List P)) (o : Object (Shown P))
      → ((j : ℕ) → label name j ≢ key)
      → lookup key (insert_list name peers o) ≡ lookup key o
  unfolding insert_list
  lookup-insert_list_ne name key none o h = refl
  lookup-insert_list_ne name key (some peers) o h =
      lookup-insert_each_ne name key 0 peers o (λ j k. h j)

  lookup-insert_one :
      (name : Text) (p : Option P) (o : Object (Shown P))
      → lookup name (insert_one name p o) ≡ first (Option.map peer p) (lookup name o)
  unfolding insert_one
  lookup-insert_one name none o = refl
  lookup-insert_one name (some p) o = lookup-insert_same name (peer p) o

  lookup-insert_one_ne :
      (name key : Text) (p : Option P) (o : Object (Shown P))
      → name ≢ key
      → lookup key (insert_one name p o) ≡ lookup key o
  unfolding insert_one
  lookup-insert_one_ne name key none o h = refl
  lookup-insert_one_ne name key (some p) o h = lookup-insert_ne name key (peer p) o h

  -- The freeze is shown under no other label.
  lookup-insert_freeze :
      (key : Text) (f : Option Freeze)
      → codes "__FROZEN__" ≢ key
      → lookup key (insert_freeze {P = P} f []) ≡ none
  unfolding insert_freeze lookup
  lookup-insert_freeze key none h = refl
  lookup-insert_freeze key (some f) h = lookup-insert_ne (codes "__FROZEN__") key _ [] h

first-none : {V : Type 0} (v : Option V) → first v none ≡ v
first-none none = refl
first-none (some a) = refl

-- The labels differ in their first letters.
module _ {P : Type 0} (a b : ℕ) (s t : Text) (ne : a ≢ b) where
  skip_list :
      (peers : Option (List P)) (o : Object (Shown P))
      → lookup (b ∷ t) (insert_list (a ∷ s) peers o) ≡ lookup (b ∷ t) o
  unfolding label
  skip_list peers o = lookup-insert_list_ne (a ∷ s) (b ∷ t) peers o (λ j e. ne (head-eq e))

  skip_one :
      (p : Option P) (o : Object (Shown P))
      → lookup (b ∷ t) (insert_one (a ∷ s) p o) ≡ lookup (b ∷ t) o
  skip_one p o = lookup-insert_one_ne (a ∷ s) (b ∷ t) p o (λ e. ne (head-eq e))

-- What is set under a key that no freeze has is what is found there.
alone :
    {P : Type 0} (b : ℕ) (t : Text) (f : Option Freeze) (v : Option (Shown P))
    → b ≢ b'_'
    → first v (lookup (b ∷ t) (insert_freeze f [])) ≡ v
alone b t f v n =
    ap (first v) (lookup-insert_freeze (b ∷ t) f (λ e. n (sym (head-eq e)))) ∙ first-none v

-- In the state of a shard that is laid out for display, the primary, the sync, and each async and each
-- deposed peer stands under a label of its own, by its number; no peer hides another one, and where there
-- is none the label is missing.
pub format_shard-lookup :
    {P : Type 0} (s : ShardState P) (i : ℕ)
    → let o = format_shard s in
      (lookup (codes "primary") o ≡ Option.map peer s.primary)
      × (lookup (codes "sync") o ≡ Option.map peer s.sync)
      × (lookup (label (codes "async") i) o ≡ Option.map peer (list_at s.asyncs i))
      × (lookup (label (codes "deposed") i) o ≡ Option.map peer (list_at s.deposed i))
unfolding format_shard label
format_shard-lookup s i =
    let deposed = codes "eposed" in
    let async = codes "sync" in
    let sync = codes "ync" in
    let primary = codes "rimary" in
    let o0 = insert_freeze s.freeze [] in
    let o1 = insert_one (codes "primary") s.primary o0 in
    let o2 = insert_one (codes "sync") s.sync o1 in
    let o3 = insert_list (codes "async") s.asyncs o2 in
    (
      skip_list b'd' b'p' deposed primary (λ e. omega arith) s.deposed o3
          ∙ skip_list b'a' b'p' async primary (λ e. omega arith) s.asyncs o2
          ∙ skip_one b's' b'p' sync primary (λ e. omega arith) s.sync o1
          ∙ lookup-insert_one (codes "primary") s.primary o0
          ∙ alone b'p' primary s.freeze (Option.map peer s.primary) (λ e. omega arith),
      skip_list b'd' b's' deposed sync (λ e. omega arith) s.deposed o3
          ∙ skip_list b'a' b's' async sync (λ e. omega arith) s.asyncs o2
          ∙ lookup-insert_one (codes "sync") s.sync o1
          ∙ ap (first (Option.map peer s.sync))
              (skip_one b'p' b's' primary sync (λ e. omega arith) s.primary o0)
          ∙ alone b's' sync s.freeze (Option.map peer s.sync) (λ e. omega arith),
      skip_list b'd' b'a' deposed (async ++ suffix i) (λ e. omega arith) s.deposed o3
          ∙ lookup-insert_list (codes "async") i s.asyncs o2
          ∙ ap (first (Option.map peer (list_at s.asyncs i))) (
              skip_one b's' b'a' sync (async ++ suffix i) (λ e. omega arith) s.sync o1
              ∙ skip_one b'p' b'a' primary (async ++ suffix i) (λ e. omega arith) s.primary o0)
          ∙ alone b'a' (async ++ suffix i) s.freeze (Option.map peer (list_at s.asyncs i))
              (λ e. omega arith),
      lookup-insert_list (codes "deposed") i s.deposed o3
          ∙ ap (first (Option.map peer (list_at s.deposed i))) (
              skip_list b'a' b'd' async (deposed ++ suffix i) (λ e. omega arith) s.asyncs o2
              ∙ skip_one b's' b'd' sync (deposed ++ suffix i) (λ e. omega arith) s.sync o1
              ∙ skip_one b'p' b'd' primary (deposed ++ suffix i) (λ e. omega arith) s.primary o0)
          ∙ alone b'd' (deposed ++ suffix i) s.freeze (Option.map peer (list_at s.deposed i))
              (λ e. omega arith),
    )
