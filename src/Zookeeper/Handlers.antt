-- ===== src/Zookeeper/Handlers.antt =====
-- What the handlers of ZooKeeper's notifications do to the cache.
pub mod Again
use manatee.Base.{
  Text, codes, ◌≡◌, refl, sym, ◌∙◌, ◌≢◌, ◌↔◌, List, [], ◌∷◌, map, Option, Option-cases, none, some,
  Bool, true, false, arith, inl, inr, All, Outcome, ok, err, lost, thrown, text_eq_iff,
}
use manatee.Base.Objects.{Object}
use manatee.Zookeeper.Actives.{Active, parse, parse_and_unique_actives, id_lists_equal}
use manatee.Zookeeper.Actives.Sorted.{
  Mentions, map_All, Before, Sorted, parse_and_unique_actives-Sorted,
}
use manatee.Zookeeper.Actives.Listed.{parse_and_unique_actives-listed}
use manatee.Zookeeper.{
  Member, ZkMgr, active_change, expose, cached, to_member, get_data, get_all, and_also, ids,
  set_active, handle_active,
}

pub id_lists_equal_iff : (a b : List Text) → (id_lists_equal a b ≡ true) ↔ (a ≡ b)
unfolding id_lists_equal
id_lists_equal_iff [] [] = ground arith
id_lists_equal_iff [] (b ∷ bs) = ground arith
id_lists_equal_iff (a ∷ more) [] = ground arith
id_lists_equal_iff (a ∷ more) (b ∷ bs) = ground (arith, text_eq_iff a b, id_lists_equal_iff more bs)

abbrev pub is_ok : Outcome Text (List Member) → Bool
is_ok (ok ms) = true
is_ok _ = false

and_also-ok :
    (r : Outcome Text Member) (q : Outcome Text (List Member)) (ms : List Member)
    → and_also r q ≡ ok ms
    → (m : Member) × (rest : List Member) × (r ≡ ok m) × (q ≡ ok rest) × (ms ≡ m ∷ rest)
and_also-ok (ok m) (ok rest) ms h = (m, rest, refl, refl, ground arith)
and_also-ok (ok m) (err e) ms h = cc
and_also-ok (ok m) lost ms h = cc
and_also-ok (ok m) thrown ms h = cc
and_also-ok (err e) (ok rest) ms h = cc
and_also-ok (err e) (err f) ms h = cc
and_also-ok (err e) lost ms h = cc
and_also-ok (err e) thrown ms h = cc
and_also-ok lost (ok rest) ms h = cc
and_also-ok lost (err f) ms h = cc
and_also-ok lost lost ms h = cc
and_also-ok lost thrown ms h = cc
and_also-ok thrown q ms h = cc

-- The members are those of the actives, with some data.
unfoldable pub Built : List Active → List Member → Type 0
Built [] [] = Unit
Built (c ∷ active) (m ∷ ms) = (m ≡ to_member c m.node) × Built active ms
Built _ _ = ⊥

module _ (fetch : Text → Outcome Text (Object Text)) where
  get_data-Built :
      (old : List Member) (c : Active) (m : Member)
      → get_data fetch old c ≡ ok m
      → m ≡ to_member c m.node
  unfolding get_data
  get_data-Built old c m h = ground arith

  pub get_all-Built :
      (old : List Member) (active : List Active) (ms : List Member)
      → get_all fetch old active ≡ ok ms
      → Built active ms
  unfolding get_all Built
  get_all-Built old [] ms h = ground arith
  get_all-Built old (c ∷ active) ms h =
      let (m, rest, e, f, g) = and_also-ok (get_data fetch old c) (get_all fetch old active) ms h in
      let b = get_data-Built old c m e in let bs = get_all-Built old active rest f in rw g (b, bs)

pub Built-ids :
    (active : List Active) (ms : List Member) → Built active ms → map (λ c. c.id) active ≡ ids ms
unfolding Built
Built-ids [] [] b = refl
Built-ids (c ∷ active) (m ∷ ms) b = ground (arith, Built-ids active ms b.1)
Built-ids [] (m ∷ ms) b = absurd b
Built-ids (c ∷ active) [] b = absurd b

module _ (fetch : Text → Outcome Text (Object Text)) where
  -- When `handleActive` succeeds, the cache holds one entry for each id of the new list, in its order,
  -- and it is what the callback gets; nobody is told unless the manager is initialised and the ids have
  -- changed, and then everybody is told of exactly the new entries.
  pub handle_active-ok :
      (names : List Text) (zk : Bool) (self : ZkMgr) (ms : List Member)
      → (handle_active fetch (some names) zk self).0 ≡ ok ms
      → ((handle_active fetch (some names) zk self).1.active ≡ ms)
        × (ids ms ≡ map (λ c. c.id) (parse_and_unique_actives names))
        × (ids ms ≡ ids self.active
            → (handle_active fetch (some names) zk self).1.emitted ≡ self.emitted)
        × (self.inited ≡ true
            → ids ms ≢ ids self.active
            → (handle_active fetch (some names) zk self).1.emitted
              ≡ active_change (map expose ms) ∷ self.emitted)
  unfolding handle_active set_active
  handle_active-ok names zk self ms h = ground (
    arith,
    id_lists_equal_iff (ids self.active) (ids ms),
    get_all-Built fetch self.active (parse_and_unique_actives names) ms,
    Built-ids (parse_and_unique_actives names) ms,
  )

  -- A notification that is not handled to its end, for want of a connection or of the data of a node,
  -- changes nothing: the old list stays, and nobody is told.
  handle_active-fails :
      (res : Option (List Text)) (zk : Bool) (self : ZkMgr)
      → is_ok (handle_active fetch res zk self).0 ≡ false
      → (handle_active fetch res zk self).1 ≡ self
  unfolding handle_active
  handle_active-fails res zk self h = ground arith
