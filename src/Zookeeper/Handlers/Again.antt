-- ===== src/Zookeeper/Handlers/Again.antt =====
-- A notification that brings nothing new.
use manatee.Base.{
  Text, ◌≡◌, refl, ◌≢◌, List, [], ◌∷◌, none, some, true, arith, All, Outcome, ok, subst,
}
use manatee.Base.Objects.{Object}
use manatee.Zookeeper.Actives.{Active, parse, parse_and_unique_actives}
use manatee.Zookeeper.Actives.Sorted.{Mentions, Before, Sorted, parse_and_unique_actives-Sorted}
use manatee.Zookeeper.Actives.Listed.{parse_and_unique_actives-listed}
use manatee.Zookeeper.{
  Member, ZkMgr, cached, to_member, get_data, get_all, ids, handle_active, set_active,
  finish_active,
}
use manatee.Zookeeper.Handlers.{Built, Built-ids, get_all-Built, id_lists_equal_iff}

-- Each member is found under its own id.
Found : List Member → List Member → Type 0
Found ms [] = Unit
Found ms (m ∷ rest) = (cached m.id ms ≡ some m) × Found ms rest

cached-none : (id : Text) (ms : List Member) → All (Before id) (ids ms) → cached id ms ≡ none
unfolding cached
cached-none id [] h = refl
cached-none id (m ∷ ms) h = ground (arith, cached-none id ms h.1)

cached-skip :
    (id : Text) (m : Member) (ms : List Member) → m.id ≢ id → cached id (m ∷ ms) ≡ cached id ms
unfolding cached
cached-skip id m ms h = ground arith

cached-here :
    (m : Member) (ms : List Member) → All (Before m.id) (ids ms) → cached m.id (m ∷ ms) ≡ some m
unfolding cached
cached-here m ms h = ground (arith, cached-none m.id ms h)

Found-skip :
    (m : Member) (ms rest : List Member)
    → All (Before m.id) (ids rest)
    → Found ms rest
    → Found (m ∷ ms) rest
unfolding Found
Found-skip m ms [] h f = tt
Found-skip m ms (n ∷ rest) h f =
    (rw (cached-skip n.id m ms h.0.1) f.0, Found-skip m ms rest h.1 f.1)

Found-Sorted : (ms : List Member) → Sorted (ids ms) → Found ms ms
unfolding Found
Found-Sorted [] h = tt
Found-Sorted (m ∷ ms) h = (cached-here m ms h.0, Found-skip m ms ms h.0 (Found-Sorted ms h.1))

module _ (fetch : Text → Outcome Text (Object Text)) where
  get_data-cached :
      (ms : List Member) (c : Active) (m : Member)
      → m ≡ to_member c m.node
      → cached m.id ms ≡ some m
      → c.seq ≢ none
      → get_data fetch ms c ≡ ok m
  unfolding get_data
  get_data-cached ms c m b f n = ground arith

  get_all-cached :
      (ms : List Member) (active : List Active) (rest : List Member)
      → Built active rest
      → Found ms rest
      → All (λ c. c.seq ≢ none) active
      → get_all fetch ms active ≡ ok rest
  unfolding get_all Built Found
  get_all-cached ms [] [] b f n = refl
  get_all-cached ms (c ∷ active) (m ∷ rest) b f n =
      rw (get_data-cached ms c m b.0 f.0 n.0, get_all-cached ms active rest b.1 f.1 n.1)
  get_all-cached ms [] (m ∷ rest) b f n = absurd b
  get_all-cached ms (c ∷ active) [] b f n = absurd b

numbered_at :
    (k : Text) (names : List Text)
    → All (λ s. (parse s).seq ≢ none) names
    → Mentions k names
    → (parse k).seq ≢ none
numbered_at k [] n m = absurd m
numbered_at k (s ∷ names) n m = ground (arith, numbered_at k names n.1)

numbered_actives :
    (names : List Text) (active : List Active)
    → All (λ s. (parse s).seq ≢ none) names
    → All (λ a. Mentions a.name names × (a ≡ parse a.name)) active
    → All (λ c. c.seq ≢ none) active
numbered_actives names [] n h = tt
numbered_actives names (c ∷ active) n h =
    (ground (arith, numbered_at c.name names n h.0.0), numbered_actives names active n h.1)

module _ (fetch : Text → Outcome Text (Object Text)) where
  finished :
      (r : Outcome Text (List Member)) (self t : ZkMgr) (ms : List Member)
      → finish_active fetch r self ≡ (ok ms, t)
      → (r ≡ ok ms) × (t.active ≡ ms)
  unfolding set_active
  finished r self t ms h = ground arith

  settled : (ms : List Member) (t : ZkMgr) → t.active ≡ ms → set_active ms t ≡ t
  unfolding set_active
  settled ms t h = ground (arith, id_lists_equal_iff (ids t.active) (ids ms))

module _ (fetch again : Text → Outcome Text (Object Text)) where
  -- Once a list of nodes with sequence numbers has been handled, handling the same list again answers
  -- the same, reads no node, whatever a read would give, and changes nothing, so that nobody is told.
  pub handle_active-again :
      (names : List Text) (self t : ZkMgr) (ms : List Member)
      → All (λ s. (parse s).seq ≢ none) names
      → handle_active fetch (some names) true self ≡ (ok ms, t)
      → handle_active again (some names) true t ≡ (ok ms, t)
  unfolding handle_active set_active
  handle_active-again names self t ms n h =
      let actives = parse_and_unique_actives names in
      let (e, same) = finished fetch (get_all fetch self.active actives) self t ms h in
      let b = get_all-Built fetch self.active actives ms e in
      let sorted = subst Sorted (Built-ids actives ms b) (parse_and_unique_actives-Sorted names) in
      let numbered = numbered_actives names actives n (parse_and_unique_actives-listed names) in
      let known = get_all-cached again ms actives ms b (Found-Sorted ms sorted) numbered in
      rw (same, known) (ground (arith, settled again ms t same))
