-- ===== src/Zookeeper/Setup/Joined.antt =====
-- lib/zookeeperMgr.js: a client that has set up its data counts itself among the active peers.
use manatee.Base.{
  Text, ◌≡◌, ◌≢◌, refl, sym, ◌∙◌, ap, subst, List, [], ◌∷◌, ◌++◌, map, none, some, All, ok,
  after-succeeds, inl, inr, Option-cases, true,
}
use manatee.Base.Texts.Splits.{Without, cut_last-append}
use manatee.Zookeeper.{Member, ZkMgr, ids, handle_active}
use manatee.Zookeeper.Actives.{Active, parse, parse_and_unique_actives}
use manatee.Zookeeper.Actives.Sorted.{Mentions}
use manatee.Zookeeper.Actives.Newest.{Kept, Among, parse_and_unique_actives-Newest}
use manatee.Zookeeper.Handlers.{handle_active-ok}
use manatee.Zookeeper.Setup.{
  Server, Options, ephemeral_node, ephemeral_path, setup_data, join, prepare, on_server,
  set_actives,
}

-- What ZooKeeper documents of a sequential node: while it is there, a read of the directory lists it,
-- with a number behind its prefix; and every node of the election was made in that way.
abbrev pub IsListed : {S : Type 0} → Server S → Options → Type 0
IsListed {S} server o =
    (s s1 s2 : S) (node : Text) (names : List Text)
    → server.create_sequential (ephemeral_node o) o.data_text s ≡ (ok node, s1)
    → server.watch_children (ephemeral_path o) s1 ≡ (ok (some names), s2)
    → All (λ name. (parse name).seq ≢ none) names
      × ((number : Text) × Without b'-' number × Mentions (o.id ++ b'-' ∷ number) names)

All-Mentions : (P : Text → Type 0) (x : Text) (xs : List Text) → All P xs → Mentions x xs → P x
All-Mentions P x [] h m = absurd m
All-Mentions P x (y ∷ ys) h (inl e) = subst P (sym e) h.0
All-Mentions P x (y ∷ ys) h (inr m) = All-Mentions P x ys h.1 m

Among-id :
    (a : Active) (actives : List Active) → Among a actives → Mentions a.id (map (λ c. c.id) actives)
Among-id a [] m = absurd m
Among-id a (b ∷ rest) (inl e) = inl (ap (λ (c : Active). c.id) e)
Among-id a (b ∷ rest) (inr m) = inr (Among-id a rest m)

parse-id : (id number : Text) → Without b'-' number → (parse (id ++ b'-' ∷ number)).id ≡ id
unfolding parse
parse-id id number h = rw (cut_last-append b'-' id number h) refl

-- A peer whose node is among the names is in the list of actives.
pub listed-Mentions :
    (id number : Text) (names : List Text)
    → Without b'-' number
    → All (λ name. (parse name).seq ≢ none) names
    → Mentions (id ++ b'-' ∷ number) names
    → Mentions id (map (λ c. c.id) (parse_and_unique_actives names))
listed-Mentions id number names h numbered m =
    let (b, among, same, reaches) =
      All-Mentions (λ s. Kept (parse s) (parse_and_unique_actives names)) (id ++ b'-' ∷ number)
        names (parse_and_unique_actives-Newest names numbered) m in
    subst (λ i. Mentions i (map (λ c. c.id) (parse_and_unique_actives names)))
      (same ∙ parse-id id number h) (Among-id b (parse_and_unique_actives names) among)

module _ {S : Type 0} (server : Server S) (o : Options) (listed : IsListed server o) where
  set_actives-ids :
      (names : List Text) (s s' : S) (self self' : ZkMgr) (ms : List Member)
      → set_actives server o (some names) (s, self) ≡ (ok ms, (s', self'))
      → (self'.active ≡ ms) × (ids ms ≡ map (λ c. c.id) (parse_and_unique_actives names))
  set_actives-ids names s s' self self' ms h =
      let r = handle_active (server.get_data s) (some names) true self in
      let f = handle_active-ok (server.get_data s) names true self ms (ap (λ x. x.0) h) in
      (sym (ap (λ x. x.1.1.active) h) ∙ f.0, f.1)

  -- Nothing comes of a directory that is missing.
  set_actives-none :
      (s s' : S) (self self' : ZkMgr) (ms : List Member)
      → set_actives server o none (s, self) ≢ (ok ms, (s', self'))
  unfolding handle_active
  set_actives-none s s' self self' ms h = let e = ap (λ x. x.0) h in cc

  join-Mentions :
      (s s' : S) (self self' : ZkMgr) (ms : List Member)
      → join server o (s, self) ≡ (ok ms, (s', self'))
      → Mentions o.id (ids self'.active)
  unfolding join
  join-Mentions s s' self self' ms h =
      let made = server.create_sequential (ephemeral_node o) o.data_text s in
      let read = server.watch_children (ephemeral_path o) made.1 in
      let (node, e, k) =
        after-succeeds _
          (on_server server o (server.create_sequential (ephemeral_node o) o.data_text) (s, self))
          ms (s', self') h in
      let (res, f, l) =
        after-succeeds (set_actives server o)
          (on_server server o (server.watch_children (ephemeral_path o)) (made.1, self)) ms
          (s', self') k in
      elim (Option-cases res) [
        | inl n ↦ absurd (set_actives-none read.1 s' self self' ms (rw n at l))
        | inr (names, n) ↦
            let (numbered, (number, without, m)) =
              listed s made.1 read.1 node names (ap (λ r. (r, made.1)) e)
                (ap (λ r. (r, read.1)) (f ∙ ap ok n)) in
            let (active, same) = set_actives-ids names read.1 s' self self' ms (rw n at l) in
            rw (active, same) (listed-Mentions o.id number names without numbered m)
      ]

-- A client whose `setupData` succeeds has the peer itself among its actives, if ZooKeeper lists, with a
-- number behind its prefix, the sequential node that the client has made.
pub setup_data-Mentions :
    {S : Type 0} (server : Server S) (o : Options) (s s' : S) (self self' : ZkMgr)
    (ms : List Member)
    → IsListed server o
    → setup_data server o (s, self) ≡ (ok ms, (s', self'))
    → Mentions o.id (ids self'.active)
unfolding setup_data
setup_data-Mentions server o s s' self self' ms listed h =
    let (u, e, k) = after-succeeds _ (prepare server o (s, self)) ms (s', self') h in
    join-Mentions server o listed (prepare server o (s, self)).1.0 s'
      (prepare server o (s, self)).1.1 self' ms k
