-- ===== src/Zookeeper/Setup/Tests.antt =====
-- The second peer of a shard joins.
use manatee.Base.{
  Text, codes, ◌≡◌, ◌≢◌, refl, ap, ◌∙◌, subst, List, [], ◌∷◌, ◌++◌, Option, none, some, Bool, true,
  false, All, Outcome, ok, arith, inl, inr, text_dec,
}
use manatee.Base.Texts.Splits.{Without}
use manatee.Base.Texts.{cut_last}
use manatee.Zookeeper.{
  ZkMgr, Member, ids, handle_active, handle_cluster_state, get_all, get_data, set_active, cached,
}
use manatee.Zookeeper.Actives.{
  parse, parse_and_unique_actives, newest, keep_newest, sort, insert_sorted, select, id_lists_equal,
}
use manatee.Base.Texts.{text_leb, parse_int}
use manatee.Base.Objects.{lookup, insert}
use manatee.Zookeeper.Actives.Sorted.{Mentions}
use manatee.Zookeeper.Setup.{
  Server, Options, setup_data, prepare, join, ephemeral_node, ephemeral_path,
}
use manatee.Zookeeper.Setup.Joined.{IsListed, setup_data-Mentions}

-- The election once the peer has joined, and before.
abbrev names_of : Bool → List Text
names_of true = codes "b-7" ∷ codes "a-10" ∷ []
names_of false = codes "b-7" ∷ []

-- A server whose state is whether the peer has joined.
abbrev election : Server Bool
election = record {
  mkdirp = λ path s. (ok tt, s);
  watch_state = λ path s. (ok none, s);
  create_sequential = λ node text s. (ok node, true);
  watch_children = λ path s. (ok (some (names_of s)), s);
  get_data = λ s name. ok ((codes "zoneId", codes "z") ∷ []);
}

abbrev a_peer : Options
a_peer = record { id = codes "a"; path = codes "/manatee/1"; data_text = codes "{}" }

abbrev names_in : Outcome Text (Option (List Text)) → List Text
names_in (ok (some names)) = names
names_in _ = []

abbrev Listed : List Text → Type 0
Listed names =
    All (λ name. (parse name).seq ≢ none) names
    × ((number : Text) × Without b'-' number × Mentions (codes "a" ++ b'-' ∷ number) names)

joined_Listed : Listed (names_of true)
unfolding parse cut_last parse_int
joined_Listed = (((λ h. cc), ((λ h. cc), tt)), (codes "10", (ground arith), inr (inl refl)))

election-IsListed : IsListed election a_peer
election-IsListed s s1 s2 node names e f =
    let joined : true ≡ s1 = ap (λ r. r.1) e in
    let read : names_of s1 ≡ names = ap (λ r. names_in r.0) f in
    subst Listed (ap names_of joined ∙ read) joined_Listed

abbrev starting : ZkMgr
starting = record {
  inited = false;
  connected = true;
  active = [];
  cluster_state = none;
  version = none;
  emitted = [];
}

abbrev members : List Member
members =
    record {
      id = codes "a";
      seq = some 10;
      name = codes "a-10";
      node = (codes "zoneId", codes "z") ∷ [];
    }
    ∷ record {
      id = codes "b";
      seq = some 7;
      name = codes "b-7";
      node = (codes "zoneId", codes "z") ∷ [];
    }
    ∷ []

set_up :
    setup_data election a_peer (false, starting)
    ≡ (ok members, (true, record starting { active = members }))
unfolding setup_data prepare join handle_cluster_state handle_active get_all get_data cached
    set_active parse_and_unique_actives newest keep_newest parse cut_last parse_int sort
    insert_sorted select text_dec text_leb lookup insert ephemeral_node ephemeral_path
    id_lists_equal
set_up = refl

setup_data-Mentions_example : Mentions (codes "a") (ids members)
setup_data-Mentions_example =
    setup_data-Mentions election a_peer false true starting (record starting { active = members })
      members election-IsListed set_up
