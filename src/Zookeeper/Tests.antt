-- ===== src/Zookeeper/Tests.antt =====
-- A list with two nodes of one peer.
use manatee.Base.{
  Text, codes, ◌≡◌, refl, ◌≢◌, List, [], ◌∷◌, map, none, some, true, false, All, text_dec, Outcome,
  ok, err,
}
use manatee.Base.Texts.{text_leb}
use manatee.Base.Objects.{Object}
use manatee.Zookeeper.{
  Member, ZkMgr, active_change, expose, cached, get_data, get_all, set_active, handle_active,
}
use manatee.Zookeeper.Actives.{
  parse, parse_and_unique_actives, newest, keep_newest, sort, insert_sorted, select, id_lists_equal,
}
use manatee.Zookeeper.Actives.Newest.{Kept, parse_and_unique_actives-Newest}
use manatee.Zookeeper.Handlers.{is_ok}
use manatee.Zookeeper.Handlers.Again.{handle_active-again}

abbrev names : List Text
names = codes "b-25" ∷ codes "a-5" ∷ codes "a-10" ∷ []

actives_of_names :
    map (λ a. a.name) (parse_and_unique_actives names) ≡ codes "a-10" ∷ codes "b-25" ∷ []
unfolding parse_and_unique_actives newest keep_newest parse sort insert_sorted select text_dec
    text_leb
actives_of_names = refl

names_numbered : All (λ s. (parse s).seq ≢ none) names
unfolding parse
names_numbered = ((λ h. cc), ((λ h. cc), ((λ h. cc), tt)))

parse_and_unique_actives-Newest_example :
    All (λ s. Kept (parse s) (parse_and_unique_actives names)) names
parse_and_unique_actives-Newest_example = parse_and_unique_actives-Newest names names_numbered

abbrev manager : ZkMgr
manager = record {
  inited = true;
  connected = true;
  active = [];
  cluster_state = none;
  version = none;
  emitted = [];
}

-- Each node says that it runs in zone z.
abbrev fetch : Text → Outcome Text (Object Text)
fetch name = ok ((codes "zoneId", codes "z") ∷ [])

abbrev unreadable : Text → Outcome Text (Object Text)
unreadable name = err (codes "CONNECTION_LOSS")

abbrev node : Object Text
node = (codes "zoneId", codes "z") ∷ []

abbrev members : List Member
members =
    record { id = codes "a"; seq = some 10; name = codes "a-10"; node = node }
    ∷ record { id = codes "b"; seq = some 25; name = codes "b-25"; node = node }
    ∷ []

fetched : (handle_active fetch (some names) true manager).0 ≡ ok members
unfolding handle_active get_all get_data cached parse_and_unique_actives newest keep_newest parse
    sort insert_sorted select text_dec text_leb
fetched = refl

not_read : is_ok (handle_active unreadable (some names) true manager).0 ≡ false
unfolding handle_active get_all get_data cached parse_and_unique_actives newest keep_newest parse
    sort insert_sorted select text_dec text_leb
not_read = refl

abbrev informed : ZkMgr
informed = record manager { active = members; emitted = active_change (map expose members) ∷ [] }

handled : handle_active fetch (some names) true manager ≡ (ok members, informed)
unfolding handle_active set_active id_lists_equal get_all get_data cached parse_and_unique_actives
    newest keep_newest parse sort insert_sorted select text_dec text_leb
handled = refl

handle_active-again_example :
    handle_active unreadable (some names) true informed ≡ (ok members, informed)
handle_active-again_example =
    handle_active-again fetch unreadable names manager informed members names_numbered handled
