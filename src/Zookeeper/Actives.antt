-- ===== src/Zookeeper/Actives.antt =====
-- lib/zookeeperMgr.js: `parseAndUniqueActives` and `idListsEqual`, on the names of the ephemeral nodes
-- by which the peers of a shard announce themselves.
pub mod Sorted
pub mod Newest
pub mod Listed
use manatee.Base.{
  ℕ, Text, text_eq, List, [], ◌∷◌, map, Option, none, some, Bool, true, false, ◌&&◌, if◌then◌else◌,
}
use manatee.Base.Texts.{text_leb, cut_last, parse_int, num_gt}
use manatee.Base.Objects.{Object, lookup, insert, keys}

-- What `parse` makes of a name; `none` is a sequence number that is not a number.
pub record Active : Type 0 where
  pub id : Text
  pub seq : Option ℕ
  pub name : Text

unfoldable pub parse : Text → Active
unfolding cut_last parse_int
parse a = let (id, seq) = cut_last b'-' a in record { id = id; seq = parse_int seq; name = a }

-- `if (!max[a.id] || a.seq > max[a.id]['seq']) { max[a.id] = a; }`, where no id is the name of a
-- property that every object has.
unfoldable pub keep_newest : Active → Object Active → Object Active
unfolding lookup insert
keep_newest a max = elim (lookup a.id max) [
  | none ↦ insert a.id a max
  | some b ↦ if num_gt a.seq b.seq then insert a.id a max else max
]

unfoldable pub newest : List Text → Object Active → Object Active
newest [] max = max
newest (a ∷ list) max = newest list (keep_newest (parse a) max)

unfoldable pub insert_sorted : Text → List Text → List Text
insert_sorted k [] = k ∷ []
insert_sorted k (j ∷ ks) =
    let rest = insert_sorted k ks in if text_leb k j then k ∷ j ∷ ks else j ∷ rest

-- `Array.prototype.sort`
unfoldable pub sort : List Text → List Text
sort [] = []
sort (k ∷ ks) = insert_sorted k (sort ks)

-- `.map(function (o) { return (max[o]); })`, of keys of `max`.
unfoldable pub select : Object Active → List Text → List Active
select max [] = []
select max (k ∷ ks) = elim (lookup k max) [ none ↦ select max ks | some a ↦ a ∷ select max ks ]

unfoldable pub parse_and_unique_actives : List Text → List Active
unfolding newest
parse_and_unique_actives list = let max = newest list [] in select max (sort (keys max))

-- `idListsEqual`, on the ids that `extractId` takes.
unfoldable pub id_lists_equal : List Text → List Text → Bool
id_lists_equal [] [] = true
id_lists_equal (a ∷ more) (b ∷ rest) = text_eq a b && id_lists_equal more rest
id_lists_equal _ _ = false
