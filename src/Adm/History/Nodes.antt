-- ===== src/Adm/History/Nodes.antt =====
-- lib/adm.js: `translateHistoryNode` and `oldHistoryToObj`, which read a node of the history, and
-- `history`, which reads, sorts and annotates them all.
pub mod Names
pub mod Sorted
use manatee.Base.{
  ℕ, Text, codes, text_eq, List, [], ◌∷◌, ◌++◌, map, get_elem?, length, ltb, Option, none, some,
  Bool, true, false, ◌||◌, if◌then◌else◌, Outcome, ok, err, lost, thrown,
}
use manatee.Base.Texts.{split, parse_int}
use manatee.Base.Sorting.{sort_by}
use manatee.Adm.Edits.{State}
use manatee.Adm.History.{Entry, Annotation, annotate_all}

-- What a node of version 1 tells, by its name alone; a part that is missing is not set.
pub record OldNode : Type 0 where
  pub time : Option ℕ
  pub ip : Option Text
  pub action : Option Text
  pub role : Option Text
  pub master : Option Text
  pub slave : Option Text
  pub zk_seq : Option Text

-- `(… ^ fNode[j] === 'undefined' ^ fNode[j] === 'null') ? '' : fNode[j]`, of a text.
unfoldable pub cleaned : Text → Text
cleaned part = if text_eq part (codes "undefined") || text_eq part (codes "null") then [] else part

cleaned_at : List Text → ℕ → Option Text
unfolding cleaned
cleaned_at parts i = elim (get_elem? parts i) [ none ↦ none | some part ↦ some (cleaned part) ]

time_of : Option Text → Option ℕ
unfolding parse_int
time_of none = none
time_of (some part) = parse_int part

unfoldable pub old_history_to_obj : List Text → OldNode
unfolding cleaned_at time_of
old_history_to_obj parts = record {
  time = time_of (cleaned_at parts 0);
  ip = cleaned_at parts 1;
  action = cleaned_at parts 2;
  role = cleaned_at parts 3;
  master = cleaned_at parts 4;
  slave = cleaned_at parts 5;
  zk_seq = cleaned_at parts 6;
}

pub data Node : Type 0 where
  old_node : OldNode → Node
  new_node : ℕ → State → Option Text → Node

abbrev with_state : Option Text → Outcome Text (ℕ × State) → Outcome Text Node
with_state zk_seq (ok (time, s)) = ok (new_node time s zk_seq)
with_state zk_seq (err e) = err e
with_state zk_seq lost = lost
with_state zk_seq thrown = thrown

-- `translateHistoryNode`; `fetch` stands for `zk.getData` of the node, with its creation time and the
-- `JSON.parse` of what it gives.
unfoldable pub translate_history_node : (Text → Outcome Text (ℕ × State)) → Text → Outcome Text Node
unfolding split
translate_history_node fetch name =
    let parts = split b'-' name in
    if ltb 2 (length parts)
    then ok (old_node (old_history_to_obj parts))
    else with_state (get_elem? parts 1) (fetch name)

-- What the annotation reads of a node.
abbrev pub entry_of : Node → Entry
entry_of (old_node n) = record { time = n.time; zk_seq = n.zk_seq; action = n.action; state = none }
entry_of (new_node time s zk_seq) = record {
  time = some time;
  zk_seq = zk_seq;
  action = none;
  state = some s;
}

-- The parallel reads of `formatNodes`.
and_then : Outcome Text Node → Outcome Text (List Entry) → Outcome Text (List Entry)
and_then thrown _ = thrown
and_then _ thrown = thrown
and_then lost _ = lost
and_then _ lost = lost
and_then (err e) _ = err e
and_then (ok n) (err e) = err e
and_then (ok n) (ok entries) = ok (entry_of n ∷ entries)

unfoldable pub format_nodes :
    (Text → Outcome Text (ℕ × State)) → List Text → Outcome Text (List Entry)
unfolding and_then
format_nodes fetch [] = ok []
format_nodes fetch (name ∷ names) =
    let rest = format_nodes fetch names in and_then (translate_history_node fetch name) rest

abbrev pub seq_of : Option Text → Option ℕ
unfolding parse_int
seq_of none = none
seq_of (some s) = parse_int s

-- What the entries are sorted by: the time, or the number of the node.
unfoldable pub key_of : Bool → Entry → Option ℕ
key_of by_time e = if by_time then e.time else seq_of e.zk_seq

comment_all :
    List Entry → Outcome Text (List Annotation) → Outcome Text (List Entry × List Annotation)
comment_all entries (ok comments) = ok (entries, comments)
comment_all entries (err e) = err e
comment_all entries lost = lost
comment_all entries thrown = thrown

annotate_sorted : Bool → Outcome Text (List Entry) → Outcome Text (List Entry × List Annotation)
unfolding comment_all
annotate_sorted by_time (ok entries) =
    let sorted = sort_by (key_of by_time) entries in comment_all sorted (annotate_all none sorted)
annotate_sorted by_time (err e) = err e
annotate_sorted by_time lost = lost
annotate_sorted by_time thrown = thrown

-- `history`, of the names that `fetchHistory` gives: the sorted entries with their comments.
unfoldable pub history :
    (Text → Outcome Text (ℕ × State))
    → Bool
    → List Text
    → Outcome Text (List Entry × List Annotation)
unfolding annotate_sorted
history fetch by_time names = annotate_sorted by_time (format_nodes fetch names)
