-- ===== src/Adm/History/Nodes/Sorted.antt =====
-- The order of the history.
use mathlib.Core.List.{Perm}
use manatee.Base.{ℕ, Text, ◌≡◌, refl, List, Bool, arith, Outcome, ok, err, lost, thrown}
use manatee.Base.Sorting.{sort_by, Ascending, Numbered, sort_by-Perm, sort_by-Ascending}
use manatee.Adm.Edits.{State}
use manatee.Adm.History.{Entry, Annotation}
use manatee.Adm.History.Nodes.{key_of, format_nodes, history, annotate_sorted, comment_all}

annotate_sorted-ok :
    (by_time : Bool) (r : Outcome Text (List Entry)) (entries : List Entry)
    (comments : List Annotation)
    → annotate_sorted by_time r ≡ ok (entries, comments)
    → (given : List Entry) × (r ≡ ok given) × (entries ≡ sort_by (key_of by_time) given)
unfolding annotate_sorted comment_all
annotate_sorted-ok by_time (ok given) entries comments h = (given, refl, ground arith)
annotate_sorted-ok by_time (err e) entries comments h = cc
annotate_sorted-ok by_time lost entries comments h = cc
annotate_sorted-ok by_time thrown entries comments h = cc

-- A history that is given holds exactly the entries that were read, and it is in ascending order if the
-- entries have numbers to sort them by.
history-Ascending :
    (fetch : Text → Outcome Text (ℕ × State)) (by_time : Bool) (names : List Text)
    (entries : List Entry) (comments : List Annotation)
    → history fetch by_time names ≡ ok (entries, comments)
    → (given : List Entry) × (format_nodes fetch names ≡ ok given)
      × Perm entries given
      × (Numbered (key_of by_time) given → Ascending (key_of by_time) entries)
unfolding history
history-Ascending fetch by_time names entries comments h =
    let (given, e, q) = annotate_sorted-ok by_time (format_nodes fetch names) entries comments h in
    let key = key_of by_time in
    (given, e, rw q (sort_by-Perm key given), λ n. rw q (sort_by-Ascending key given n))
