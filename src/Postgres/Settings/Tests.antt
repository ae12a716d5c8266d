-- ===== src/Postgres/Settings/Tests.antt =====
-- The settings of a standby over the tunables of the operator.
use mathlib.Core.List.{Mem}
use manatee.Base.{
  Text, codes, text_dec, ◌≡◌, ◌≢◌, refl, [], ◌∷◌, Option, none, some, arith, ok, All,
}
use manatee.Base.Texts.{split}
use manatee.Base.Objects.{Object, lookup, insert, lookup-insert}
use manatee.Conf.{conf_line, conf_text}
use manatee.Postgres.Versions.{Paths}
use manatee.Postgres.Versions.Options.{HasDistinctKeys, or_else}
use manatee.Postgres.Settings.{
  Tools, update_pg_conf, update_conf, set_all, IsMerge, update_pg_conf-lines,
}

-- A merge that sets the provided options over the defaults.
over : Object Text → Object Text → Object Text
over [] o = o
over ((key, value) ∷ p) o = insert key value (over p o)

merge : Object Text → Object Text → Object Text
unfolding over
merge provided defaults = over provided (over defaults [])

lookup-over :
    (p o : Object Text) (key : Text) → lookup key (over p o) ≡ or_else (lookup key p) (lookup key o)
unfolding over lookup
lookup-over [] o key = refl
lookup-over ((j, v) ∷ p) o key =
    ground (arith, lookup-insert j key v (over p o), lookup-over p o key)

insert-ne :
    (j key : Text) (v : Text) (o : Object Text)
    → j ≢ key
    → All (λ e. j ≢ e.0) o
    → All (λ e. j ≢ e.0) (insert key v o)
unfolding insert
insert-ne j key v [] n h = (n, tt)
insert-ne j key v ((i, w) ∷ o) n h = ground (arith, insert-ne j key v o n)

insert-HasDistinctKeys :
    (key v : Text) (o : Object Text) → HasDistinctKeys o → HasDistinctKeys (insert key v o)
unfolding insert
insert-HasDistinctKeys key v [] h = (tt, tt)
insert-HasDistinctKeys key v ((i, w) ∷ o) h = elim (text_dec i key) [
  | yes e ↦ ground arith
  | no n ↦ ground (arith, insert-ne i key v o n, insert-HasDistinctKeys key v o h.1)
]

over-HasDistinctKeys : (p o : Object Text) → HasDistinctKeys o → HasDistinctKeys (over p o)
unfolding over
over-HasDistinctKeys [] o h = h
over-HasDistinctKeys ((key, v) ∷ p) o h =
    insert-HasDistinctKeys key v (over p o) (over-HasDistinctKeys p o h)

or_else-none : (a : Option Text) → or_else a none ≡ a
or_else-none none = refl
or_else-none (some v) = refl

merge-IsMerge : IsMerge merge
unfolding merge lookup
merge-IsMerge = record {
  provided_first = λ p d key.
      rw (lookup-over p (over d []) key, lookup-over d [] key, or_else-none (lookup key d)) refl;
  distinct = λ p d. over-HasDistinctKeys p (over d []) (over-HasDistinctKeys d [] tt);
}

abbrev shipped : Object Text
shipped = (codes "port", codes "5432") ∷ []

abbrev tools : Tools
tools = record { read = λ path files. ok shipped; write_error = none; merge = merge }

abbrev paths : Paths
paths = record {
  db_bin_dir = [];
  pg_init_db_path = [];
  postgres_path = [];
  postgres_conf = codes "/etc/conf";
  recovery_conf = [];
  hba_conf = [];
  additional_pg_options = (codes "a", codes "off") ∷ [];
}

abbrev updates : Object Text
updates = (codes "a", codes "on") ∷ []

abbrev result : Text
result = codes "port = 5432\na = on\n"

written : update_pg_conf tools paths (codes "/pg") updates [] ≡ (ok tt, (codes "/pg", result) ∷ [])
unfolding update_pg_conf update_conf set_all merge over insert conf_text conf_line text_dec
written = refl

update_pg_conf-lines_example :
    (text : Text) × (lookup (codes "/pg") ((codes "/pg", result) ∷ []) ≡ some text)
    × ((key value : Text)
        → or_else
            (lookup key updates)
            (or_else (lookup key paths.additional_pg_options) (lookup key shipped))
          ≡ some value
        → Mem (conf_line key value) (split b'\n' text))
unfolding merge over insert text_dec
update_pg_conf-lines_example =
    update_pg_conf-lines tools paths updates shipped (codes "/pg") [] ((codes "/pg", result) ∷ [])
      merge-IsMerge (ground arith) (ground arith) refl written
