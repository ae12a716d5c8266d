-- ===== src/Conf/Lines.antt =====
-- lib/confParser.js: the lines of a configuration that was written.
use mathlib.Core.List.{Mem, mem-cons_self, mem-cons_of_mem}
use manatee.Base.{
  Text, codes, text_eq, text_eq_iff, ◌≡◌, ◌≢◌, ◌∙◌, refl, ap, List, [], ◌∷◌, ◌++◌, some, Bool-cases,
  arith, inl, inr,
}
use manatee.Base.Texts.{split}
use manatee.Base.Texts.Splits.{Without, split-part, Without-append}
use manatee.Base.Objects.{Object, insert, lookup, lookup-insert}
use manatee.Conf.{set_value, conf_line, conf_text}

-- No key and no value holds a line break.
abbrev pub OneLiners : Object Text → Type 0
OneLiners [] = Unit
OneLiners ((key, value) ∷ conf) = (Without b'\n' key × Without b'\n' value) × OneLiners conf

abbrev pub lines_of : Object Text → List Text
lines_of [] = [] ∷ []
lines_of ((key, value) ∷ conf) = conf_line key value ∷ lines_of conf

conf_line-one :
    (key value : Text)
    → Without b'\n' key
    → Without b'\n' value
    → Without b'\n' (conf_line key value)
unfolding conf_line
conf_line-one key value h k =
    Without-append b'\n' (key ++ codes " = ") value
      (Without-append b'\n' key (codes " = ") h (ground arith, (ground arith, (ground arith, tt))))
      k

pub split-conf_text :
    (conf : Object Text) → OneLiners conf → split b'\n' (conf_text conf) ≡ lines_of conf
unfolding conf_text split
split-conf_text [] h = refl
split-conf_text ((key, value) ∷ conf) ((k, v), h) =
    split-part b'\n' (conf_line key value) (conf_text conf) (conf_line-one key value k v)
    ∙ ap (λ ls. conf_line key value ∷ ls) (split-conf_text conf h)

pub set_value-OneLiners :
    (conf : Object Text) (key value : Text)
    → Without b'\n' key
    → Without b'\n' value
    → OneLiners conf
    → OneLiners (set_value conf key value)
unfolding set_value insert
set_value-OneLiners [] key value k v h = ((k, v), tt)
set_value-OneLiners ((j, w) ∷ conf) key value k v (o, h) = elim (Bool-cases (text_eq j key)) [
  | inl e ↦ rw e ((o.0, v), h)
  | inr e ↦ rw e (o, set_value-OneLiners conf key value k v h)
]

pub lines_of-lookup :
    (conf : Object Text) (key value : Text)
    → lookup key conf ≡ some value
    → Mem (conf_line key value) (lines_of conf)
unfolding lookup
lines_of-lookup [] key value h = cc
lines_of-lookup ((j, w) ∷ conf) key value h = elim (Bool-cases (text_eq j key)) [
  | inl e ↦
      let same_key = (text_eq_iff j key).0 e in
      let same_value : w ≡ value = ground arith in rw (same_key, same_value) mem-cons_self
  | inr e ↦ mem-cons_of_mem (conf_line j w) (lines_of-lookup conf key value (ground arith))
]

-- Once a key is set and the configuration written, the file has a line for the key with that value, and
-- still the line of every other key, if no key and no value holds a line break.
conf_text-set_value :
    (conf : Object Text) (key value : Text)
    → OneLiners conf
    → Without b'\n' key
    → Without b'\n' value
    → let lines = split b'\n' (conf_text (set_value conf key value)) in
      Mem (conf_line key value) lines
      × ((other old : Text)
          → other ≢ key
          → lookup other conf ≡ some old
          → Mem (conf_line other old) lines)
unfolding set_value
conf_text-set_value conf key value o k v =
    rw (split-conf_text (set_value conf key value) (set_value-OneLiners conf key value k v o)) (
      lines_of-lookup (insert key value conf) key value (grind (arith, lookup-insert, text_eq_iff)),
      λ other old n h.
          lines_of-lookup (insert key value conf) other old
            (grind (arith, lookup-insert, text_eq_iff)),
    )
