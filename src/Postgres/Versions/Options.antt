-- ===== src/Postgres/Versions/Options.antt =====
-- lib/postgresMgr.js: the options of Postgres that the operator tunes, and which setting wins.
use manatee.Base.{
  Text, codes, text_eq, text_eq_iff, ◌≡◌, ◌≢◌, refl, [], ◌∷◌, Option, none, some, arith, All, ok,
  err, Bool-cases, inl, inr,
}
use manatee.Base.Objects.{Object, lookup, insert, lookup-insert}
use manatee.Postgres.Versions.{Env, Disk, Result, Tunables, absent, unreadable, content}

-- `copy`: each key of the source is set.
unfoldable pub copy : Object Text → Object Text → Object Text
copy [] options = options
copy ((key, value) ∷ source) options = copy source (insert key value options)

unfoldable pub copy_section : Option (Object Text) → Object Text → Object Text
copy_section none options = options
copy_section (some source) options = copy source options

abbrev pub default_options : Object Text
default_options = (codes "synchronous_commit", codes "remote_write") ∷ []

-- The options of `getTunables`, from the common ones to those of the version.
unfoldable pub tunables_for : Text → Text → Tunables → Object Text
tunables_for version major tunables = copy_section (lookup version tunables) (
    copy_section (lookup major tunables)
      (copy_section (lookup (codes "common") tunables) default_options))

loaded : Text → Text → Option Tunables → Result (Object Text)
unfolding tunables_for
loaded version major (some tunables) = ok (tunables_for version major tunables)
loaded version major none = err (codes "failed to load")

-- `getTunables`
unfoldable pub get_tunables : Env → Text → Text → Disk → Result (Object Text)
unfolding loaded
get_tunables env version major d = elim d.tunables [
  | content s ↦ loaded version major (env.parse_tunables s)
  | absent ↦ err (codes "failed to load")
  | unreadable e ↦ err e
]

-- No key comes twice, as in what `JSON.parse` gives.
abbrev pub HasDistinctKeys : Object Text → Type 0
HasDistinctKeys [] = Unit
HasDistinctKeys ((key, value) ∷ o) = All (λ e. key ≢ e.0) o × HasDistinctKeys o

-- The first of the two that is set.
abbrev pub or_else : Option Text → Option Text → Option Text
or_else (some v) w = some v
or_else none w = w

-- The setting of a key in a section that may be missing.
abbrev pub setting : Text → Option (Object Text) → Option Text
setting key none = none
setting key (some section) = lookup key section

abbrev pub Sections : Option (Object Text) → Type 0
Sections none = Unit
Sections (some section) = HasDistinctKeys section

lookup-absent : (key : Text) (o : Object Text) → All (λ e. key ≢ e.0) o → lookup key o ≡ none
unfolding lookup
lookup-absent key [] h = refl
lookup-absent key ((j, v) ∷ o) h = grind (arith, lookup-absent key o h.1, text_eq_iff j key)

pub lookup-copy :
    (key : Text) (source options : Object Text)
    → HasDistinctKeys source
    → lookup key (copy source options) ≡ or_else (lookup key source) (lookup key options)
unfolding copy lookup
lookup-copy key [] options h = refl
lookup-copy key ((j, v) ∷ source) options h = elim (Bool-cases (text_eq j key)) [
  | inl e ↦
      rw (lookup-copy key source (insert j v options) h.1, lookup-insert j key v options, e)
        (grind (arith, lookup-absent j source h.0, text_eq_iff j key))
  | inr e ↦
      rw (lookup-copy key source (insert j v options) h.1, lookup-insert j key v options, e) refl
]

lookup-copy_section :
    (key : Text) (section : Option (Object Text)) (options : Object Text)
    → Sections section
    → lookup key (copy_section section options) ≡ or_else (setting key section) (lookup key options)
unfolding copy_section
lookup-copy_section key none options h = refl
lookup-copy_section key (some section) options h = lookup-copy key section options h

-- In the options for a version, a setting for the full version wins over one for the major version, that
-- over a common one, and that over the default, whatever the order in the file, if no section names a key
-- twice.
pub lookup-tunables_for :
    (key version major : Text) (tunables : Tunables)
    → Sections (lookup version tunables)
    → Sections (lookup major tunables)
    → Sections (lookup (codes "common") tunables)
    → lookup key (tunables_for version major tunables)
      ≡ or_else (setting key (lookup version tunables)) (
          or_else
            (setting key (lookup major tunables))
            (or_else (setting key (lookup (codes "common") tunables)) (lookup key default_options)))
unfolding tunables_for
lookup-tunables_for key version major tunables h k l =
    rw (lookup-copy_section, lookup-copy_section, lookup-copy_section) refl
