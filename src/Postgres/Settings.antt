-- ===== src/Postgres/Settings.antt =====
-- lib/postgresMgr.js: how postgresql.conf and recovery.conf are written, from the files that ship with
-- Manatee, the tunables, and the settings of a role. `ConfParser.read`, which is a call of the library
-- iniparser, and jsprim's `mergeObjects` are parameters.
mod Tests
use mathlib.Core.List.{Mem}
use manatee.Base.{
  Text, ◌≡◌, refl, sym, ◌∙◌, List, [], ◌∷◌, Option, none, some, arith, Outcome, ok, err, lost,
  thrown, Action, after, Option-cases, inl, inr, text_eq_iff,
}
use manatee.Base.Texts.{split}
use manatee.Base.Texts.Splits.{Without}
use manatee.Base.Objects.{Object, lookup, insert, lookup-insert}
use manatee.Conf.{set_value, conf_line, conf_text}
use manatee.Conf.Lines.{OneLiners, lines_of, split-conf_text, set_value-OneLiners, lines_of-lookup}
use manatee.Postgres.Versions.{Paths}
use manatee.Postgres.Versions.Options.{HasDistinctKeys, or_else, copy, lookup-copy}

-- The files by their paths.
abbrev pub Files : Type 0
Files = Object Text

-- `read` parses a file, and `write_error` is the error of `fs.writeFile`.
pub record Tools : Type 0 where
  pub read : Text → Files → Outcome Text (Object Text)
  pub write_error : Option Text
  pub merge : Object Text → Object Text → Object Text

-- The loop of `_updateConf` over its options.
unfoldable pub set_all : Object Text → Object Text → Object Text
unfolding set_value
set_all [] conf = conf
set_all ((key, value) ∷ options) conf = set_all options (set_value conf key value)

-- `ConfParser.write`
write : Tools → Text → Object Text → Action Files Text (Unit {0})
unfolding insert conf_text
write tools path conf files = elim tools.write_error [
  | none ↦ (ok tt, insert path (conf_text conf) files)
  | some e ↦ (err e, files)
]

-- `_updateConf`
unfoldable pub update_conf : Tools → Object Text → Text → Text → Action Files Text (Unit {0})
unfolding set_all write
update_conf tools options rpath wpath files =
    after (λ conf. write tools wpath (set_all options conf)) (tools.read rpath files, files)

-- `_updatePgConf`, with the options and the path that were resolved for the version.
unfoldable pub update_pg_conf : Tools → Paths → Text → Object Text → Action Files Text (Unit {0})
unfolding update_conf
update_pg_conf tools paths wpath updates =
    update_conf tools (tools.merge updates paths.additional_pg_options) paths.postgres_conf wpath

-- `_updateRecoveryConf`
unfoldable pub update_recovery_conf :
    Tools → Paths → Text → Object Text → Action Files Text (Unit {0})
unfolding update_conf
update_recovery_conf tools paths wpath options = update_conf tools options paths.recovery_conf wpath

or_else_assoc : (a b c : Option Text) → or_else (or_else a b) c ≡ or_else a (or_else b c)
or_else_assoc none b c = refl
or_else_assoc (some v) b c = refl

-- What the documentation of `mergeObjects(provided, null, defaults)` promises.
pub record IsMerge (merge : Object Text → Object Text → Object Text) : Type 0 where
  pub provided_first :
      (provided defaults : Object Text) (key : Text)
      → lookup key (merge provided defaults) ≡ or_else (lookup key provided) (lookup key defaults)
  pub distinct : (provided defaults : Object Text) → HasDistinctKeys (merge provided defaults)

set_all-copy : (options conf : Object Text) → set_all options conf ≡ copy options conf
unfolding set_all copy set_value
set_all-copy [] conf = refl
set_all-copy ((key, value) ∷ options) conf = set_all-copy options (insert key value conf)

set_all-OneLiners :
    (options conf : Object Text)
    → OneLiners options
    → OneLiners conf
    → OneLiners (set_all options conf)
unfolding set_all
set_all-OneLiners [] conf h k = k
set_all-OneLiners ((key, value) ∷ options) conf ((h, i), hs) k =
    set_all-OneLiners options (set_value conf key value) hs
      (set_value-OneLiners conf key value h i k)

write-lookup :
    (tools : Tools) (path : Text) (conf : Object Text) (files files' : Files)
    → write tools path conf files ≡ (ok tt, files')
    → lookup path files' ≡ some (conf_text conf)
unfolding write
write-lookup tools path conf files files' h = elim (Option-cases tools.write_error) [
  | inl e ↦
      let w : files' ≡ insert path (conf_text conf) files = ground arith in
      rw (w, lookup-insert path path (conf_text conf) files, (text_eq_iff path path).1 refl) refl
  | inr (x, e) ↦ ground arith
]

-- A successful update writes the file with one line for each setting, that of the options before
-- that of the file that was read.
update_conf-lines :
    (tools : Tools) (options conf : Object Text) (rpath wpath : Text) (files files' : Files)
    → HasDistinctKeys options
    → OneLiners options
    → OneLiners conf
    → tools.read rpath files ≡ ok conf
    → update_conf tools options rpath wpath files ≡ (ok tt, files')
    → (text : Text) × (lookup wpath files' ≡ some text)
      × ((key value : Text)
          → or_else (lookup key options) (lookup key conf) ≡ some value
          → Mem (conf_line key value) (split b'\n' text))
unfolding update_conf write
update_conf-lines tools options conf rpath wpath files files' d o c r h = (
  conf_text (set_all options conf),
  write-lookup tools wpath (set_all options conf) files files' (rw r at h),
  λ key value e. rw (split-conf_text (set_all options conf) (set_all-OneLiners options conf o c)) (
      lines_of-lookup (set_all options conf) key value
        (rw (set_all-copy options conf, lookup-copy key options conf d) e)),
)

-- A successful update of postgresql.conf writes, on a line of its own, each setting of the role, then
-- each tunable that the role does not set, then each setting of the shipped file that neither names, if
-- the settings hold no line break and `mergeObjects` does what it promises.
pub update_pg_conf-lines :
    (tools : Tools) (paths : Paths) (updates conf : Object Text) (wpath : Text)
    (files files' : Files)
    → IsMerge tools.merge
    → OneLiners (tools.merge updates paths.additional_pg_options)
    → OneLiners conf
    → tools.read paths.postgres_conf files ≡ ok conf
    → update_pg_conf tools paths wpath updates files ≡ (ok tt, files')
    → (text : Text) × (lookup wpath files' ≡ some text)
      × ((key value : Text)
          → or_else
              (lookup key updates)
              (or_else (lookup key paths.additional_pg_options) (lookup key conf))
            ≡ some value
          → Mem (conf_line key value) (split b'\n' text))
unfolding update_pg_conf
update_pg_conf-lines tools paths updates conf wpath files files' m o c r h =
    let options = tools.merge updates paths.additional_pg_options in
    let (text, e, lines) =
      update_conf-lines tools options conf paths.postgres_conf wpath files files'
        (m.distinct updates paths.additional_pg_options) o c r h in
    (
      text,
      e,
      λ key value k. lines key value (
          rw
            (
              m.provided_first updates paths.additional_pg_options key,
              or_else_assoc (lookup key updates) (lookup key paths.additional_pg_options)
                  (lookup key conf),
            )
            k),
    )
