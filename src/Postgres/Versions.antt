-- ===== src/Postgres/Versions.antt =====
-- lib/postgresMgr.js: which version of Postgres to run, and the paths and the tunables of it.
-- `getVersionInfo`, `getTunables`, `updateSymlink` and `resolveVersionedPaths` throw; their callers
-- catch that, so that an exception is an error here.
pub mod Options
pub mod Resolve
mod Tests
use manatee.Base.{
  ℕ, Text, codes, text_eq, ltb, leb, ◌==◌, ◌&&◌, ◌||◌, ◌++◌, List, [], ◌∷◌, Option, none, some,
  Bool, true, false, if◌then◌else◌, length, Outcome, ok, err, lost, thrown, Action, after, return,
  fail, ◌>>◌, ◌>>=◌,
}
use manatee.Base.Texts.{cut_last}
use manatee.Base.Objects.{Object, lookup, insert}

-- What `fs.readFileSync` finds: ENOENT, another error, or a text.
pub data File : Type 0 where
  absent : File
  unreadable : Text → File
  content : Text → File

-- What `fs.readlinkSync` finds.
pub data Link : Type 0 where
  no_link : Link
  bad_link : Text → Link
  link_to : Text → Link

-- What is written to manatee-config.json.
pub record VersionInfo : Type 0 where
  pub initialized : Text
  pub current : Text

-- What `JSON.parse` makes of the text: an exception, `null`, an object with those of the two fields
-- that are strings, or another value.
pub data Parsed : Type 0 where
  no_json : Text → Parsed
  null_value : Parsed
  object : Option Text → Option Text → Parsed
  other_value : Parsed

-- The tunables file: objects by the version that they are for.
abbrev pub Tunables : Type 0
Tunables = Object (Object Text)

-- The files that the functions read and write.
pub record Disk : Type 0 where
  pub data_conf : File
  pub pg_version : File
  pub current_link : Link
  pub tunables : File

-- The calls of `fs` that write.
pub data FsCall : Type 0 where
  write_data_conf unlink_current symlink_current : FsCall

-- The parameters: the configuration, `JSON`, `path.join`, and the errors of the calls that write.
pub record Env : Type 0 where
  pub default_version : Text
  pub versions : Object Text
  pub pg_base_dir : Text
  pub conf_dir : Text
  pub postgres_conf_file : Text
  pub recovery_conf_file : Text
  pub hba_conf_file : Text
  pub parse : Text → Parsed
  pub stringify : VersionInfo → Text
  pub parse_tunables : Text → Option Tunables
  pub join : Text → Text → Text
  pub fails : FsCall → Option Text

pub record Paths : Type 0 where
  pub db_bin_dir : Text
  pub pg_init_db_path : Text
  pub postgres_path : Text
  pub postgres_conf : Text
  pub recovery_conf : Text
  pub hba_conf : Text
  pub additional_pg_options : Object Text

-- `stripMinor`; `none` is the assertion on the place of the last dot.
unfoldable pub strip_minor : Text → Option Text
strip_minor version =
    let major = (cut_last b'.' version).0 in if ltb 2 (length major) then some major else none

is_space : ℕ → Bool
is_space c = c == 32 || (leb 9 c && leb c 13)

trim_start : Text → Text
unfolding is_space
trim_start [] = []
trim_start (c ∷ s) = let rest = trim_start s in if is_space c then rest else c ∷ s

trim_end : Text → Text
unfolding is_space
trim_end [] = []
trim_end (c ∷ s) = elim (trim_end s) [ [] ↦ if is_space c then [] else c ∷ [] | d ∷ t ↦ c ∷ d ∷ t ]

-- `s.trim()`, on ASCII.
unfoldable pub trim : Text → Text
unfolding trim_start trim_end
trim s = trim_end (trim_start s)

abbrev pub Result {ℓ} : Type ℓ → Type ℓ
Result A = Outcome Text A

-- `pgc`: `none` is null, the file's absence and the JSON text `null` alike.
unfoldable pub read_data_conf : Env → File → Result (Option Parsed)
read_data_conf env absent = ok none
read_data_conf env (unreadable e) = err e
read_data_conf env (content s) = elim (env.parse s) [
  | no_json e ↦ err e
  | null_value ↦ ok none
  | pgc ↦ ok (some pgc)
]

-- `curver`
unfoldable pub read_pg_version : File → Result (Option Text)
unfolding trim
read_pg_version absent = ok none
read_pg_version (unreadable e) = err e
read_pg_version (content s) = ok (some (trim s))

-- `this._versions[v]` as both versions or as the current one. The schema of the options requires the
-- versions 9.2 and 9.6, of which the default is one; `stripMinor` would throw on a missing one.
version_info : Option Text → Option Text → Result VersionInfo
version_info (some initialized) (some current) =
    ok (record { initialized = initialized; current = current })
version_info _ _ = err (codes "version (string) is required")

-- The versions without a manatee-config.json.
first_info : Env → Option Text → Result VersionInfo
unfolding version_info lookup
first_info env none =
    version_info (lookup env.default_version env.versions) (lookup env.default_version env.versions)
first_info env (some curver) =
    if text_eq curver (codes "9.2")
    then version_info (some (codes "9.2.4")) (lookup (codes "9.2") env.versions)
    else err (codes "curver")

same_major : Option Text → Text → Bool
same_major none major = true
same_major (some curver) major = text_eq curver major

-- The assertions on the versions that the file names.
checked_info : Text → Text → Option Text → Option Text → Option Text → Result VersionInfo
unfolding same_major
checked_info initialized pgc_current curver (some major) (some current) =
    if text_eq pgc_current current
    then if same_major curver major
      then ok (record { initialized = initialized; current = current })
      else err (codes "PG_VERSION == current major")
    else err (codes "patch version matches")
checked_info initialized pgc_current curver (some major) none = err (codes "current")
checked_info initialized pgc_current curver none current = err (codes "pos > 2")

entry_of : Env → Option Text → Option Text
unfolding lookup
entry_of env none = none
entry_of env (some major) = lookup major env.versions

info_from : Env → Option Text → Option Parsed → Result VersionInfo
unfolding first_info checked_info entry_of strip_minor
info_from env curver none = first_info env curver
info_from env curver (some (object (some initialized) (some current))) =
    let major = strip_minor current in
    checked_info initialized current curver major (entry_of env major)
info_from env curver (some _) = err (codes "pgc")

with_curver : Env → Option Parsed → Result (Option Text) → Result VersionInfo
unfolding info_from
with_curver env pgc (ok curver) = info_from env curver pgc
with_curver env pgc (err e) = err e
with_curver env pgc lost = lost
with_curver env pgc thrown = thrown

with_pgc : Env → File → Result (Option Parsed) → Result VersionInfo
unfolding with_curver read_pg_version
with_pgc env pg_version (ok pgc) = with_curver env pgc (read_pg_version pg_version)
with_pgc env pg_version (err e) = err e
with_pgc env pg_version lost = lost
with_pgc env pg_version thrown = thrown

-- `getVersionInfo`
unfoldable pub get_version_info : Env → Disk → Result VersionInfo
unfolding with_pgc read_data_conf
get_version_info env d = with_pgc env d.pg_version (read_data_conf env d.data_conf)
