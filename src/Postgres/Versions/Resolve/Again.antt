-- ===== src/Postgres/Versions/Resolve/Again.antt =====
-- lib/postgresMgr.js: what a resolution of the versioned paths leaves for the next one.
use manatee.Base.{
  Text, codes, text_dec, ◌≡◌, refl, sym, ◌∙◌, Option, none, some, arith, ok, err, lost, thrown,
  after-succeeds, Option-cases, inl, inr,
}
use manatee.Base.Objects.{Object, lookup}
use manatee.Postgres.Versions.{
  Env, Disk, Paths, Result, VersionInfo, Parsed, no_json, null_value, other_value, object, File,
  Link, no_link, bad_link, link_to, content, absent, unreadable, FsCall, write_data_conf,
  get_version_info, strip_minor, read_data_conf, read_pg_version, trim, info_from, first_info,
  version_info, checked_info, entry_of, with_pgc, with_curver,
}
use manatee.Postgres.Versions.Options.{get_tunables}
use manatee.Postgres.Versions.Resolve.{
  resolve_to, major_of, write_files, reads, call, save, set_link, resolve_versioned_paths,
  update_symlink,
}

-- Each version that is configured is listed under its major version.
abbrev pub IsConsistent : Object Text → Type 0
IsConsistent versions =
    (major version : Text) → lookup major versions ≡ some version → strip_minor version ≡ some major

-- `JSON.parse` reads what `JSON.stringify` wrote.
abbrev pub ReadsBack : Env → Type 0
ReadsBack env =
    (v : VersionInfo) → env.parse (env.stringify v) ≡ object (some v.initialized) (some v.current)

-- PG_VERSION is missing, or names the major version.
abbrev pub Fits : Text → File → Type 0
Fits major absent = Unit
Fits major (unreadable e) = ⊥
Fits major (content s) = trim s ≡ major

module _ (env : Env) (consistent : IsConsistent env.versions) where
  info_from-listed :
      (curver : Option Text) (pgc : Option Parsed) (v : VersionInfo) (major : Text)
      → info_from env curver pgc ≡ ok v
      → strip_minor v.current ≡ some major
      → lookup major env.versions ≡ some v.current
  unfolding info_from first_info version_info checked_info entry_of
  info_from-listed none none v major h k =
      elim (Option-cases (lookup env.default_version env.versions)) [
        | inl e ↦ ground arith
        | inr (a, e) ↦ ground (arith, consistent env.default_version a e)
      ]
  info_from-listed (some c) none v major h k =
      elim (Option-cases (lookup (codes "9.2") env.versions)) [
        | inl e ↦ ground arith
        | inr (a, e) ↦ ground (arith, consistent (codes "9.2") a e)
      ]
  info_from-listed c (some (no_json e)) v major h k = cc
  info_from-listed c (some null_value) v major h k = cc
  info_from-listed c (some other_value) v major h k = cc
  info_from-listed c (some (object none current)) v major h k = cc
  info_from-listed c (some (object (some i) none)) v major h k = cc
  info_from-listed c (some (object (some i) (some current))) v major h k =
      elim (Option-cases (strip_minor current)) [
        | inl e ↦ ground arith
        | inr (a, e) ↦ elim (Option-cases (lookup a env.versions)) [
          | inl e' ↦ ground arith
          | inr (b, e') ↦ ground (arith, consistent a b e')
        ]
      ]

  with_curver-listed :
      (pgc : Option Parsed) (curver : Result (Option Text)) (v : VersionInfo) (major : Text)
      → with_curver env pgc curver ≡ ok v
      → strip_minor v.current ≡ some major
      → lookup major env.versions ≡ some v.current
  unfolding with_curver
  with_curver-listed pgc (ok curver) v major h k = info_from-listed curver pgc v major h k
  with_curver-listed pgc (err e) v major h k = cc
  with_curver-listed pgc lost v major h k = cc
  with_curver-listed pgc thrown v major h k = cc

  with_pgc-listed :
      (f : File) (pgc : Result (Option Parsed)) (v : VersionInfo) (major : Text)
      → with_pgc env f pgc ≡ ok v
      → strip_minor v.current ≡ some major
      → lookup major env.versions ≡ some v.current
  unfolding with_pgc
  with_pgc-listed f (ok pgc) v major h k = with_curver-listed pgc (read_pg_version f) v major h k
  with_pgc-listed f (err e) v major h k = cc
  with_pgc-listed f lost v major h k = cc
  with_pgc-listed f thrown v major h k = cc

  get_version_info-listed :
      (d : Disk) (v : VersionInfo) (major : Text)
      → get_version_info env d ≡ ok v
      → strip_minor v.current ≡ some major
      → lookup major env.versions ≡ some v.current
  unfolding get_version_info
  get_version_info-listed d v major h k =
      with_pgc-listed d.pg_version (read_data_conf env d.data_conf) v major h k

  get_version_info-written :
      (d : Disk) (v : VersionInfo) (major : Text)
      → ReadsBack env
      → strip_minor v.current ≡ some major
      → lookup major env.versions ≡ some v.current
      → d.data_conf ≡ content (env.stringify v)
      → Fits major d.pg_version
      → get_version_info env d ≡ ok v
  unfolding get_version_info with_pgc with_curver read_data_conf read_pg_version info_from
      checked_info entry_of
  get_version_info-written d v major round h k e f = ground (arith, round v)

-- Where `updateSymlink` succeeds, the link has the new target, and nothing else has changed.
update_symlink-ok :
    (env : Env) (srcpath : Text) (l : Link) (d d' : Disk)
    → d.current_link ≡ l
    → update_symlink env srcpath d ≡ (ok tt, d')
    → d' ≡ record d { current_link = link_to srcpath }
unfolding update_symlink call set_link
update_symlink-ok env srcpath no_link d d' e h = ground arith
update_symlink-ok env srcpath (bad_link x) d d' e h = ground arith
update_symlink-ok env srcpath (link_to x) d d' e h = elim (text_dec x srcpath) [
  | yes q ↦ ground arith
  | no n ↦ ground arith
]

update_symlink-again :
    (env : Env) (srcpath : Text) (d : Disk)
    → d.current_link ≡ link_to srcpath
    → update_symlink env srcpath d ≡ (ok tt, d)
unfolding update_symlink
update_symlink-again env srcpath d e = ground arith

call-ok :
    (env : Env) (c : FsCall) (change : Disk → Disk) (d : Disk)
    → (call env c change d).0 ≡ ok tt
    → env.fails c ≡ none
unfolding call
call-ok env c change d h = ground arith

-- The disk once a version was written.
written : Env → VersionInfo → Disk → Disk
written env v d = record d {
  data_conf = content (env.stringify v);
  current_link = link_to (env.join env.pg_base_dir v.current);
}

write_files-ok :
    (env : Env) (v : VersionInfo) (d d' : Disk)
    → write_files env v d ≡ (ok tt, d')
    → (env.fails write_data_conf ≡ none) × (d' ≡ written env v d)
unfolding write_files call save written
write_files-ok env v d d' h = elim (Option-cases (env.fails write_data_conf)) [
  | inl e ↦ (
    e,
    update_symlink-ok env (env.join env.pg_base_dir v.current) d.current_link (save env v d) d' refl
        (ground arith),
  )
  | inr (x, e) ↦ ground arith
]

write_files-again :
    (env : Env) (v : VersionInfo) (d : Disk) (f : File)
    → env.fails write_data_conf ≡ none
    → let t = record (written env v d) { pg_version = f } in write_files env v t ≡ (ok tt, t)
unfolding write_files call save written
write_files-again env v d f e = ground (
  arith,
  update_symlink-again env (env.join env.pg_base_dir v.current)
      (record (written env v d) { pg_version = f }) refl,
)

-- What follows the reading of the version, on a disk where it wrote the same before.
resolve_to-written :
    (env : Env) (v : VersionInfo) (major : Text) (d d' : Disk) (paths : Paths) (f : File)
    → resolve_to env v major d ≡ (ok paths, d')
    → (resolve_to env v major (record d' { pg_version = f })
        ≡ (ok paths, record d' { pg_version = f }))
      × (d'.data_conf ≡ content (env.stringify v))
unfolding resolve_to get_tunables written
resolve_to-written env v major d d' paths f h =
    let (u, e, k) = after-succeeds _ (write_files env v d) paths d' h in
    let (o, e', k') =
      after-succeeds _ (reads (get_tunables env v.current major) (write_files env v d).1) paths d'
        k in
    let (w, x) = write_files-ok env v d (write_files env v d).1 (ground arith) in
    let y : d' ≡ written env v d = ground arith in
    rw y (rw (write_files-again env v d f w) (ground arith), refl)

resolve_versioned_paths-known :
    (env : Env) (d : Disk) (v : VersionInfo) (major : Text)
    → get_version_info env d ≡ ok v
    → strip_minor v.current ≡ some major
    → resolve_versioned_paths env d ≡ resolve_to env v major d
unfolding resolve_versioned_paths
resolve_versioned_paths-known env d v major h k = rw (h, major_of, k) refl

-- After a resolution of the paths that succeeded, the next one gives the same paths and leaves the disk as
-- it is, so that the version which the database was initialized with is kept, as long as PG_VERSION is
-- missing or names the major version, `JSON.parse` reads what `JSON.stringify` wrote, and each configured
-- version is listed under its major version.
pub resolve_versioned_paths-again :
    (env : Env) (d d' : Disk) (paths : Paths) (v : VersionInfo) (major : Text) (f : File)
    → ReadsBack env
    → IsConsistent env.versions
    → get_version_info env d ≡ ok v
    → strip_minor v.current ≡ some major
    → Fits major f
    → resolve_versioned_paths env d ≡ (ok paths, d')
    → resolve_versioned_paths env (record d' { pg_version = f })
      ≡ (ok paths, record d' { pg_version = f })
resolve_versioned_paths-again env d d' paths v major f round consistent h k fit r =
    let known = resolve_versioned_paths-known env d v major h k in
    let (again, conf) = resolve_to-written env v major d d' paths f (sym known ∙ r) in
    let listed = get_version_info-listed env consistent d v major h k in
    resolve_versioned_paths-known env (record d' { pg_version = f }) v major
      (get_version_info-written env consistent (record d' { pg_version = f }) v major round k listed
        conf fit)
      k
    ∙ again
