-- ===== src/Postgres/Versions/Resolve.antt =====
-- lib/postgresMgr.js: resolving the versioned paths.
pub mod Again
use manatee.Base.{
  Text, codes, text_eq, text_eq_iff, ◌≡◌, ◌≢◌, refl, List, [], ◌∷◌, Option, none, some, arith,
  Outcome, ok, err, lost, thrown, Action, after, return, fail, ◌>>◌, ◌>>=◌, Bool-cases,
  Option-cases, inl, inr, if◌then◌else◌,
}
use manatee.Base.Objects.{Object}
use manatee.Postgres.Versions.{
  Env, Disk, Paths, Result, VersionInfo, File, Link, no_link, bad_link, link_to, content, FsCall,
  write_data_conf, unlink_current, symlink_current, get_version_info, strip_minor,
}
use manatee.Postgres.Versions.Options.{get_tunables}

abbrev pub FileOp : Type 0
FileOp = Action Disk Text (Unit {0})

-- A call that writes: it throws, or changes the disk.
call : Env → FsCall → (Disk → Disk) → FileOp
call env c change d = elim (env.fails c) [ none ↦ (ok tt, change d) | some e ↦ (err e, d) ]

set_link : Link → Disk → Disk
set_link l d = record d { current_link = l }

-- `updateSymlink`
unfoldable pub update_symlink : Env → Text → FileOp
unfolding call set_link
update_symlink env srcpath d = elim d.current_link [
  | bad_link e ↦ (err e, d)
  | no_link ↦ call env symlink_current (set_link (link_to srcpath)) d
  | link_to curpath ↦
      if text_eq curpath srcpath
      then (ok tt, d)
      else (call env unlink_current (set_link no_link)
            >> call env symlink_current (set_link (link_to srcpath)))
          d
]

-- The answer of a function that reads the disk only.
abbrev pub reads {ℓ} : {A : Type ℓ} → (Disk → Result A) → Action Disk Text A
reads f d = (f d, d)

abbrev pub major_of : Text → Result Text
major_of version = elim (strip_minor version) [
  | some major ↦ ok major
  | none ↦ err (codes "pos > 2")
]

paths_of : Env → Text → Text → Object Text → Paths
paths_of env version major options =
    let bin = env.join (env.join env.pg_base_dir version) (codes "bin") in
    let etc = env.join env.conf_dir major in
    record {
      db_bin_dir = bin;
      pg_init_db_path = env.join bin (codes "initdb");
      postgres_path = env.join bin (codes "postgres");
      postgres_conf = env.join etc env.postgres_conf_file;
      recovery_conf = env.join etc env.recovery_conf_file;
      hba_conf = env.join etc env.hba_conf_file;
      additional_pg_options = options;
    }

save : Env → VersionInfo → Disk → Disk
save env verinfo d = record d { data_conf = content (env.stringify verinfo) }

-- What follows the reading of the version.
write_files : Env → VersionInfo → FileOp
unfolding update_symlink call save
write_files env verinfo =
    call env write_data_conf (save env verinfo)
    >> update_symlink env (env.join env.pg_base_dir verinfo.current)

resolve_to : Env → VersionInfo → Text → Action Disk Text Paths
unfolding write_files paths_of
resolve_to env verinfo major = write_files env verinfo >>= λ _.
    (reads (get_tunables env verinfo.current major) >>= λ options.
    return (paths_of env verinfo.current major options))

-- `resolveVersionedPaths`
unfoldable pub resolve_versioned_paths : Env → Action Disk Text Paths
unfolding resolve_to
resolve_versioned_paths env = reads (get_version_info env) >>= λ verinfo.
    (reads (λ d. major_of verinfo.current) >>= λ major. resolve_to env verinfo major)
