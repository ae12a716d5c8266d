-- ===== src/Postgres/Versions/Tests.antt =====
-- The versions 9.2 and 9.6, and a database of 9.6 that starts again after its first boot.
use manatee.Base.{
  ℕ, zero, suc, Text, codes, text_eq_iff, text_dec, ◌≡◌, ◌≢◌, ◌⊎◌, refl, ap, [], ◌∷◌, ◌++◌, none,
  some, arith, length, take, ok, inl, inr,
}
use manatee.Base.Texts.{cut_last}
use manatee.Base.Objects.{Object, lookup, insert}
use manatee.Postgres.Versions.{
  Env, Disk, Paths, VersionInfo, Parsed, other_value, object, absent, content, no_link, link_to,
  get_version_info, strip_minor, trim, Tunables,
}
use manatee.Postgres.Versions.Options.{tunables_for, get_tunables, copy, copy_section}
use manatee.Postgres.Versions.Resolve.{resolve_versioned_paths, update_symlink}
use manatee.Postgres.Versions.Resolve.Again.{IsConsistent, ReadsBack, resolve_versioned_paths-again}

abbrev drop : ℕ → Text → Text
drop zero s = s
drop (suc n) [] = []
drop (suc n) (c ∷ s) = drop n s

take-append : (s t : Text) → take (length s) (s ++ t) ≡ s
take-append [] t = refl
take-append (c ∷ s) t = ap (λ u. c ∷ u) (take-append s t)

drop-append : (s t : Text) → drop (length s) (s ++ t) ≡ t
drop-append [] t = refl
drop-append (c ∷ s) t = drop-append s t

-- A text of two parts, the length of the first before it.
abbrev write_parts : VersionInfo → Text
write_parts v = length v.initialized ∷ (v.initialized ++ v.current)

abbrev read_parts : Text → Parsed
read_parts [] = other_value
read_parts (n ∷ s) = object (some (take n s)) (some (drop n s))

abbrev two_versions : Object Text
two_versions = (codes "9.2", codes "9.2.4") ∷ (codes "9.6", codes "9.6.3") ∷ []

abbrev tuned : Tunables
tuned =
    (codes "9.6.3", (codes "max_connections", codes "500") ∷ [])
    ∷ (
      codes "common",
      (codes "max_connections", codes "100") ∷ (codes "synchronous_commit", codes "on") ∷ [],
    )
    ∷ []

abbrev sitter : Env
sitter = record {
  default_version = codes "9.6";
  versions = two_versions;
  pg_base_dir = codes "/opt/postgresql";
  conf_dir = codes "/opt/manatee/etc";
  postgres_conf_file = codes "postgresql.conf";
  recovery_conf_file = codes "recovery.conf";
  hba_conf_file = codes "pg_hba.conf";
  parse = read_parts;
  stringify = write_parts;
  parse_tunables = λ s. some tuned;
  join = λ s t. s ++ b'/' ∷ t;
  fails = λ c. none;
}

sitter-ReadsBack : ReadsBack sitter
sitter-ReadsBack v =
    rw (take-append v.initialized v.current, drop-append v.initialized v.current) refl

two_versions_entries :
    (major version : Text)
    → lookup major two_versions ≡ some version
    → ((codes "9.2" ≡ major) × (codes "9.2.4" ≡ version))
      ⊎ ((codes "9.6" ≡ major) × (codes "9.6.3" ≡ version))
unfolding lookup
two_versions_entries major version h = elim (text_dec (codes "9.2") major) [
  | yes e ↦ inl (e, ground arith)
  | no n ↦ elim (text_dec (codes "9.6") major) [
    | yes e ↦ inr (e, ground arith)
    | no m ↦ ground arith
  ]
]

two_versions-IsConsistent : IsConsistent two_versions
unfolding strip_minor cut_last
two_versions-IsConsistent major version h = elim (two_versions_entries major version h) [
  | inl (e, f) ↦ rw (← e, ← f) refl
  | inr (e, f) ↦ rw (← e, ← f) refl
]

abbrev fresh : Disk
fresh = record {
  data_conf = absent;
  pg_version = absent;
  current_link = no_link;
  tunables = content (codes "{}");
}

abbrev latest : VersionInfo
latest = record { initialized = codes "9.6.3"; current = codes "9.6.3" }

abbrev booted : Disk
booted = record {
  data_conf = content (write_parts latest);
  pg_version = absent;
  current_link = link_to (codes "/opt/postgresql/9.6.3");
  tunables = content (codes "{}");
}

abbrev found : Paths
found = record {
  db_bin_dir = codes "/opt/postgresql/9.6.3/bin";
  pg_init_db_path = codes "/opt/postgresql/9.6.3/bin/initdb";
  postgres_path = codes "/opt/postgresql/9.6.3/bin/postgres";
  postgres_conf = codes "/opt/manatee/etc/9.6/postgresql.conf";
  recovery_conf = codes "/opt/manatee/etc/9.6/recovery.conf";
  hba_conf = codes "/opt/manatee/etc/9.6/pg_hba.conf";
  additional_pg_options =
      (codes "synchronous_commit", codes "on") ∷ (codes "max_connections", codes "500") ∷ [];
}

first_boot : resolve_versioned_paths sitter fresh ≡ (ok found, booted)
unfolding resolve_versioned_paths text_dec get_version_info strip_minor cut_last lookup insert
    get_tunables tunables_for copy copy_section update_symlink
first_boot = refl

-- `initdb` has written PG_VERSION since.
resolve_versioned_paths-again_example :
    resolve_versioned_paths sitter (record booted { pg_version = content (codes "9.6\n") })
    ≡ (ok found, record booted { pg_version = content (codes "9.6\n") })
unfolding get_version_info strip_minor cut_last text_dec lookup trim
resolve_versioned_paths-again_example =
    resolve_versioned_paths-again sitter fresh booted found latest (codes "9.6")
      (content (codes "9.6\n")) sitter-ReadsBack two_versions-IsConsistent refl refl refl first_boot

apart : codes "max_connections" ≢ codes "synchronous_commit"
unfolding text_dec
apart e = let t = (text_eq_iff (codes "max_connections") (codes "synchronous_commit")).1 e in cc
