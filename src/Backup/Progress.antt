-- ===== src/Backup/Progress.antt =====
-- lib/backupSender.js: what the sender reads of the progress that `zfs send -v -P` prints. In each of
-- the two patterns a class of characters is followed by one that is disjoint from it, so that a match
-- takes as many characters as it can and never goes back.
pub mod Printed
use manatee.Base.{
  ℕ, Text, codes, List, [], ◌∷◌, Option, none, some, Bool, true, false, ◌&&◌, ◌||◌, not, leb, ◌==◌,
  if◌then◌else◌,
}

-- `size`, `completed` and the last text of a job, none of them before the first.
pub record Progress : Type 0 where
  pub size : Option Text
  pub completed : Option Text
  pub msg : Text

-- The classes `\s`, on ASCII, and `\d`.
abbrev pub is_space : ℕ → Bool
is_space c = c == 32 || (leb 9 c && leb c 13)

abbrev pub is_digit : ℕ → Bool
is_digit c = leb b'0' c && leb c b'9'

abbrev pub is_solid : ℕ → Bool
is_solid c = not (is_space c)

-- As many characters of a class as there are, and the rest.
unfoldable pub span : (ℕ → Bool) → Text → Text × Text
span p [] = ([], [])
span p (c ∷ s) = let (t, rest) = span p s in if p c then (c ∷ t, rest) else ([], c ∷ s)

nonempty : Text × Text → Option (Text × Text)
nonempty ([], rest) = none
nonempty (c ∷ t, rest) = some (c ∷ t, rest)

-- `p+`
unfoldable pub some_of : (ℕ → Bool) → Text → Option (Text × Text)
unfolding span nonempty
some_of p s = nonempty (span p s)

-- A fixed text.
unfoldable pub literal : Text → Text → Option Text
literal [] s = some s
literal (c ∷ t) [] = none
literal (c ∷ t) (d ∷ s) = let rest = literal t s in if c == d then rest else none

abbrev pub and_then {ℓ κ} : {A : Type ℓ} {B : Type κ} → Option A → (A → Option B) → Option B
and_then none f = none
and_then (some a) f = f a

abbrev is_newline : ℕ → Bool
is_newline c = c == b'\n'

is_end : Text → Bool
is_end [] = true
is_end (c ∷ s) = false

-- The class `.`, on ASCII.
abbrev pub is_dot : ℕ → Bool
is_dot c = not (c == b'\n' || c == 13)

-- `.*\n*$`
unfoldable pub ends_line : Text → Bool
unfolding span is_end
ends_line s =
    let (line, newlines) = span is_dot s in
    let (blank, rest) = span is_newline newlines in is_end rest

-- The number that `ZFS_PROGRESS_HEADER` captures.
unfoldable pub header_size : Text → Option Text
unfolding literal some_of ends_line
header_size s = and_then (literal (codes "full") s) λ s1. and_then (some_of is_space s1) λ (_, s2).
    and_then (some_of is_solid s2) λ (_, s3). and_then (some_of is_space s3) λ (_, s4).
      and_then (some_of is_digit s4) λ (size, s5).
        and_then (literal (codes "\n") s5) λ s6. if ends_line s6 then some size else none

-- `\d\d`
two_digits : Text → Option Text
two_digits (c ∷ d ∷ s) = if is_digit c && is_digit d then some s else none
two_digits _ = none

-- The number that `ZFS_PROGRESS_REGEX` captures.
unfoldable pub completed_bytes : Text → Option Text
unfolding literal some_of two_digits is_end
completed_bytes s = and_then (two_digits s) λ s1. and_then (literal (codes ":") s1) λ s2.
    and_then (two_digits s2) λ s3. and_then (literal (codes ":") s3) λ s4.
      and_then (two_digits s4) λ s5. and_then (literal (codes "\t") s5) λ s6.
        and_then (some_of is_digit s6) λ (n, s7). and_then (literal (codes "\t") s7) λ s8.
          and_then (some_of is_solid s8) λ (_, s9).
            and_then (literal (codes "\n") s9) λ rest. if is_end rest then some n else none

-- The handler of the data of `stderr`.
unfoldable pub on_data : Text → Progress → Progress
unfolding header_size completed_bytes
on_data text p = elim (header_size text) [
  | some n ↦ record p { size = some n; msg = text }
  | none ↦ elim (completed_bytes text) [
    | some n ↦ record p { completed = some n; msg = text }
    | none ↦ record p { msg = text }
  ]
]
