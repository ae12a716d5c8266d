-- ===== src/Backup/Progress/Printed.antt =====
-- lib/backupSender.js: the sender reads the progress that zfs prints.
use manatee.Base.{
  ℕ, Text, codes, ◌≡◌, refl, [], ◌∷◌, ◌++◌, none, some, Bool, true, false, arith, All,
}
use manatee.Backup.Progress.{
  Progress, is_space, is_digit, is_solid, span, some_of, literal, ends_line, header_size, is_dot,
  is_end, completed_bytes, on_data, two_digits,
}

abbrev pub AllIn : (ℕ → Bool) → Text → Type 0
AllIn p = All (λ c. p c ≡ true)

span-append :
    (p : ℕ → Bool) (t : Text) (d : ℕ) (rest : Text)
    → AllIn p t
    → p d ≡ false
    → span p (t ++ d ∷ rest) ≡ (t, d ∷ rest)
unfolding span
span-append p [] d rest h n = rw n refl
span-append p (c ∷ t) d rest h n = rw (span-append p t d rest h.1 n, h.0) refl

some_of-append :
    (p : ℕ → Bool) (c : ℕ) (t : Text) (d : ℕ) (rest : Text)
    → AllIn p (c ∷ t)
    → p d ≡ false
    → some_of p (c ∷ (t ++ d ∷ rest)) ≡ some (c ∷ t, d ∷ rest)
unfolding some_of
some_of-append p c t d rest h n = rw (some_of, span-append p (c ∷ t) d rest h n) refl

literal-append : (t rest : Text) → literal t (t ++ rest) ≡ some rest
unfolding literal
literal-append [] rest = refl
literal-append (c ∷ t) rest = ground (arith, literal-append t rest)

-- A digit is no space.
digit_solid : (c : ℕ) → is_digit c ≡ true → is_space c ≡ false
digit_solid c h = ground arith

solid_space : (c : ℕ) → is_solid c ≡ true → is_space c ≡ false
solid_space c h = ground arith

-- What `zfs send` prints first, for a dataset and a size, with a second line.
abbrev pub header : Text → Text → Text → Text
header dataset size line =
    codes "full" ++ (b'\t' ∷ (dataset ++ b'\t' ∷ (size ++ b'\n' ∷ (line ++ b'\n' ∷ []))))

ends_line-line : (line : Text) → AllIn is_dot line → ends_line (line ++ b'\n' ∷ []) ≡ true
unfolding ends_line
ends_line-line line h = rw (span-append is_dot line b'\n' [] h refl) refl

-- The sender reads the size from the header that zfs prints, for a dataset whose name has no space in it,
-- whatever the second line says.
pub header_size-header :
    (c : ℕ) (dataset : Text) (d : ℕ) (size line : Text)
    → AllIn is_solid (c ∷ dataset)
    → AllIn is_digit (d ∷ size)
    → AllIn is_dot line
    → header_size (header (c ∷ dataset) (d ∷ size) line) ≡ some (d ∷ size)
unfolding header_size literal
header_size-header c dataset d size line h k l =
    let s4 = d ∷ (size ++ b'\n' ∷ (line ++ b'\n' ∷ [])) in
    ground (
      arith,
      some_of-append is_space b'\t' [] c (dataset ++ b'\t' ∷ s4) (refl, tt) (solid_space c h.0),
      some_of-append is_solid c dataset b'\t' s4 h refl,
      some_of-append is_space b'\t' [] d (size ++ b'\n' ∷ (line ++ b'\n' ∷ [])) (refl, tt)
          (digit_solid d k.0),
      some_of-append is_digit d size b'\n' (line ++ b'\n' ∷ []) k refl,
      ends_line-line line l,
    )

-- A later line, by the digits of its time.
abbrev pub progress_line : (h1 h2 m1 m2 s1 s2 : ℕ) → Text → Text → Text
progress_line h1 h2 m1 m2 s1 s2 sent dataset =
    h1 ∷ h2 ∷ b':' ∷ m1 ∷ m2 ∷ b':' ∷ s1 ∷ s2 ∷ b'\t' ∷ (sent ++ b'\t' ∷ (dataset ++ b'\n' ∷ []))

completed_bytes-line :
    (h1 h2 m1 m2 s1 s2 d : ℕ) (sent : Text) (c : ℕ) (dataset : Text)
    → AllIn is_digit (h1 ∷ h2 ∷ m1 ∷ m2 ∷ s1 ∷ s2 ∷ [])
    → AllIn is_digit (d ∷ sent)
    → AllIn is_solid (c ∷ dataset)
    → completed_bytes (progress_line h1 h2 m1 m2 s1 s2 (d ∷ sent) (c ∷ dataset)) ≡ some (d ∷ sent)
unfolding completed_bytes literal two_digits is_end
completed_bytes-line h1 h2 m1 m2 s1 s2 d sent c dataset t k h = ground (
  arith,
  some_of-append is_digit d sent b'\t' (c ∷ (dataset ++ b'\n' ∷ [])) k refl,
  some_of-append is_solid c dataset b'\n' [] h refl,
)

-- No such line is taken for a header.
header_size-line : (h1 : ℕ) (rest : Text) → is_digit h1 ≡ true → header_size (h1 ∷ rest) ≡ none
unfolding header_size literal
header_size-line h1 rest h = ground arith

-- From the header that zfs prints and a line of progress after it, the sender reads the size and the bytes
-- that were sent, for a dataset whose name has no space in it, whatever the second line of the header says.
pub on_data-printed :
    (h1 h2 m1 m2 s1 s2 d n c : ℕ) (size sent dataset line : Text) (p : Progress)
    → AllIn is_digit (h1 ∷ h2 ∷ m1 ∷ m2 ∷ s1 ∷ s2 ∷ [])
    → AllIn is_digit (d ∷ size)
    → AllIn is_digit (n ∷ sent)
    → AllIn is_solid (c ∷ dataset)
    → AllIn is_dot line
    → let q =
        on_data
          (progress_line h1 h2 m1 m2 s1 s2 (n ∷ sent) (c ∷ dataset))
          (on_data (header (c ∷ dataset) (d ∷ size) line) p) in
      (q.size ≡ some (d ∷ size)) × (q.completed ≡ some (n ∷ sent))
unfolding on_data
on_data-printed h1 h2 m1 m2 s1 s2 d n c size sent dataset line p t k l h e = ground (
  arith,
  header_size-header c dataset d size line h k e,
  header_size-line h1 _ t.0,
  completed_bytes-line h1 h2 m1 m2 s1 s2 n sent c dataset t l h,
)
