-- ===== src/Backup/Latest.antt =====
-- Which snapshot `_getLatestSnapshot` sends.
use manatee.Base.{
  Text, ◌≡◌, List, [], ◌∷◌, Option, none, some, Bool-cases, true, false, arith, All, inl, inr,
}
use manatee.Base.Texts.{text_leb, text_leb_total}
use manatee.Backup.{is_backup, get_latest_snapshot}

abbrev pub Descending : List Text → Type 0
Descending [] = Unit
Descending (a ∷ rest) = All (λ b. text_leb b a ≡ true) rest × Descending rest

-- Of the lines that are snapshots named for a time: there are none, or this is the greatest.
abbrev pub Newest : List Text → Option Text → Type 0
Newest lines none = All (λ b. is_backup b ≡ false) lines
Newest lines (some s) =
    (is_backup s ≡ true) × All (λ b. is_backup b ≡ true → text_leb b s ≡ true) lines

weaken_below :
    (s : Text) (rest : List Text)
    → All (λ b. text_leb b s ≡ true) rest
    → All (λ b. is_backup b ≡ true → text_leb b s ≡ true) rest
weaken_below s [] h = tt
weaken_below s (b ∷ rest) h = ((λ _. h.0), weaken_below s rest h.1)

skip :
    (line : Text) (lines : List Text) (found : Option Text)
    → is_backup line ≡ false
    → Newest lines found
    → Newest (line ∷ lines) found
skip line lines none n h = (n, h)
skip line lines (some s) n h = (h.0, ((λ y. absurd (ground arith)), h.1))

-- If the lines come in descending order, the snapshot that is sent is the greatest of those that are
-- named for a time, and it is an error only if there are none.
get_latest_snapshot-Newest :
    (lines : List Text) → Descending lines → Newest lines (get_latest_snapshot lines)
unfolding get_latest_snapshot
get_latest_snapshot-Newest [] d = tt
get_latest_snapshot-Newest (line ∷ lines) d = elim (Bool-cases (is_backup line)) [
  | inl p ↦ rw p (p, ((λ _. ground (arith, text_leb_total line line)), weaken_below line lines d.0))
  | inr p ↦
      rw p (skip line lines (get_latest_snapshot lines) p (get_latest_snapshot-Newest lines d.1))
]
