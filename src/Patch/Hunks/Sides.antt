-- ===== src/Patch/Hunks/Sides.antt =====
-- What `applyFile` of internal/patchapply/patchapply.go does to the lines of a file.
use mathlib.Core.List.{append_assoc}
use tspack.Base.{
  ℕ, suc, ◌+◌, ◌-◌, ◌≤◌, ◌≡◌, ◌∙◌, ap, sym, false, List, [], ◌∷◌, ◌++◌, inr, String, length,
  length-append, any, take, drop, append-take-drop, length-take, take-length, drop-length, arith,
  ltb,
}
use tspack.Patch.Hunks.{
  Hunk, Scanned, and_then, scan_lines, scan_from, replace_lines, apply_hunk, apply_hunks,
}
use tspack.Patch.Hunks.Scan.{
  old_side, new_side, is_empty_line, scan_lines-Follows, scan_lines-found, and_then-eq,
}

-- A hunk that fits: the file has its old lines where the hunk says, and its counts are right.
pub record Fits (added removed : ℕ) (lines : List String) (hunk : Hunk) (before after : List String)
    : Type 0 where
  pub whole : lines ≡ before ++ old_side hunk.lines ++ after
  pub position : hunk.old_start + added ≡ suc (length before + removed)
  pub old_count : length (old_side hunk.lines) ≡ hunk.old_count
  pub new_count : length (new_side hunk.lines) ≡ hunk.new_count

replace_lines-eq :
    (lines : List String) (position : ℕ) (hunk : Hunk) (t : Scanned) (next : List String)
    → replace_lines lines position hunk t ≡ inr next
    → (t.old_seen ≡ hunk.old_count)
      × (t.new_seen ≡ hunk.new_count)
      × (next ≡ take position lines ++ t.replacement ++ drop t.cursor lines)
replace_lines-eq lines position hunk t next h = (ground arith, ground arith, ground arith)

apply_hunk-inside :
    (added removed : ℕ) (lines : List String) (hunk : Hunk) (next : List String)
    → apply_hunk added removed lines hunk ≡ inr next
    → let position = (hunk.old_start + added) - (removed + 1) in
      (hunk.old_start + added ≡ suc (position + removed))
      × (position ≤ length lines)
      × (and_then
            (scan_lines lines (scan_from position) hunk.lines)
            (replace_lines lines position hunk)
          ≡ inr next)
unfolding apply_hunk
apply_hunk-inside added removed lines hunk next h = (ground arith, ground arith, ground arith)

-- A hunk that is applied fits, and puts its new lines in the place of its old ones.
pub apply_hunk-Fits :
    (added removed : ℕ) (lines : List String) (hunk : Hunk) (next : List String)
    → apply_hunk added removed lines hunk ≡ inr next
    → (before after : List String) × Fits added removed lines hunk before after
      × (next ≡ before ++ new_side hunk.lines ++ after)
apply_hunk-Fits added removed lines hunk next h =
    let position : ℕ = (hunk.old_start + added) - (removed + 1) in
    let (at, inside, done) = apply_hunk-inside added removed lines hunk next h in
    let (t, scanned, replaced) =
      and_then-eq (scan_lines lines (scan_from position) hunk.lines)
        (replace_lines lines position hunk) next done in
    let f = scan_lines-Follows lines (scan_from position) hunk.lines t scanned in
    let (old, new, made) = replace_lines-eq lines position hunk t next replaced in
    (
      take position lines,
      drop t.cursor lines,
      record {
        whole =
            sym (append-take-drop position lines)
            ∙ ap (λ l. take position lines ++ l) f.found
            ∙ sym (append_assoc (take position lines) (old_side hunk.lines) (drop t.cursor lines));
        position = ground (arith, length-take position lines);
        old_count = ground (arith, f.old);
        new_count = ground (arith, f.new);
      },
      made ∙ ap (λ l. take position lines ++ l ++ drop t.cursor lines) f.made,
    )

apply_hunk-at :
    (added removed : ℕ) (lines : List String) (hunk : Hunk) (position : ℕ)
    → (hunk.old_start + added) - (removed + 1) ≡ position
    → ltb (hunk.old_start + added) (removed + 1) ≡ false
    → ltb (length lines) position ≡ false
    → apply_hunk added removed lines hunk
      ≡ and_then
          (scan_lines lines (scan_from position) hunk.lines)
          (replace_lines lines position hunk)
unfolding apply_hunk
apply_hunk-at added removed lines hunk position at low high = ground arith

replace_lines-seen :
    (lines : List String) (position : ℕ) (hunk : Hunk) (t : Scanned)
    → t.old_seen ≡ hunk.old_count
    → t.new_seen ≡ hunk.new_count
    → replace_lines lines position hunk t
      ≡ inr (take position lines ++ t.replacement ++ drop t.cursor lines)
replace_lines-seen lines position hunk t old new = ground arith

-- A hunk that fits, and has no empty line, is applied.
pub Fits-apply_hunk :
    (added removed : ℕ) (lines : List String) (hunk : Hunk) (before after : List String)
    → any is_empty_line hunk.lines ≡ false
    → Fits added removed lines hunk before after
    → apply_hunk added removed lines hunk ≡ inr (before ++ new_side hunk.lines ++ after)
Fits-apply_hunk added removed lines hunk before after full fits =
    let rest : List String = old_side hunk.lines ++ after in
    let split : lines ≡ before ++ rest =
      fits.whole ∙ append_assoc before (old_side hunk.lines) after in
    let at : (hunk.old_start + added) - (removed + 1) ≡ length before =
      omega (arith, fits.position) in
    let taken : take (length before) lines ≡ before =
      ap (take (length before)) split ∙ take-length before rest in
    let left : drop (length before) lines ≡ rest =
      ap (drop (length before)) split ∙ drop-length before rest in
    let fill : length before ≤ length lines =
      omega (arith, length-append before rest, ap length split) in
    let (t, scanned, behind) =
      scan_lines-found lines after (scan_from (length before)) hunk.lines full left in
    let f = scan_lines-Follows lines (scan_from (length before)) hunk.lines t scanned in
    apply_hunk-at added removed lines hunk (length before) at (ground (arith, fits.position))
      (ground arith)
    ∙ ap (λ m. and_then m (replace_lines lines (length before) hunk)) scanned
    ∙ replace_lines-seen lines (length before) hunk t (ground (arith, f.old, fits.old_count))
        (ground (arith, f.new, fits.new_count))
    ∙ ap (λ l. inr (l ++ t.replacement ++ drop t.cursor lines)) taken
    ∙ ap (λ l. inr (before ++ l ++ drop t.cursor lines)) f.made
    ∙ ap (λ l. inr (before ++ new_side hunk.lines ++ l)) behind

apply_hunk-length :
    (added removed : ℕ) (lines : List String) (hunk : Hunk) (next : List String)
    → apply_hunk added removed lines hunk ≡ inr next
    → length next + hunk.old_count ≡ length lines + hunk.new_count
apply_hunk-length added removed lines hunk next h =
    let (before, after, fits, made) = apply_hunk-Fits added removed lines hunk next h in
    omega (
      arith,
      ap length made,
      ap length fits.whole,
      fits.old_count,
      fits.new_count,
      length-append (before ++ new_side hunk.lines) after,
      length-append before (new_side hunk.lines),
      length-append (before ++ old_side hunk.lines) after,
      length-append before (old_side hunk.lines),
    )

-- The lines that hunks say they make, and those they say they take away.
abbrev pub made_by : List Hunk → ℕ
made_by [] = 0
made_by (hunk ∷ hunks) = hunk.new_count + made_by hunks

abbrev pub taken_by : List Hunk → ℕ
taken_by [] = 0
taken_by (hunk ∷ hunks) = hunk.old_count + taken_by hunks

-- Hunks that are applied change the number of lines of a file by what their headers say.
pub apply_hunks-length :
    (added removed : ℕ) (lines : List String) (hunks : List Hunk) (next : List String)
    → apply_hunks added removed lines hunks ≡ inr next
    → length next + taken_by hunks ≡ length lines + made_by hunks
unfolding apply_hunks
apply_hunks-length added removed lines [] next h = ground arith
apply_hunks-length added removed lines (hunk ∷ hunks) next h =
    let (middle, one, rest) =
      and_then-eq (apply_hunk added removed lines hunk)
        (λ l. apply_hunks (added + hunk.new_count) (removed + hunk.old_count) l hunks) next h in
    omega (
      arith,
      apply_hunk-length added removed lines hunk middle one,
      apply_hunks-length (added + hunk.new_count) (removed + hunk.old_count) middle hunks next rest,
    )
