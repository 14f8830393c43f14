-- ===== src/Patch/Hunks.antt =====
-- The loops of `applyFile` in internal/patchapply/patchapply.go, which apply the hunks of a patch
-- to the lines of a file. The paths and the file system are left out. `empty_line` is the panic on
-- an empty line of a hunk, which the parser never makes. Memory does not run out: the panic of
-- `make` on a count of a header that is too large for a slice is left out.
pub mod Scan
pub mod Sides
use Prim.Native.Char.{code}
use tspack.Base.{
  ℕ, suc, ◌+◌, ◌-◌, Bool, not, ◌||◌, Option, none, some, List, [], ◌∷◌, ◌++◌, ◌⊎◌, inl, inr, String,
  str_eq, length, get_elem?, take, drop, ltb, ◌==◌, if◌then◌else◌,
}

pub record Hunk : Type 0 where
  pub old_start : ℕ
  pub old_count : ℕ
  pub new_start : ℕ
  pub new_count : ℕ
  pub lines : List String

pub data PatchError : Type 0 where
  outside count_mismatch empty_line : PatchError
  context_mismatch removal_mismatch : ℕ → PatchError

abbrev pub Applied {ℓ} : Type ℓ → Type ℓ
Applied A = PatchError ⊎ A

-- The variables of the loop over the lines of a hunk.
pub record Scanned : Type 0 where
  pub cursor : ℕ
  pub replacement : List String
  pub old_seen : ℕ
  pub new_seen : ℕ

-- `cursor >= len(lines) || lines[cursor] != value`, negated.
abbrev pub matches : Option String → String → Bool
matches none value = Bool.false
matches (some line) value = str_eq line value

abbrev pub marked_line : List String → Scanned → ℕ → String → Applied Scanned
marked_line lines s mark value =
    if mark == 32
    then if not (matches (get_elem? lines s.cursor) value)
      then inl (context_mismatch (s.cursor + 1))
      else inr (record {
        cursor = s.cursor + 1;
        replacement = s.replacement ++ value ∷ [];
        old_seen = s.old_seen + 1;
        new_seen = s.new_seen + 1;
      })
    else if mark == 45
    then if not (matches (get_elem? lines s.cursor) value)
      then inl (removal_mismatch (s.cursor + 1))
      else inr (record s { cursor = s.cursor + 1; old_seen = s.old_seen + 1 })
    else if mark == 43
    then inr (record s { replacement = s.replacement ++ value ∷ []; new_seen = s.new_seen + 1 })
    else inr s

-- The body of the loop: the mark of the line and the rest of it.
abbrev pub patch_line : List String → Scanned → String → Applied Scanned
patch_line lines s String.[] = inl empty_line
patch_line lines s (String.◌∷◌ c value) = marked_line lines s (code c) value

abbrev pub and_then {ℓ κ} : {A : Type ℓ} {B : Type κ} → Applied A → (A → Applied B) → Applied B
and_then (inl e) next = inl e
and_then (inr a) next = next a

unfoldable pub scan_lines : List String → Scanned → List String → Applied Scanned
scan_lines lines s [] = inr s
scan_lines lines s (line ∷ rest) = and_then (patch_line lines s line) (λ t. scan_lines lines t rest)

abbrev pub replace_lines : List String → ℕ → Hunk → Scanned → Applied (List String)
replace_lines lines position hunk t =
    if not (t.old_seen == hunk.old_count) || not (t.new_seen == hunk.new_count)
    then inl count_mismatch
    else inr (take position lines ++ t.replacement ++ drop t.cursor lines)

abbrev pub scan_from : ℕ → Scanned
scan_from position = record { cursor = position; replacement = []; old_seen = 0; new_seen = 0 }

-- The body of the loop over the hunks. `delta` is the lines added before less the lines removed.
unfoldable pub apply_hunk : ℕ → ℕ → List String → Hunk → Applied (List String)
unfolding scan_lines
apply_hunk added removed lines hunk =
    let position : ℕ = (hunk.old_start + added) - (removed + 1) in
    if ltb (hunk.old_start + added) (removed + 1) || ltb (length lines) position
    then inl outside
    else and_then (scan_lines lines (scan_from position) hunk.lines)
        (replace_lines lines position hunk)

unfoldable pub apply_hunks : ℕ → ℕ → List String → List Hunk → Applied (List String)
unfolding apply_hunk
apply_hunks added removed lines [] = inr lines
apply_hunks added removed lines (hunk ∷ hunks) =
    and_then (apply_hunk added removed lines hunk)
      (λ next. apply_hunks (added + hunk.new_count) (removed + hunk.old_count) next hunks)
