-- ===== src/Tests/Patch.antt =====
-- One hunk that replaces the second line of a file of three.
use tspack.Base.{◌≡◌, refl, false, ◌+◌, ◌++◌, List, [], ◌∷◌, inl, inr, String, any, length}
use tspack.Patch.Hunks.{
  Hunk, Applied, outside, context_mismatch, scan_lines, apply_hunk, apply_hunks,
}
use tspack.Patch.Hunks.Scan.{old_side, new_side, is_empty_line}
use tspack.Patch.Hunks.Sides.{
  Fits, apply_hunk-Fits, Fits-apply_hunk, apply_hunks-length, made_by, taken_by,
}

abbrev file : List String
file = "one" ∷ "two" ∷ "three" ∷ []

abbrev hunk : Hunk
hunk = record {
  old_start = 1;
  old_count = 2;
  new_start = 1;
  new_count = 3;
  lines = " one" ∷ "-two" ∷ "+2" ∷ "+2a" ∷ [];
}

abbrev changed : List String
changed = "one" ∷ "2" ∷ "2a" ∷ "three" ∷ []

-- `apply_hunks`, with all that it calls unfolded wherever this name is.
replay_hunks : List String → List Hunk → Applied (List String)
unfolding scan_lines apply_hunk apply_hunks old_side new_side is_empty_line
replay_hunks = apply_hunks 0 0

applied : apply_hunk 0 0 file hunk ≡ inr changed
unfolding replay_hunks
applied = refl

all_applied : apply_hunks 0 0 file (hunk ∷ []) ≡ inr changed
unfolding replay_hunks
all_applied = refl

elsewhere : apply_hunk 0 0 file (record hunk { old_start = 2 }) ≡ inl (context_mismatch 2)
unfolding replay_hunks
elsewhere = refl

before_the_file : apply_hunk 0 0 file (record hunk { old_start = 0 }) ≡ inl outside
unfolding replay_hunks
before_the_file = refl

no_empty_line : any is_empty_line hunk.lines ≡ false
unfolding replay_hunks
no_empty_line = refl

fits : Fits 0 0 file hunk [] ("three" ∷ [])
unfolding replay_hunks
fits = record { whole = refl; position = refl; old_count = refl; new_count = refl }

apply_hunk-Fits_example :
    (before after : List String) × Fits 0 0 file hunk before after
    × (changed ≡ before ++ new_side hunk.lines ++ after)
apply_hunk-Fits_example = apply_hunk-Fits 0 0 file hunk changed applied

Fits-apply_hunk_example : apply_hunk 0 0 file hunk ≡ inr ([] ++ new_side hunk.lines ++ "three" ∷ [])
Fits-apply_hunk_example = Fits-apply_hunk 0 0 file hunk [] ("three" ∷ []) no_empty_line fits

apply_hunks-length_example :
    length changed + taken_by (hunk ∷ []) ≡ length file + made_by (hunk ∷ [])
apply_hunks-length_example = apply_hunks-length 0 0 file (hunk ∷ []) changed all_applied
