-- ===== src/Patch/Hunks/Scan.antt =====
-- The lines of a hunk of internal/patchapply/patchapply.go: what they stand for in the old file
-- and in the new one, and that the loop over them finds the first and makes the second.
use Prim.Native.Char.{code}
use mathlib.Core.List.{append_assoc, append-nil}
use tspack.Base.{
  any, ℕ, suc, ◌+◌, ◌≡◌, ◌∙◌, refl, ap, sym, Bool, true, false, ◌||◌, Option, none, some, List, [],
  ◌∷◌, ◌++◌, inl, inr, String, eq_iff, eq_refl, length, get_elem?, drop, drop-get_elem?,
  get_elem?-drop, arith, ◌==◌, if◌then◌else◌, Bool-cases,
}
use tspack.Patch.Hunks.{Scanned, Applied, matches, marked_line, and_then, scan_lines}

abbrev if_marked : Bool → String → List String → List String
if_marked b value rest = if b then value ∷ rest else rest

-- The lines of the old file that the lines of a hunk name.
unfoldable pub old_side : List String → List String
old_side [] = []
old_side (String.[] ∷ rest) = old_side rest
old_side (String.◌∷◌ c value ∷ rest) =
    if_marked (code c == 32 || code c == 45) value (old_side rest)

-- The lines that stand in their place in the new one.
unfoldable pub new_side : List String → List String
new_side [] = []
new_side (String.[] ∷ rest) = new_side rest
new_side (String.◌∷◌ c value ∷ rest) =
    if_marked (code c == 32 || code c == 43) value (new_side rest)

-- What the scan of a hunk's lines does to its variables.
pub record Follows (lines : List String) (s : Scanned) (hs : List String) (t : Scanned)
    : Type 0 where
  pub at_cursor : t.cursor ≡ s.cursor + length (old_side hs)
  pub made : t.replacement ≡ s.replacement ++ new_side hs
  pub old : t.old_seen ≡ s.old_seen + length (old_side hs)
  pub new : t.new_seen ≡ s.new_seen + length (new_side hs)
  pub found : drop s.cursor lines ≡ old_side hs ++ drop t.cursor lines

pub and_then-eq {ℓ κ} :
    {A : Type ℓ} {B : Type κ} (m : Applied A) (next : A → Applied B) (b : B)
    → and_then m next ≡ inr b
    → (a : A) × (m ≡ inr a) × (next a ≡ inr b)
and_then-eq (inl e) next b h = cc
and_then-eq (inr a) next b h = (a, refl, h)

matches-eq : (o : Option String) (value : String) → matches o value ≡ true → o ≡ some value
matches-eq none value h = cc
matches-eq (some line) value h = ground (arith, eq_iff line value)

if_marked-append :
    (b : Bool) (value : String) (rest : List String)
    → if_marked b value rest ≡ if_marked b value [] ++ rest
if_marked-append true value rest = refl
if_marked-append false value rest = refl

-- `Follows` for one line with its mark.
record Moves (lines : List String) (s : Scanned) (mark : ℕ) (value : String) (t : Scanned)
    : Type 0 where
  at_cursor : t.cursor ≡ s.cursor + length (if_marked (mark == 32 || mark == 45) value [])
  made : t.replacement ≡ s.replacement ++ if_marked (mark == 32 || mark == 43) value []
  old : t.old_seen ≡ s.old_seen + length (if_marked (mark == 32 || mark == 45) value [])
  new : t.new_seen ≡ s.new_seen + length (if_marked (mark == 32 || mark == 43) value [])
  found : drop s.cursor lines ≡ if_marked (mark == 32 || mark == 45) value [] ++ drop t.cursor lines

drop_next :
    (n : ℕ) (lines : List String) (value : String)
    → matches (get_elem? lines n) value ≡ true
    → drop n lines ≡ value ∷ drop (n + 1) lines
drop_next n lines value h =
    let next : suc n ≡ n + 1 = omega arith in
    drop-get_elem? n lines value (matches-eq (get_elem? lines n) value h)
    ∙ ap (λ k. value ∷ drop k lines) next

marked_line-Moves :
    (lines : List String) (s : Scanned) (mark : ℕ) (value : String) (t : Scanned)
    → marked_line lines s mark value ≡ inr t
    → Moves lines s mark value t
marked_line-Moves lines s mark value t h = record {
  at_cursor = ground (arith);
  made = ground (arith, append-nil s.replacement);
  old = ground arith;
  new = ground arith;
  found = ground (arith, drop_next s.cursor lines value);
}

pub scan_lines-Follows :
    (lines : List String) (s : Scanned) (hs : List String) (t : Scanned)
    → scan_lines lines s hs ≡ inr t
    → Follows lines s hs t
unfolding scan_lines old_side new_side
scan_lines-Follows lines s [] t h = record {
  at_cursor = ground arith;
  made = ground (arith, append-nil s.replacement);
  old = ground arith;
  new = ground arith;
  found = ground arith;
}
scan_lines-Follows lines s (String.[] ∷ hs) t h = cc
scan_lines-Follows lines s (String.◌∷◌ c value ∷ hs) t h =
    let (u, one, rest) =
      and_then-eq (marked_line lines s (code c) value) (λ t. scan_lines lines t hs) t h in
    let f = scan_lines-Follows lines u hs t rest in
    let m = marked_line-Moves lines s (code c) value u one in
    record {
      at_cursor = ground (arith, f.at_cursor, m.at_cursor);
      made =
          f.made
          ∙ ap (λ l. l ++ new_side hs) m.made
          ∙ append_assoc s.replacement _ (new_side hs)
          ∙ ap (λ l. s.replacement ++ l)
              (sym (if_marked-append (code c == 32 || code c == 43) value (new_side hs)));
      old = ground (arith, f.old, m.old);
      new = ground (arith, f.new, m.new);
      found =
          m.found
          ∙ ap (λ l. if_marked (code c == 32 || code c == 45) value [] ++ l) f.found
          ∙ sym (append_assoc (if_marked (code c == 32 || code c == 45) value []) (old_side hs) _)
          ∙ ap (λ l. l ++ drop t.cursor lines)
              (sym (if_marked-append (code c == 32 || code c == 45) value (old_side hs)));
    }

unfoldable pub is_empty_line : String → Bool
is_empty_line String.[] = true
is_empty_line (String.◌∷◌ c value) = false

matches-found :
    (n : ℕ) (lines after : List String) (value : String)
    → drop n lines ≡ value ∷ after
    → (matches (get_elem? lines n) value ≡ true) × (drop (n + 1) lines ≡ after)
matches-found n lines after value h =
    let (at, rest) = get_elem?-drop n lines after value h in
    let next : n + 1 ≡ suc n = omega arith in
    (ap (λ o. matches o value) at ∙ eq_refl value, ap (λ k. drop k lines) next ∙ rest)

marked_line-found :
    (lines after : List String) (s : Scanned) (mark : ℕ) (value : String)
    → drop s.cursor lines ≡ if_marked (mark == 32 || mark == 45) value [] ++ after
    → (t : Scanned) × (marked_line lines s mark value ≡ inr t) × (drop t.cursor lines ≡ after)
marked_line-found lines after s mark value h = elim (Bool-cases (mark == 32)) [
  | inl context ↦
      let (hit, rest) = matches-found s.cursor lines after value (ground arith) in
      (
        record {
          cursor = s.cursor + 1;
          replacement = s.replacement ++ value ∷ [];
          old_seen = s.old_seen + 1;
          new_seen = s.new_seen + 1;
        },
        ground arith,
        rest,
      )
  | inr other ↦ elim (Bool-cases (mark == 45)) [
    | inl removal ↦
        let (hit, rest) = matches-found s.cursor lines after value (ground arith) in
        (record s { cursor = s.cursor + 1; old_seen = s.old_seen + 1 }, ground arith, rest)
    | inr kept ↦ elim (Bool-cases (mark == 43)) [
      | inl addition ↦ (
        record s { replacement = s.replacement ++ value ∷ []; new_seen = s.new_seen + 1 },
        ground arith,
        ground arith,
      )
      | inr ignored ↦ (s, ground arith, ground arith)
    ]
  ]
]

-- Where the file has the old lines at the cursor, the scan succeeds behind them.
pub scan_lines-found :
    (lines after : List String) (s : Scanned) (hs : List String)
    → any is_empty_line hs ≡ false
    → drop s.cursor lines ≡ old_side hs ++ after
    → (t : Scanned) × (scan_lines lines s hs ≡ inr t) × (drop t.cursor lines ≡ after)
unfolding scan_lines old_side is_empty_line
scan_lines-found lines after s [] full h = (s, refl, h)
scan_lines-found lines after s (String.[] ∷ hs) full h = cc
scan_lines-found lines after s (String.◌∷◌ c value ∷ hs) full h =
    let b : Bool = code c == 32 || code c == 45 in
    let (u, one, rest) = marked_line-found lines (old_side hs ++ after) s (code c) value (
      h
      ∙ ap (λ l. l ++ after) (if_marked-append b value (old_side hs))
      ∙ append_assoc (if_marked b value []) (old_side hs) after) in
    let (t, scanned, behind) = scan_lines-found lines after u hs full rest in
    (t, ap (λ m. and_then m (λ v. scan_lines lines v hs)) one ∙ scanned, behind)
