-- ===== src/Identity/Names/RoundTrips.antt =====
-- `JSRCompatibilityName` and `LogicalJSRName` of internal/packageidentity/identity.go undo one
-- another.
use mathlib.Core.List.{append_assoc}
use tspack.Base.{
  suc, ◌≡◌, ◌∙◌, refl, ap, sym, false, not, Option, none, some, [], ◌∷◌, ◌++◌, inl, inr, arith,
  ◌==◌, if◌then◌else◌, ◌↔◌,
}
use tspack.Identity.Names.{
  Name, Outcome, underscore, not_compatibility, split_jsr_name, has_double, count_double,
  cut_double, strip_prefix, jsr_prefix, join_logical, join_compatibility, compatibility_name,
  compatibility_of, logical_jsr_name, logical_after, logical_of, checked,
}
use tspack.Identity.Names.Slashes.{split_jsr_name-join, join-split_jsr_name}
use tspack.Identity.Names.Underscores.{
  ends_in_underscore, count_double-none, none-count_double, cut_double-join, count_double-join,
  cut_double-eq, has_double-rest, has_double-behind,
}

strip_prefix-eq : (p s v : Name) → strip_prefix p s ≡ some v → s ≡ p ++ v
strip_prefix-eq [] s v h = ground arith
strip_prefix-eq (c ∷ p) [] v h = cc
strip_prefix-eq (c ∷ p) (d ∷ s) v h = ground (arith, strip_prefix-eq p s v)

checked-eq :
    (name n : Name) (o : Outcome (Name × Name))
    → checked name o ≡ inr n
    → (name ≡ n) × (parts : Name × Name) × (o ≡ inr parts)
checked-eq name n (inl e) h = cc
checked-eq name n (inr parts) h = (ground arith, parts, refl)

logical_of-eq :
    (o : Option (Name × Name)) (n : Name)
    → logical_of o ≡ inr n
    → (a : Name) × (b : Name) × (o ≡ some (a, b))
      × (n ≡ join_logical a b)
      × (split_jsr_name n ≡ inr (a, b))
logical_of-eq none n h = cc
logical_of-eq (some (a, b)) n h =
    let (whole, (c, d), split) =
      checked-eq (join_logical a b) n (split_jsr_name (join_logical a b)) h in
    let (ac, bd) = join-split_jsr_name a b c d split in (a, b, refl, sym whole, ground arith)

compatibility_of-join :
    (v a b : Name)
    → count_double v ≡ 1
    → cut_double v ≡ some (a, b)
    → compatibility_of (inr (a, b)) ≡ inr (jsr_prefix ++ v)
compatibility_of-join v a b once cut =
    let (whole, clear, counted) = cut_double-eq v a b cut in ground (arith, none-count_double b)

logical_after-eq :
    (o : Option Name) (n : Name)
    → logical_after o ≡ inr n
    → (v : Name) × (o ≡ some v) × (compatibility_name n ≡ inr (jsr_prefix ++ v))
unfolding compatibility_name
logical_after-eq none n h = cc
logical_after-eq (some v) n h =
    let once : count_double v ≡ 1 = ground arith in
    let (a, b, cut, whole, split) = logical_of-eq (cut_double v) n (ground arith) in
    (v, refl, ap compatibility_of split ∙ compatibility_of-join v a b once cut)

-- The JSR name that a compatibility name stands for is spelled as that compatibility name.
pub compatibility_name-logical_jsr_name :
    (name n : Name) → logical_jsr_name name ≡ inr n → compatibility_name n ≡ inr name
unfolding logical_jsr_name
compatibility_name-logical_jsr_name name n h =
    let (v, at, spelled) = logical_after-eq (strip_prefix jsr_prefix name) n h in
    spelled ∙ ap inr (sym (strip_prefix-eq jsr_prefix name v at))

compatibility_of-eq :
    (o : Outcome (Name × Name)) (name : Name)
    → compatibility_of o ≡ inr name
    → (a : Name) × (b : Name) × (o ≡ inr (a, b))
      × (has_double a ≡ false)
      × (has_double b ≡ false)
      × (name ≡ join_compatibility a b)
compatibility_of-eq (inl e) name h = cc
compatibility_of-eq (inr (a, b)) name h = (a, b, refl, ground arith, ground arith, ground arith)

logical_after-join :
    (a b : Name)
    → has_double a ≡ false
    → has_double b ≡ false
    → ends_in_underscore a ≡ false
    → (parts : Name × Name) → split_jsr_name (join_logical a b) ≡ inr parts
    → logical_after (some (a ++ underscore ∷ underscore ∷ b)) ≡ inr (join_logical a b)
logical_after-join a b clear_a clear_b ends parts split =
    let v : Name = a ++ underscore ∷ underscore ∷ b in
    let once : count_double v ≡ 1 =
      count_double-join a b clear_a ends ∙ ap suc (count_double-none b clear_b) in
    ap (λ k. if not (k == 1) then inl not_compatibility else logical_of (cut_double v)) once
    ∙ ap logical_of (cut_double-join a b clear_a ends)
    ∙ ap (checked (join_logical a b)) split

-- Where the scope of a JSR name does not end in an underscore, its compatibility name stands for
-- that JSR name.
pub logical_jsr_name-compatibility_name :
    (n scope pkg name : Name)
    → split_jsr_name n ≡ inr (scope, pkg)
    → ends_in_underscore scope ≡ false
    → compatibility_name n ≡ inr name
    → logical_jsr_name name ≡ inr n
unfolding logical_jsr_name compatibility_name
logical_jsr_name-compatibility_name n scope pkg name split ends h =
    let (a, b, same, clear_a, clear_b, whole) = compatibility_of-eq (split_jsr_name n) name h in
    let (sa, sb) =
      join-split_jsr_name scope pkg a b
        (sym (ap split_jsr_name (split_jsr_name-join n scope pkg split)) ∙ same) in
    ap logical_jsr_name (
      whole
      ∙ ap (λ x. join_compatibility x b) (sym sa)
      ∙ ap (λ x. join_compatibility scope x) (sym sb))
    ∙ logical_after-join scope pkg (rw sa clear_a) (rw sb clear_b) ends (scope, pkg)
        (sym (ap split_jsr_name (split_jsr_name-join n scope pkg split)) ∙ split)
    ∙ ap inr (sym (split_jsr_name-join n scope pkg split))

-- Names whose parts are known.
compatibility_name-split :
    (n a b : Name)
    → split_jsr_name n ≡ inr (a, b)
    → has_double a ≡ false
    → has_double b ≡ false
    → compatibility_name n ≡ inr (join_compatibility a b)
unfolding compatibility_name
compatibility_name-split n a b split clear_a clear_b =
    ap compatibility_of split ∙ ground (arith, clear_a, clear_b)

split-compatibility_name :
    (n a b name : Name)
    → split_jsr_name n ≡ inr (a, b)
    → compatibility_name n ≡ inr name
    → (has_double a ≡ false) × (has_double b ≡ false) × (name ≡ join_compatibility a b)
unfolding compatibility_name
split-compatibility_name n a b name split h =
    let (c, d, same, clear_c, clear_d, whole) =
      compatibility_of-eq (inr (a, b)) name (sym (ap compatibility_of split) ∙ h) in
    ground (arith, same)

join_compatibility-shift :
    (scope pkg : Name)
    → join_compatibility (scope ++ underscore ∷ []) pkg
      ≡ join_compatibility scope (underscore ∷ pkg)
join_compatibility-shift scope pkg =
    ap (λ l. jsr_prefix ++ l) (append_assoc scope (underscore ∷ []) (underscore ∷ underscore ∷ pkg))

-- Two JSR names whose parts `split_jsr_name` gives, of which one ends its scope in the underscore
-- that the other begins its package with, are both spelled as a name just where neither that scope
-- nor that package has a double underscore and the name is that of the second; the name then stands
-- for the second JSR name.
pub compatibility_name-ambiguous :
    (scope pkg name : Name)
    → split_jsr_name (join_logical (scope ++ underscore ∷ []) pkg)
      ≡ inr (scope ++ underscore ∷ [], pkg)
    → split_jsr_name (join_logical scope (underscore ∷ pkg)) ≡ inr (scope, underscore ∷ pkg)
    → ((compatibility_name (join_logical (scope ++ underscore ∷ []) pkg) ≡ inr name)
        × (compatibility_name (join_logical scope (underscore ∷ pkg)) ≡ inr name))
      ↔ ((has_double (scope ++ underscore ∷ []) ≡ false)
          × (has_double (underscore ∷ pkg) ≡ false)
          × (name ≡ join_compatibility scope (underscore ∷ pkg))
          × (logical_jsr_name name ≡ inr (join_logical scope (underscore ∷ pkg))))
compatibility_name-ambiguous scope pkg name split split' =
    let first : Name = join_logical (scope ++ underscore ∷ []) pkg in
    let second : Name = join_logical scope (underscore ∷ pkg) in
    (
      λ (h, k).
          let (clear_a, _, _) =
            split-compatibility_name first (scope ++ underscore ∷ []) pkg name split h in
          let (_, clear_b, whole) =
            split-compatibility_name second scope (underscore ∷ pkg) name split' k in
          let (clear, calm) = has_double-behind scope clear_a in
          (
            clear_a,
            clear_b,
            whole,
            logical_jsr_name-compatibility_name second scope (underscore ∷ pkg) name split' calm k,
          ),
      λ (clear_a, clear_b, whole, back).
          let (clear, calm) = has_double-behind scope clear_a in
          (
            compatibility_name-split first (scope ++ underscore ∷ []) pkg split clear_a
                  (has_double-rest underscore pkg clear_b)
                ∙ ap inr (join_compatibility-shift scope pkg ∙ sym whole),
            compatibility_name-split second scope (underscore ∷ pkg) split' clear clear_b
                ∙ ap inr (sym whole),
          ),
    )
