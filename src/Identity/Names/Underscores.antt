-- ===== src/Identity/Names/Underscores.antt =====
-- The double underscores of internal/packageidentity/identity.go.
use tspack.Base.{
  ℕ, suc, ◌≡◌, refl, Bool, false, ◌&&◌, Option, none, some, [], ◌∷◌, ◌++◌, inl, inr, arith, ◌==◌,
  Bool-cases,
}
use tspack.Identity.Names.{Name, underscore, has_double, count_double, cut_double, push_first}

-- Whether the last code point is an underscore.
unfoldable pub ends_in_underscore : Name → Bool
ends_in_underscore [] = false
ends_in_underscore (c ∷ []) = c == underscore
ends_in_underscore (c ∷ d ∷ s) = ends_in_underscore (d ∷ s)

pub has_double-rest : (c : ℕ) (s : Name) → has_double (c ∷ s) ≡ false → has_double s ≡ false
unfolding has_double
has_double-rest c [] h = refl
has_double-rest c (d ∷ s) h = ground arith

-- A text without an occurrence that an underscore behind it does not make.
pub has_double-behind :
    (s : Name)
    → has_double (s ++ underscore ∷ []) ≡ false
    → (has_double s ≡ false) × (ends_in_underscore s ≡ false)
unfolding has_double ends_in_underscore
has_double-behind [] h = (refl, refl)
has_double-behind (c ∷ []) h = (refl, ground arith)
has_double-behind (c ∷ d ∷ s) h =
    let (clear, calm) = has_double-behind (d ∷ s) (ground arith) in (ground arith, calm)

pub count_double-none : (s : Name) → has_double s ≡ false → count_double s ≡ 0
unfolding has_double count_double
count_double-none [] h = refl
count_double-none (c ∷ []) h = refl
count_double-none (c ∷ d ∷ s) h = ground (arith, count_double-none (d ∷ s))

-- A text without an occurrence has none, overlapping or not.
pub none-count_double : (s : Name) → count_double s ≡ 0 → has_double s ≡ false
unfolding has_double count_double
none-count_double [] h = refl
none-count_double (c ∷ []) h = refl
none-count_double (c ∷ d ∷ s) h = ground (arith, none-count_double (d ∷ s))

-- The first occurrence, where the text before has none and does not end in an underscore.
pub cut_double-join :
    (a b : Name)
    → has_double a ≡ false
    → ends_in_underscore a ≡ false
    → cut_double (a ++ underscore ∷ underscore ∷ b) ≡ some (a, b)
unfolding has_double cut_double ends_in_underscore
cut_double-join [] b clear ends = ground arith
cut_double-join (c ∷ []) b clear ends = ground (arith, cut_double-join [] b)
cut_double-join (c ∷ d ∷ a) b clear ends = ground (arith, cut_double-join (d ∷ a) b)

pub count_double-join :
    (a b : Name)
    → has_double a ≡ false
    → ends_in_underscore a ≡ false
    → count_double (a ++ underscore ∷ underscore ∷ b) ≡ suc (count_double b)
unfolding has_double count_double ends_in_underscore
count_double-join [] b clear ends = ground arith
count_double-join (c ∷ []) b clear ends = ground (arith, count_double-join [] b)
count_double-join (c ∷ d ∷ a) b clear ends = ground (arith, count_double-join (d ∷ a) b)

push_first-eq :
    (c : ℕ) (o : Option (Name × Name)) (a b : Name)
    → push_first c o ≡ some (a, b)
    → (t : Name) × (a ≡ c ∷ t) × (o ≡ some (t, b))
push_first-eq c none a b h = cc
push_first-eq c (some (t, s)) a b h = (t, ground arith, ground arith)

has_double_first :
    (c d : ℕ) (s t rest : Name)
    → d ∷ s ≡ t ++ rest
    → (c == underscore && d == underscore) ≡ false
    → has_double t ≡ false
    → has_double (c ∷ t) ≡ false
unfolding has_double
has_double_first c d s [] rest whole later clear = refl
has_double_first c d s (e ∷ t) rest whole later clear = ground arith

-- A text that is cut has one occurrence more than its second part, and its first part has none.
pub cut_double-eq :
    (s a b : Name)
    → cut_double s ≡ some (a, b)
    → (s ≡ a ++ underscore ∷ underscore ∷ b)
      × (has_double a ≡ false)
      × (count_double s ≡ suc (count_double b))
unfolding cut_double has_double count_double
cut_double-eq [] a b h = cc
cut_double-eq (c ∷ []) a b h = cc
cut_double-eq (c ∷ d ∷ s) a b h = elim (Bool-cases (c == underscore && d == underscore)) [
  | inl here ↦ (ground arith, ground arith, ground arith)
  | inr later ↦
      let (t, at, found) = push_first-eq c (cut_double (d ∷ s)) a b (ground arith) in
      let (whole, clear, counted) = cut_double-eq (d ∷ s) t b found in
      (
        ground arith,
        ground (arith, has_double_first c d s t (underscore ∷ underscore ∷ b) whole later clear),
        ground arith,
      )
]
