-- ===== src/Base/Text/Order.antt =====
-- The order of texts, and insertion sort by it.
use Prim.Native.String.{String}
use Prim.Native.String.compare
use Prim.Native.Char.{Char, code}
use text.Mathlib.TextEquality.{codes_equal}
use tspack.Base.{◌≡◌, ◌∙◌, refl, true, false, List, [], ◌∷◌, arith}
use mathlib.Core.List.{Permᴰ}
use tspack.Base.Text.{string_le, insert, sort_strings}

pub string_le_total : (a b : String) → string_le a b ≡ false → string_le b a ≡ true
string_le_total String.[] String.[] h = ground (arith, compare.nil-nil)
string_le_total String.[] (String.◌∷◌ d t) h = ground (arith, compare.nil-cons d t)
string_le_total (String.◌∷◌ c s) String.[] h = ground (arith, compare.nil-cons c s)
string_le_total (String.◌∷◌ c s) (String.◌∷◌ d t) h =
    ground (arith, compare.cons-cons c d s t, compare.cons-cons d c t s, string_le_total s t)

pub string_le_trans :
    (a b c : String) → string_le a b ≡ true → string_le b c ≡ true → string_le a c ≡ true
string_le_trans String.[] b String.[] h k = ground (arith, compare.nil-nil)
string_le_trans String.[] b (String.◌∷◌ d t) h k = ground (arith, compare.nil-cons d t)
string_le_trans (String.◌∷◌ c s) String.[] e h k = ground (arith, compare.cons-nil c s)
string_le_trans (String.◌∷◌ c s) (String.◌∷◌ d t) String.[] h k =
    ground (arith, compare.cons-nil d t)
string_le_trans (String.◌∷◌ c s) (String.◌∷◌ d t) (String.◌∷◌ e u) h k = ground (
  arith,
  compare.cons-cons c d s t,
  compare.cons-cons d e t u,
  compare.cons-cons c e s u,
  string_le_trans s t u,
)

code-eq : (c d : Char) → code c ≡ code d → c ≡ d
code-eq c d h = codes_equal c d (ground arith)

pub string_le_antisym : (a b : String) → string_le a b ≡ true → string_le b a ≡ true → a ≡ b
string_le_antisym String.[] String.[] h k = refl
string_le_antisym String.[] (String.◌∷◌ d t) h k = ground (arith, compare.cons-nil d t)
string_le_antisym (String.◌∷◌ c s) String.[] h k = ground (arith, compare.cons-nil c s)
string_le_antisym (String.◌∷◌ c s) (String.◌∷◌ d t) h k =
    let same : code c ≡ code d =
      ground (arith, compare.cons-cons c d s t, compare.cons-cons d c t s) in
    let tails : s ≡ t =
      string_le_antisym s t (ground (arith, same, compare.cons-cons c d s t))
        (ground (arith, same, compare.cons-cons d c t s)) in
    λ i. String.◌∷◌ (code-eq c d same i) (tails i)

insert_comm : (a b : String) (xs : List String) → insert a (insert b xs) ≡ insert b (insert a xs)
unfolding insert
insert_comm a b [] = grind (arith, string_le_total a b, string_le_total b a, string_le_antisym a b)
insert_comm a b (c ∷ xs) = grind (
  arith,
  string_le_total a b,
  string_le_total b a,
  string_le_antisym a b,
  string_le_trans a b c,
  string_le_trans b a c,
  string_le_total b c,
  string_le_total a c,
  string_le_trans a c b,
  string_le_trans b c a,
  insert_comm a b xs,
)

-- The order of a list does not matter to what is sorted.
pub sort_strings-Perm : (xs ys : List String) → Permᴰ xs ys → sort_strings xs ≡ sort_strings ys
unfolding sort_strings
sort_strings-Perm xs ys Permᴰ.nil = refl
sort_strings-Perm (x ∷ xs) (y ∷ ys) (Permᴰ.cons e p) =
    (λ i. insert (e i) (sort_strings-Perm xs ys p i))
sort_strings-Perm (a ∷ b ∷ xs) (c ∷ d ∷ ys) (Permᴰ.swap e f) =
    insert_comm a b (sort_strings xs) ∙ (λ i. insert (f i) (insert (e i) (sort_strings xs)))
sort_strings-Perm xs ys (Permᴰ.trans {l₂ = zs} p q) =
    sort_strings-Perm xs zs p ∙ sort_strings-Perm zs ys q
