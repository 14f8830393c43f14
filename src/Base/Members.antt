-- ===== src/Base/Members.antt =====
-- Members of lists, and of lists of names.
use Prim.Native.String.{String}
use mathlib.Core.Path.{◌≡◌, refl, sym, subst}
use mathlib.Core.Logic.{◌⊎◌, inl, inr}
use mathlib.Core.Bool.{Bool, true}
use mathlib.Core.List.{List, [], ◌∷◌, ◌++◌, Memᴰ}
use native.Mathlib.Omega.{arith}
use text.Mathlib.Text.{◌==◌ as str_eq}
use text.Mathlib.TextEquality.{eq_iff}
use tspack.Base.Tests.{Bool-cases}
use tspack.Base.Lists.{any, all}

abbrev pub is_among : String → List String → Bool
is_among name = any (λ x. str_eq x name)

pub is_among-Mem : (v : String) (xs : List String) → Memᴰ v xs → is_among v xs ≡ true
is_among-Mem v [] m = elim m [ ]
is_among-Mem v (x ∷ xs) (Memᴰ.head e) = ground (arith, eq_iff x v)
is_among-Mem v (x ∷ xs) (Memᴰ.tail m) = ground (arith, is_among-Mem v xs m)

pub Mem-is_among : (v : String) (xs : List String) → is_among v xs ≡ true → Memᴰ v xs
Mem-is_among v [] h = cc
Mem-is_among v (x ∷ xs) h = elim (Bool-cases (any (λ y. str_eq y v) xs)) [
  | inl later ↦ Memᴰ.tail (Mem-is_among v xs later)
  | inr never ↦ Memᴰ.head (ground (arith, eq_iff x v))
]

module _ {ℓ} {A : Type ℓ} where
  pub Mem-append-cases : (v : A) (xs ys : List A) → Memᴰ v (xs ++ ys) → Memᴰ v xs ⊎ Memᴰ v ys
  Mem-append-cases v [] ys m = inr m
  Mem-append-cases v (x ∷ xs) ys (Memᴰ.head e) = inl (Memᴰ.head e)
  Mem-append-cases v (x ∷ xs) ys (Memᴰ.tail m) = elim (Mem-append-cases v xs ys m) [
    | inl h ↦ inl (Memᴰ.tail h)
    | inr t ↦ inr t
  ]

  pub Mem-append_left : (v : A) (xs ys : List A) → Memᴰ v xs → Memᴰ v (xs ++ ys)
  Mem-append_left v [] ys m = elim m [ ]
  Mem-append_left v (x ∷ xs) ys (Memᴰ.head e) = Memᴰ.head e
  Mem-append_left v (x ∷ xs) ys (Memᴰ.tail m) = Memᴰ.tail (Mem-append_left v xs ys m)

  pub Mem-append_right : (v : A) (xs ys : List A) → Memᴰ v ys → Memᴰ v (xs ++ ys)
  Mem-append_right v [] ys m = m
  Mem-append_right v (x ∷ xs) ys m = Memᴰ.tail (Mem-append_right v xs ys m)

  pub all_intro :
      (p : A → Bool) (xs : List A) → ((x : A) → Memᴰ x xs → p x ≡ true) → all p xs ≡ true
  all_intro p [] h = refl
  all_intro p (x ∷ xs) h =
      ground (arith, h x (Memᴰ.head refl), all_intro p xs (λ y m. h y (Memᴰ.tail m)))

  pub all-Mem : (p : A → Bool) (xs : List A) (x : A) → all p xs ≡ true → Memᴰ x xs → p x ≡ true
  all-Mem p [] x h m = elim m [ ]
  all-Mem p (y ∷ xs) x h (Memᴰ.head e) = subst (λ z. p z ≡ true) (sym e) (ground arith)
  all-Mem p (y ∷ xs) x h (Memᴰ.tail m) = all-Mem p xs x (ground (arith, Bool-cases (p y))) m
