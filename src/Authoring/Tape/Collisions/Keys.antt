-- ===== src/Authoring/Tape/Collisions/Keys.antt =====
-- The map of effective keys in `Build` of internal/authoring/tape.go, behind one more declaration.
use tspack.Base.{
  ℕ, zero, suc, ◌≡◌, ◌∙◌, refl, ap, subst, false, not, ◌&&◌, ◌||◌, Option, none, some, List, [],
  ◌∷◌, ◌++◌, String, Map, str_eq, eq_iff, lookup, put, lookup-put, length, any, arith, get_elem?,
  Bool-cases, ◌⊎◌, inl, inr,
}
use tspack.Authoring.Declaration.{DependencyDeclaration, PackageIdentity}
use tspack.Authoring.Tape.{effective_key, identity_eq}
use tspack.Authoring.Tape.Collisions.{or_false, clash, identity_eq_self, Keyed, Uniform}

get_elem?-last {ℓ} :
    {A : Type ℓ} (xs : List A) (x : A) → get_elem? (xs ++ x ∷ []) (length xs) ≡ some x
get_elem?-last [] x = refl
get_elem?-last (y ∷ xs) x = get_elem?-last xs x

get_elem?-more {ℓ} :
    {A : Type ℓ} (xs : List A) (x y : A) (i : ℕ)
    → get_elem? xs i ≡ some y
    → get_elem? (xs ++ x ∷ []) i ≡ some y
get_elem?-more [] x y i h = cc
get_elem?-more (z ∷ xs) x y zero h = h
get_elem?-more (z ∷ xs) x y (suc i) h = get_elem?-more xs x y i h

lookup-put-eq :
    (k key : String) (v i : ℕ) (m : Map ℕ)
    → lookup key (put k v m) ≡ some i
    → ((k ≡ key) × (i ≡ v)) ⊎ ((str_eq k key ≡ false) × (lookup key m ≡ some i))
lookup-put-eq k key v i m h = elim (Bool-cases (str_eq k key)) [
  | inl same ↦ inl (ground (arith, eq_iff k key), ground (arith, lookup-put k key v m))
  | inr other ↦ inr (other, ground (arith, lookup-put k key v m))
]

lookup-put-none :
    (k key : String) (v : ℕ) (m : Map ℕ)
    → lookup key (put k v m) ≡ none
    → (str_eq k key ≡ false) × (lookup key m ≡ none)
lookup-put-none k key v m h = elim (Bool-cases (str_eq k key)) [
  | inl same ↦ absurd (ground (arith, lookup-put k key v m))
  | inr other ↦ (other, ground (arith, lookup-put k key v m))
]

clash-append :
    (key : String) (p : PackageIdentity) (xs : List DependencyDeclaration)
    (d : DependencyDeclaration)
    → clash key p (xs ++ d ∷ [])
      ≡ (clash key p xs || (str_eq (effective_key d) key && not (identity_eq d.identity p)))
clash-append key p [] d = or_false (str_eq (effective_key d) key && not (identity_eq d.identity p))
clash-append key p (x ∷ xs) d = ground (arith, clash-append key p xs d)

any_key-append :
    (key : String) (xs : List DependencyDeclaration) (d : DependencyDeclaration)
    → any (λ x. str_eq (effective_key x) key) xs ≡ false
    → str_eq (effective_key d) key ≡ false
    → any (λ x. str_eq (effective_key x) key) (xs ++ d ∷ []) ≡ false
any_key-append key [] d old new = ground arith
any_key-append key (x ∷ xs) d old new = ground (arith, any_key-append key xs d)

some_eq {ℓ} : {A : Type ℓ} (o : Option A) (x y : A) → o ≡ some x → o ≡ some y → x ≡ y
some_eq o x y h k = cc

module _ (latest : Map ℕ) (xs : List DependencyDeclaration) (d : DependencyDeclaration) where
  pub put-Keyed : Keyed latest xs → Keyed (put (effective_key d) (length xs) latest) (xs ++ d ∷ [])
  put-Keyed k = record {
    found = λ key i h. elim (lookup-put-eq (effective_key d) key (length xs) i latest h) [
      | inl (same, last) ↦ (d, ap (get_elem? (xs ++ d ∷ [])) last ∙ get_elem?-last xs d, same)
      | inr (other, old) ↦
          let (x, at, has) = k.found key i old in (x, get_elem?-more xs d x i at, has)
    ];
    missing = λ key h.
        let (other, new) = lookup-put-none (effective_key d) key (length xs) latest h in
        any_key-append key xs d (k.missing key new) other;
  }

  -- Without a clash the next declaration keeps the packages of a key the same.
  pub put-Uniform :
      Keyed latest xs
      → Uniform latest xs
      → clash (effective_key d) d.identity xs ≡ false
      → Uniform (put (effective_key d) (length xs) latest) (xs ++ d ∷ [])
  put-Uniform k u calm key i x h at =
      elim (lookup-put-eq (effective_key d) key (length xs) i latest h) [
        | inl (same, last) ↦
            let here : d ≡ x =
              some_eq (get_elem? (xs ++ d ∷ []) i) d x
                (ap (get_elem? (xs ++ d ∷ [])) last ∙ get_elem?-last xs d) at in
            subst (λ y. clash key y.identity (xs ++ d ∷ []) ≡ false) here
              (subst (λ w. clash w d.identity (xs ++ d ∷ []) ≡ false) same
                (clash-append (effective_key d) d.identity xs d
                  ∙ ap
                      (λ b.
                        b
                        || (str_eq (effective_key d) (effective_key d)
                            && not (identity_eq d.identity d.identity)))
                      calm
                  ∙ ground (arith, identity_eq_self d.identity)))
        | inr (other, old) ↦
            let (y, there, has) = k.found key i old in
            let here : y ≡ x =
              some_eq (get_elem? (xs ++ d ∷ []) i) y x (get_elem?-more xs d y i there) at in
            subst (λ z. clash key z.identity (xs ++ d ∷ []) ≡ false) here
              (clash-append key y.identity xs d
                ∙ ap
                    (λ b.
                      b
                      || (str_eq (effective_key d) key && not (identity_eq d.identity y.identity)))
                    (u key i y old there)
                ∙ ap (λ b. b && not (identity_eq d.identity y.identity)) other)
      ]
