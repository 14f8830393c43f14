-- ===== src/Authoring/Tape/Collisions.antt =====
-- Rivals for one effective key in `Build` of internal/authoring/tape.go, and what its map of
-- effective keys says of the declarations before.
pub mod Keys
pub mod Fatal
use mathlib.Core.List.{append_assoc}
use tspack.Base.{
  ℕ, zero, suc, ◌+◌, ◌≡◌, ◌≢◌, ◌∙◌, refl, ap, sym, subst, Bool, true, false, not, ◌&&◌, ◌||◌,
  Option, none, some, List, [], ◌∷◌, ◌++◌, map, String, Map, str_eq, eq_iff, eq_refl, lookup, put,
  lookup-put, length, any, arith, get_elem?, Option-cases, Bool-cases, ◌⊎◌, inl, inr, if◌then◌else◌,
  ◌==◌,
}
use tspack.Authoring.Declaration.{
  DependencyDeclaration, PackageIdentity, declaration_slot_key, effective_identity,
  effective_dependency,
}
use tspack.Authoring.Tape.{
  TapeEntry, Tape, AuthoringConflict, new_entry, shadow, update_at, entry_at, entry_of,
  shadowed_entries, effective_key, identity_eq, collision_conflict, shadow_conflict,
  classify_shadow, place, blank, place_all, ordered, build, any_fatal, has_fatal_conflicts,
}
use tspack.Authoring.Tape.Entries.{
  entry_at-concat, entry_at-concat_old, entry_at-concat_last, length-shadowed,
}

-- One effective key for two packages.
abbrev pub rivals : DependencyDeclaration → DependencyDeclaration → Bool
rivals a b = str_eq (effective_key a) (effective_key b) && not (identity_eq a.identity b.identity)

-- Some declaration has the effective key of an earlier one and names another package.
unfoldable pub collides : List DependencyDeclaration → List DependencyDeclaration → Bool
collides before [] = false
collides before (d ∷ ds) = any (λ x. rivals x d) before || collides (before ++ d ∷ []) ds

abbrev pub declarations_of : List TapeEntry → List DependencyDeclaration
declarations_of es = map (λ e. e.declaration) es

pub any_fatal-append :
    (xs ys : List AuthoringConflict) → any_fatal (xs ++ ys) ≡ (any_fatal xs || any_fatal ys)
unfolding any_fatal
any_fatal-append [] ys = refl
any_fatal-append (x ∷ xs) ys = ground (arith, any_fatal-append xs ys)

pub or_false : (b : Bool) → (b || false) ≡ b
or_false true = refl
or_false false = refl

pub map_append {ℓ κ} :
    {A : Type ℓ} {B : Type κ} (f : A → B) (xs ys : List A) → map f (xs ++ ys) ≡ map f xs ++ map f ys
map_append f [] ys = refl
map_append f (x ∷ xs) ys = ap (λ l. f x ∷ l) (map_append f xs ys)

declarations_of-update_at :
    (i : ℕ) (later : TapeEntry) (es : List TapeEntry)
    → declarations_of (update_at i (shadow later) es) ≡ declarations_of es
unfolding update_at
declarations_of-update_at i later [] = refl
declarations_of-update_at zero later (e ∷ es) = refl
declarations_of-update_at (suc i) later (e ∷ es) =
    ap (λ l. e.declaration ∷ l) (declarations_of-update_at i later es)

pub declarations_of-shadowed :
    (later : TapeEntry) (es : List TapeEntry) (o : Option ℕ)
    → declarations_of (shadowed_entries later es o) ≡ declarations_of es
declarations_of-shadowed later es none = refl
declarations_of-shadowed later es (some i) = declarations_of-update_at i later es

-- Some declaration of the key names another package than the given one.
abbrev pub clash : String → PackageIdentity → List DependencyDeclaration → Bool
clash key identity =
    any (λ x. str_eq (effective_key x) key && not (identity_eq x.identity identity))

identity_eq-true : (a b : PackageIdentity) → identity_eq a b ≡ true → a ≡ b
identity_eq-true a b h = ground (arith, eq_iff a.source b.source, eq_iff a.name b.name)

pub identity_eq_self : (a : PackageIdentity) → identity_eq a a ≡ true
identity_eq_self a = ground (arith, eq_refl a.source, eq_refl a.name)

any-append {ℓ} :
    {A : Type ℓ} (p : A → Bool) (xs ys : List A) → any p (xs ++ ys) ≡ (any p xs || any p ys)
any-append p [] ys = refl
any-append p (x ∷ xs) ys = ground (arith, any-append p xs ys)

any-get_elem? {ℓ} :
    {A : Type ℓ} (p : A → Bool) (xs : List A) (i : ℕ) (x : A)
    → get_elem? xs i ≡ some x
    → p x ≡ true
    → any p xs ≡ true
any-get_elem? p [] i x h px = cc
any-get_elem? p (y ∷ xs) zero x h px = ground arith
any-get_elem? p (y ∷ xs) (suc i) x h px = ground (arith, any-get_elem? p xs i x h px)

-- No declaration of the key, so no clash.
clash_none :
    (key : String) (identity : PackageIdentity) (xs : List DependencyDeclaration)
    → any (λ x. str_eq (effective_key x) key) xs ≡ false
    → clash key identity xs ≡ false
clash_none key identity [] h = refl
clash_none key identity (x ∷ xs) h = ground (arith, clash_none key identity xs)

-- What `latestByEffectiveKey` says of the declarations before.
pub record Keyed (latest : Map ℕ) (xs : List DependencyDeclaration) : Type 0 where
  pub found :
      (key : String) (i : ℕ)
      → lookup key latest ≡ some i
      → (x : DependencyDeclaration) × (get_elem? xs i ≡ some x) × (effective_key x ≡ key)
  pub missing :
      (key : String) → lookup key latest ≡ none → any (λ x. str_eq (effective_key x) key) xs ≡ false

-- All declarations of a key name the package of the latest one.
abbrev pub Uniform : Map ℕ → List DependencyDeclaration → Type 0
Uniform latest xs =
    (key : String) (i : ℕ) (x : DependencyDeclaration)
    → lookup key latest ≡ some i
    → get_elem? xs i ≡ some x
    → clash key x.identity xs ≡ false

abbrev pub differs : Option DependencyDeclaration → DependencyDeclaration → Bool
differs none d = false
differs (some x) d = not (identity_eq x.identity d.identity)

abbrev pub at_index : List DependencyDeclaration → Option ℕ → Option DependencyDeclaration
at_index xs none = none
at_index xs (some i) = get_elem? xs i

abbrev latest_of : Map ℕ → List DependencyDeclaration → String → Option DependencyDeclaration
latest_of latest xs key = at_index xs (lookup key latest)

pub differs-clash :
    (latest : Map ℕ) (xs : List DependencyDeclaration) (d : DependencyDeclaration)
    → Keyed latest xs
    → Uniform latest xs
    → differs (latest_of latest xs (effective_key d)) d ≡ clash (effective_key d) d.identity xs
differs-clash latest xs d k u = elim (Option-cases (lookup (effective_key d) latest)) [
  | inl new ↦
      ground (arith, clash_none (effective_key d) d.identity xs (k.missing (effective_key d) new))
  | inr (i, old) ↦
      let (x, at, has) = k.found (effective_key d) i old in
      elim (Bool-cases (identity_eq x.identity d.identity)) [
        | inl same ↦
            let e = identity_eq-true x.identity d.identity same in
            let calm : clash (effective_key d) d.identity xs ≡ false =
              subst (λ y. clash (effective_key d) y xs ≡ false) e
                (u (effective_key d) i x old at) in
            ground arith
        | inr other ↦
            let hit : clash (effective_key d) d.identity xs ≡ true =
              any-get_elem?
                (λ y.
                  str_eq (effective_key y) (effective_key d)
                  && not (identity_eq y.identity d.identity))
                xs i x at (ground (arith, eq_iff (effective_key x) (effective_key d))) in
            ground arith
      ]
]
