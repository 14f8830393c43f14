-- ===== src/Concepts/Declarations/Priority.antt =====
-- The order in which the authoring tape puts the declarations of
-- internal/concepts/authoring.go.
use tspack.Base.{
  true, ◌≡◌, ◌∙◌, sym, ap, ℕ, zero, suc, ◌+◌, some, List, [], ◌∷◌, ◌++◌, get_elem?, length, arith,
  Memᴰ, inl, inr,
}
use tspack.Authoring.Declaration.{DependencyDeclaration}
use tspack.Authoring.Declaration.{layer_rank}
use tspack.Authoring.Tape.{declaration_lt}
use tspack.Concepts.Fragment.{Fragment}
use tspack.Concepts.Declarations.{fragment_declarations, declarations_from, dependency_declarations}
use tspack.Concepts.Declarations.Orders.{
  IsOf, fragment_declarations-layer_order, declarations_from-layer_order,
}
use tspack.Base.{◌≢◌, ◌<◌, ◌⊎◌}

module _ {A : Type 0} where
  get_elem?-Mem : (xs : List A) (i : ℕ) (x : A) → get_elem? xs i ≡ some x → Memᴰ x xs
  get_elem?-Mem [] i x h = cc
  get_elem?-Mem (y ∷ xs) zero x h = Memᴰ.head (ground arith)
  get_elem?-Mem (y ∷ xs) (suc i) x h = Memᴰ.tail (get_elem?-Mem xs i x h)

  -- An index into the first list, or behind it.
  get_elem?-append-cases :
      (xs ys : List A) (i : ℕ) (x : A)
      → get_elem? (xs ++ ys) i ≡ some x
      → ((i < length xs) × Memᴰ x xs) ⊎ ((k : ℕ) × (i ≡ length xs + k) × (get_elem? ys k ≡ some x))
  get_elem?-append-cases [] ys i x h = inr (i, omega arith, h)
  get_elem?-append-cases (y ∷ xs) ys zero x h = inl (omega arith, Memᴰ.head (ground arith))
  get_elem?-append-cases (y ∷ xs) ys (suc i) x h = elim (get_elem?-append-cases xs ys i x h) [
    | inl (less, m) ↦ inl (omega (arith, less), Memᴰ.tail m)
    | inr (k, e, at) ↦ inr (k, omega (arith, e), at)
  ]

IsOf-lt :
    (f : Fragment) (later : List Fragment) (next : ℕ) (d e : DependencyDeclaration)
    → IsOf f (length (f ∷ later)) d
    → Memᴰ e (declarations_from next later)
    → declaration_lt e d ≡ true
unfolding declaration_lt
IsOf-lt f later next d e of n =
    let (layer, bounds) = declarations_from-layer_order next later e n in
    ground (arith, of.at, bounds.1, ap layer_rank (layer ∙ sym of.layer))

declarations_from-lt :
    (order : ℕ) (fs : List Fragment) (i j : ℕ) (d e : DependencyDeclaration)
    → get_elem? (declarations_from order fs) i ≡ some d
    → get_elem? (declarations_from order fs) j ≡ some e
    → i < j
    → d.origin.name ≢ e.origin.name
    → declaration_lt e d ≡ true
unfolding declarations_from
declarations_from-lt order [] i j d e h k less differ = cc
declarations_from-lt order (f ∷ fs) i j d e h k less differ =
    let these = fragment_declarations f (length (f ∷ fs)) order in
    let next : ℕ = order + length these in
    let of = fragment_declarations-layer_order f (length (f ∷ fs)) order in
    elim (get_elem?-append-cases these (declarations_from next fs) i d h) [
      | inl (front, m) ↦ elim (get_elem?-append-cases these (declarations_from next fs) j e k) [
        | inl (front', n) ↦ elim (differ ((of d m).origin ∙ sym (of e n).origin)) [ ]
        | inr (b, at, k') ↦
            IsOf-lt f fs next d e (of d m) (get_elem?-Mem (declarations_from next fs) b e k')
      ]
      | inr (a, at, h') ↦ elim (get_elem?-append-cases these (declarations_from next fs) j e k) [
        | inl (front, n) ↦ let absurd : ⊥ = omega (arith, at, front, less) in elim absurd [ ]
        | inr (b, at', k') ↦
            declarations_from-lt next fs a b d e h' k' (omega (arith, at, at', less)) differ
      ]
    ]

-- Of two declarations of differently named fragments in what `DependencyDeclarations` returns, the
-- one at the later index comes before the other in the order of the tape.
pub dependency_declarations-lt :
    (fs : List Fragment) (i j : ℕ) (d e : DependencyDeclaration)
    → get_elem? (dependency_declarations fs) i ≡ some d
    → get_elem? (dependency_declarations fs) j ≡ some e
    → i < j
    → d.origin.name ≢ e.origin.name
    → declaration_lt e d ≡ true
unfolding dependency_declarations
dependency_declarations-lt fs i j d e h k less differ =
    declarations_from-lt 0 fs i j d e h k less differ
