-- ===== src/Concepts/Declarations/Orders.antt =====
-- The orders that `DependencyDeclarations` of internal/concepts/authoring.go gives.
use tspack.Base.{
  ◌≡◌, refl, ap, ℕ, zero, suc, ◌+◌, ◌≤◌, some, List, [], ◌∷◌, ◌++◌, String, get_elem?, length,
  length-append, arith, Memᴰ, Mem-append-cases, inl, inr,
}
use tspack.Authoring.Declaration.{DependencyDeclaration}
use tspack.Concepts.Fragment.{DependencyContribution, Fragment}
use tspack.Concepts.Declarations.{
  concept_declaration, concept_dependencies, fragment_declarations, declarations_from,
  dependency_declarations,
}

-- The declaration at an index has the order that is so far above the first.
abbrev Counts : ℕ → List DependencyDeclaration → Type 0
Counts order ds =
    (i : ℕ) (d : DependencyDeclaration) → get_elem? ds i ≡ some d → d.order ≡ order + i

Counts-append :
    (order : ℕ) (ds es : List DependencyDeclaration)
    → Counts order ds
    → Counts (order + length ds) es
    → Counts order (ds ++ es)
Counts-append order [] es p q i d h = omega (arith, q i d h)
Counts-append order (x ∷ ds) es p q zero d h = p zero d h
Counts-append order (x ∷ ds) es p q (suc i) d h =
    let later =
      Counts-append (suc order) ds es (λ j e k. omega (arith, p (suc j) e k))
        (λ j e k. omega (arith, q j e k)) i d h in
    omega arith

concept_dependencies-Counts :
    (f : Fragment) (kind : String) (layer_order index order : ℕ)
    (deps : List DependencyContribution)
    → Counts order (concept_dependencies f kind layer_order index order deps)
unfolding concept_dependencies concept_declaration
concept_dependencies-Counts f kind layer_order index order [] i d h = cc
concept_dependencies-Counts f kind layer_order index order (x ∷ deps) zero d h =
    let e : concept_declaration f kind layer_order x index order ≡ d = cc in
    omega (arith, ap (λ (d : DependencyDeclaration). d.order) e)
concept_dependencies-Counts f kind layer_order index order (x ∷ deps) (suc i) d h =
    omega (arith, concept_dependencies-Counts f kind layer_order (index + 1) (order + 1) deps i d h)

length-concept_dependencies :
    (f : Fragment) (kind : String) (layer_order index order : ℕ)
    (deps : List DependencyContribution)
    → length (concept_dependencies f kind layer_order index order deps) ≡ length deps
unfolding concept_dependencies
length-concept_dependencies f kind layer_order index order [] = refl
length-concept_dependencies f kind layer_order index order (x ∷ deps) =
    ap suc (length-concept_dependencies f kind layer_order (index + 1) (order + 1) deps)

fragment_declarations-Counts :
    (f : Fragment) (layer_order order : ℕ)
    → Counts order (fragment_declarations f layer_order order)
unfolding fragment_declarations
fragment_declarations-Counts f layer_order order =
    let m = f.manifest in
    let ds = concept_dependencies f "dep" layer_order 0 order m.dependencies in
    let ts = concept_dependencies f "tool" layer_order 0 (order + length m.dependencies) m.tools in
    let ps =
      concept_dependencies f "peer" layer_order 0 (order + length m.dependencies + length m.tools)
        m.peers in
    let a = length-concept_dependencies f "dep" layer_order 0 order m.dependencies in
    let b =
      length-concept_dependencies f "tool" layer_order 0 (order + length m.dependencies) m.tools in
    let both : Counts order (ds ++ ts) =
      Counts-append order ds ts
        (concept_dependencies-Counts f "dep" layer_order 0 order m.dependencies)
        (λ i d h. omega (
          arith,
          a,
          concept_dependencies-Counts f "tool" layer_order 0 (order + length m.dependencies) m.tools
              i d h,
        )) in
    Counts-append order (ds ++ ts) ps both (λ i d h. omega (
      arith,
      a,
      b,
      length-append ds ts,
      concept_dependencies-Counts f "peer" layer_order 0
          (order + length m.dependencies + length m.tools) m.peers i d h,
    ))

declarations_from-Counts :
    (order : ℕ) (fs : List Fragment) → Counts order (declarations_from order fs)
unfolding declarations_from
declarations_from-Counts order [] = λ i d h. cc
declarations_from-Counts order (f ∷ fs) =
    let these = fragment_declarations f (length (f ∷ fs)) order in
    Counts-append order these (declarations_from (order + length these) fs)
      (fragment_declarations-Counts f (length (f ∷ fs)) order)
      (declarations_from-Counts (order + length these) fs)

-- The declaration at an index has that index as its order.
pub dependency_declarations-order :
    (fs : List Fragment) (i : ℕ) (d : DependencyDeclaration)
    → get_elem? (dependency_declarations fs) i ≡ some d
    → d.order ≡ i
unfolding dependency_declarations
dependency_declarations-order fs i d h = omega (arith, declarations_from-Counts 0 fs i d h)

-- The layer, its order and the origin of a declaration of a fragment.
pub record IsOf (f : Fragment) (layer_order : ℕ) (d : DependencyDeclaration) : Type 0 where
  pub layer : d.layer ≡ "concept"
  pub at : d.layer_order ≡ layer_order
  pub origin : d.origin.name ≡ f.name

concept_dependencies-layer_order :
    (f : Fragment) (kind : String) (layer_order index order : ℕ)
    (deps : List DependencyContribution) (d : DependencyDeclaration)
    → Memᴰ d (concept_dependencies f kind layer_order index order deps)
    → IsOf f layer_order d
unfolding concept_dependencies concept_declaration
concept_dependencies-layer_order f kind layer_order index order [] d m = elim m [ ]
concept_dependencies-layer_order f kind layer_order index order (x ∷ deps) d (Memᴰ.head e) =
    record {
      layer = ap (λ (d : DependencyDeclaration). d.layer) e;
      at = ap (λ (d : DependencyDeclaration). d.layer_order) e;
      origin = ap (λ (d : DependencyDeclaration). d.origin.name) e;
    }
concept_dependencies-layer_order f kind layer_order index order (x ∷ deps) d (Memᴰ.tail m) =
    concept_dependencies-layer_order f kind layer_order (index + 1) (order + 1) deps d m

pub fragment_declarations-layer_order :
    (f : Fragment) (layer_order order : ℕ) (d : DependencyDeclaration)
    → Memᴰ d (fragment_declarations f layer_order order)
    → IsOf f layer_order d
unfolding fragment_declarations
fragment_declarations-layer_order f layer_order order d m =
    let tools : ℕ = order + length f.manifest.dependencies in
    let peers : ℕ = tools + length f.manifest.tools in
    let ds = concept_dependencies f "dep" layer_order 0 order f.manifest.dependencies in
    let ts = concept_dependencies f "tool" layer_order 0 tools f.manifest.tools in
    let ps = concept_dependencies f "peer" layer_order 0 peers f.manifest.peers in
    elim (Mem-append-cases d (ds ++ ts) ps m) [
      | inr at ↦ concept_dependencies-layer_order f "peer" layer_order 0 peers f.manifest.peers d at
      | inl front ↦ elim (Mem-append-cases d ds ts front) [
        | inl at ↦
            concept_dependencies-layer_order f "dep" layer_order 0 order f.manifest.dependencies d
              at
        | inr at ↦
            concept_dependencies-layer_order f "tool" layer_order 0 tools f.manifest.tools d at
      ]
    ]

pub declarations_from-layer_order :
    (order : ℕ) (fs : List Fragment) (d : DependencyDeclaration)
    → Memᴰ d (declarations_from order fs)
    → (d.layer ≡ "concept") × ((1 ≤ d.layer_order) × (d.layer_order ≤ length fs))
unfolding declarations_from
declarations_from-layer_order order [] d m = elim m [ ]
declarations_from-layer_order order (f ∷ fs) d m =
    let these = fragment_declarations f (length (f ∷ fs)) order in
    elim (Mem-append-cases d these (declarations_from (order + length these) fs) m) [
      | inl at ↦
          let of = fragment_declarations-layer_order f (length (f ∷ fs)) order d at in
          (of.layer, (omega (arith, of.at), omega (arith, of.at)))
      | inr at ↦
          let (layer, bounds) = declarations_from-layer_order (order + length these) fs d at in
          (layer, (bounds.0, omega (arith, bounds.1)))
    ]

-- The layer order of a declaration is at least 1 and at most the number of fragments.
pub dependency_declarations-layer_order :
    (fs : List Fragment) (d : DependencyDeclaration)
    → Memᴰ d (dependency_declarations fs)
    → (1 ≤ d.layer_order) × (d.layer_order ≤ length fs)
unfolding dependency_declarations
dependency_declarations-layer_order fs d m = (declarations_from-layer_order 0 fs d m).1
