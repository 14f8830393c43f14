-- ===== src/Tests/Concepts.antt =====
-- Two concepts that share a target and a dependency, and a third that declares the target anew.
use tspack.Base.{
  get_elem?, ◌≤◌, ◌≡◌, ◌∙◌, subst, sym, ◌↔◌, refl, true, none, some, Option, List, [], ◌∷◌, String,
  Memᴰ, lookup, put, ap, ◌≢◌, eq_iff, arith,
}
use tspack.Base.Text.{decimal}
use tspack.Authoring.Declaration.{source_identity}
use tspack.Concepts.Fragment.{
  TargetContribution, DependencyContribution, ManifestContributions, SlotContribution, Fragment,
  MergedConceptIr, Conflict, Projections,
}
use tspack.Concepts.Declarations.{
  dependency_declarations, declarations_from, fragment_declarations, concept_dependencies,
  concept_declaration, concept_declaration_id,
}
use tspack.Authoring.Tape.{declaration_lt}
use tspack.Concepts.Declarations.Orders.{
  dependency_declarations-order, dependency_declarations-layer_order,
}
use tspack.Concepts.Declarations.Priority.{dependency_declarations-lt}
use tspack.Concepts.Resolve.{
  failed, resolved, resolve_with_registry, missing_expected, list_all, missing_of, any_listed,
  unmet_of, conflict_of, failure_of, first_failure,
}
use tspack.Concepts.Resolve.Checks.{fits}
use tspack.Concepts.Resolve.Stack.{resolve_with_registry_iff}
use tspack.Concepts.Merge.{
  Outcome, conflicting, merged, priority_of, make_conflict, conflict, find_same, add_unique,
  add_uniques, cross_kinds, cross_kind_dependency_conflict, add_dependency, add_deps,
}
use tspack.Concepts.Merge.Whole.{add, priorities, add_all, empty_ir, merge}
use tspack.Concepts.Merge.Unnamed.{
  add_concepts, add_one, add_fields, merge_projections, merge_slots,
}
use tspack.Concepts.Merge.Unions.{has_unique_keys}
use tspack.Concepts.Merge.Parts.{targets, dependencies, key, view, contributed, merged_part}
use tspack.Concepts.Build.{merge_resolved, build_concept_ir, build_concept_ir-contributed}
use tspack.Concepts.Merge.Apart.{are_apart, merge-are_apart}
use tspack.Concepts.Merge.Scalars.{scalar_at, merge-scalar_at}
use tspack.Concepts.Merge.Laws.{
  merge-has_unique_keys, merge-contributed, merge-only, merge-conflicting,
}

abbrev app : String → TargetContribution
app entry = record { name = "app"; export = "."; entry = entry; runtime = "node"; types = "" }

abbrev react : DependencyContribution
react = record {
  name = "react";
  range = "^18";
  source = "npm";
  declared_by = "";
  declaration_order = 0;
}

abbrev manifest_of : List DependencyContribution → List TargetContribution → ManifestContributions
manifest_of ds ts = record {
  workspace = none;
  pkg = none;
  dependencies = ds;
  tools = [];
  peers = [];
  targets = ts;
  run_targets = [];
  env = [];
  services = [];
  update_policy = [];
  security_policy = [];
  pack = none;
  concepts = [];
}

abbrev fragment :
    String → List String → Projections → List SlotContribution → ManifestContributions → Fragment
fragment name requires projections slots manifest = record {
  name = name;
  provides = [];
  requires = requires;
  requires_any_of = [];
  conflicts = [];
  compatible_kinds = [];
  variables = [];
  manifest = manifest;
  files = [];
  projections = projections;
  slots = slots;
  warnings = [];
}

abbrev base : Fragment
base = fragment "base" [] [] [] (manifest_of (react ∷ []) (app "main.ts" ∷ []))

abbrev web : Fragment
web =
    fragment "web" ("base" ∷ []) (("tsconfig", ("jsx", "react") ∷ []) ∷ []) []
      (record (manifest_of (react ∷ []) (app "main.ts" ∷ [])) {
        tools = record react { name = "vite" } ∷ [];
      })

abbrev rival : Fragment
rival = fragment "rival" [] [] [] (manifest_of [] (app "other.ts" ∷ []))

abbrev stack : List Fragment
stack = web ∷ base ∷ []

abbrev or_empty : Outcome MergedConceptIr → MergedConceptIr
unfolding empty_ir dependency_declarations declarations_from
or_empty (conflicting c) = empty_ir []
or_empty (merged ir) = ir

abbrev stack_ir : MergedConceptIr
stack_ir = or_empty (merge stack)

stack-run : (merge stack ≡ merged stack_ir) × (merged_part targets stack_ir ≡ app "main.ts" ∷ [])
unfolding lookup put decimal source_identity dependency_declarations declarations_from
    fragment_declarations concept_dependencies concept_declaration concept_declaration_id
    priority_of make_conflict conflict find_same add_unique add_uniques cross_kinds
    cross_kind_dependency_conflict add_dependency add_deps add_concepts add_one add_fields
    merge_projections merge_slots add priorities add_all empty_ir merge
stack-run = (refl, refl)

merge-has_unique_keys_example :
    has_unique_keys (key dependencies) (merged_part dependencies stack_ir) ≡ true
merge-has_unique_keys_example = merge-has_unique_keys stack stack_ir dependencies stack-run.0

merge-contributed_example :
    (b : DependencyContribution) × Memᴰ b (merged_part dependencies stack_ir)
    × (view dependencies b ≡ view dependencies react)
merge-contributed_example =
    merge-contributed stack stack_ir dependencies base react stack-run.0
      (Memᴰ.tail (Memᴰ.head refl)) (Memᴰ.head refl)

at_target : Memᴰ (app "main.ts") (merged_part targets stack_ir)
at_target = subst (Memᴰ (app "main.ts")) (sym stack-run.1) (Memᴰ.head refl)

merge-only_example :
    (f : Fragment) × Memᴰ f stack
    × ((a : TargetContribution) × Memᴰ a (contributed targets f) × (app "main.ts" ≡ a))
merge-only_example = merge-only stack stack_ir targets (app "main.ts") stack-run.0 at_target

rivals-differ : app "main.ts" ≢ app "other.ts"
rivals-differ e =
    let same = (eq_iff "main.ts" "other.ts").1 (ap (λ (t : TargetContribution). t.entry) e) in
    ground arith

merge-conflicting_example : (c : Conflict) × (merge (base ∷ rival ∷ []) ≡ conflicting c)
merge-conflicting_example =
    merge-conflicting (base ∷ rival ∷ []) targets base rival (app "main.ts") (app "other.ts")
      (Memᴰ.head refl) (Memᴰ.tail (Memᴰ.head refl)) (Memᴰ.head refl) (Memᴰ.head refl) refl
      rivals-differ

abbrev find : String → Option Fragment
find name = lookup name (("base", base) ∷ ("web", web) ∷ [])

resolve_with_registry_iff_example :
    ((fs : List Fragment) × (resolve_with_registry find ("web" ∷ "base" ∷ []) "" ≡ resolved fs)) ↔ (
      (x : String)
      → Memᴰ x ("web" ∷ "base" ∷ [])
      → (f : Fragment) × (find x ≡ some f) × (fits ("web" ∷ "base" ∷ []) "" f ≡ true))
resolve_with_registry_iff_example = resolve_with_registry_iff find ("web" ∷ "base" ∷ []) ""

web-resolved : resolve_with_registry find ("web" ∷ "base" ∷ []) "" ≡ resolved stack
unfolding lookup list_all missing_of any_listed unmet_of conflict_of failure_of first_failure
    resolve_with_registry
web-resolved = refl

web-failed : resolve_with_registry find ("web" ∷ []) "" ≡ failed (missing_expected "web" "base")
unfolding lookup list_all missing_of any_listed unmet_of conflict_of failure_of first_failure
    resolve_with_registry
web-failed = refl

web-found : find "web" ≡ some web
unfolding lookup
web-found = refl

stack-built : build_concept_ir find ("web" ∷ "base" ∷ []) "" ≡ resolved (merged stack_ir)
unfolding build_concept_ir
stack-built = ap (merge_resolved) web-resolved ∙ ap resolved stack-run.0

build_concept_ir-contributed_example :
    (b : TargetContribution) × Memᴰ b (merged_part targets stack_ir) × (b ≡ app "main.ts")
build_concept_ir-contributed_example =
    build_concept_ir-contributed find ("web" ∷ "base" ∷ []) "" "web" stack_ir web targets
      (app "main.ts") stack-built (Memᴰ.head refl) web-found (Memᴰ.head refl)

merge-are_apart_example :
    (are_apart stack_ir.manifest.dependencies stack_ir.manifest.tools ≡ true)
    × ((are_apart stack_ir.manifest.dependencies stack_ir.manifest.peers ≡ true)
        × (are_apart stack_ir.manifest.tools stack_ir.manifest.peers ≡ true))
merge-are_apart_example = merge-are_apart stack stack_ir stack-run.0

abbrev vite : DependencyContribution
vite = record react { name = "vite" }

vite-declared :
    get_elem? (dependency_declarations stack) 1 ≡ some (concept_declaration web "tool" 2 vite 0 1)
unfolding dependency_declarations declarations_from fragment_declarations concept_dependencies
vite-declared = refl

dependency_declarations-order_example : (concept_declaration web "tool" 2 vite 0 1).order ≡ 1
dependency_declarations-order_example =
    dependency_declarations-order stack 1 (concept_declaration web "tool" 2 vite 0 1) vite-declared

vite-Mem : Memᴰ (concept_declaration web "tool" 2 vite 0 1) (dependency_declarations stack)
unfolding dependency_declarations declarations_from fragment_declarations concept_dependencies
vite-Mem = Memᴰ.tail (Memᴰ.head refl)

dependency_declarations-layer_order_example :
    (1 ≤ (concept_declaration web "tool" 2 vite 0 1).layer_order)
    × ((concept_declaration web "tool" 2 vite 0 1).layer_order ≤ 2)
dependency_declarations-layer_order_example =
    dependency_declarations-layer_order stack (concept_declaration web "tool" 2 vite 0 1) vite-Mem

base-declared :
    get_elem? (dependency_declarations stack) 2 ≡ some (concept_declaration base "dep" 1 react 0 2)
unfolding dependency_declarations declarations_from fragment_declarations concept_dependencies
base-declared = refl

names-differ : web.name ≢ base.name
names-differ e = let same = (eq_iff "web" "base").1 e in ground arith

-- The declaration of `web` stands first, and that of `base` is less on the tape.
dependency_declarations-lt_example :
    declaration_lt
      (concept_declaration base "dep" 1 react 0 2)
      (concept_declaration web "tool" 2 vite 0 1)
    ≡ true
unfolding concept_declaration
dependency_declarations-lt_example =
    dependency_declarations-lt stack 1 2 (concept_declaration web "tool" 2 vite 0 1)
      (concept_declaration base "dep" 1 react 0 2) vite-declared base-declared (omega arith)
      names-differ

merge-scalar_at_example : scalar_at stack_ir.projections "tsconfig" "jsx" ≡ some "react"
merge-scalar_at_example =
    merge-scalar_at stack stack_ir web "tsconfig" "jsx" "react" (("jsx", "react") ∷ []) stack-run.0
      (Memᴰ.head refl) (Memᴰ.head refl) (Memᴰ.head refl)
