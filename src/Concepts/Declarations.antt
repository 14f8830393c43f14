-- ===== src/Concepts/Declarations.antt =====
-- internal/concepts/authoring.go, which lowers fragments to declarations of the authoring tape.
pub mod Orders
pub mod Priority
use Prim.Native.String.{◌++◌ as append}
use tspack.Base.{ℕ, ◌+◌, false, none, List, [], ◌∷◌, ◌++◌, String, length}
use tspack.Base.Text.{decimal}
use tspack.Authoring.Declaration.{PackageSource, DependencyDeclaration, source_identity, or_else}
use tspack.Concepts.Fragment.{DependencyContribution, Fragment}

unfoldable pub concept_declaration_id : String → String → String → ℕ → String
concept_declaration_id concept kind name index =
    append concept
      (append ":" (append kind (append ":" (append name (append ":" (decimal index))))))

abbrev package_source : DependencyContribution → PackageSource
package_source d = record {
  kind = or_else d.source "npm";
  package_name = d.name;
  range = d.range;
  ref = "";
  repo = "";
  tag = "";
  rev = "";
  branch = "";
  path = "";
  name = "";
}

-- The declaration of a dependency, at its index in the fragment and its place in the order.
unfoldable pub concept_declaration :
    Fragment → String → ℕ → DependencyContribution → ℕ → ℕ → DependencyDeclaration
unfolding concept_declaration_id source_identity
concept_declaration fragment kind layer_order dependency index order =
    let source : PackageSource = package_source dependency in
    record {
      id = concept_declaration_id fragment.name kind dependency.name index;
      key = "";
      identity = source_identity source;
      source = source;
      constraint = dependency.range;
      kind = kind;
      optional = false;
      origin = record { kind = "concept"; name = fragment.name; source_path = ""; ref = "" };
      layer = "concept";
      layer_order = layer_order;
      order = order;
      authority = "generated";
      editability = "concept-owned";
      patch = none;
    }

-- The loop of `appendConceptDependencies`, with what it appends. The order goes up by one for
-- each.
unfoldable pub concept_dependencies :
    Fragment → String → ℕ → ℕ → ℕ → List DependencyContribution → List DependencyDeclaration
unfolding concept_declaration
concept_dependencies fragment kind layer_order index order [] = []
concept_dependencies fragment kind layer_order index order (dependency ∷ rest) =
    concept_declaration fragment kind layer_order dependency index order
    ∷ concept_dependencies fragment kind layer_order (index + 1) (order + 1) rest

-- The body of the loop over the fragments.
unfoldable pub fragment_declarations : Fragment → ℕ → ℕ → List DependencyDeclaration
unfolding concept_dependencies
fragment_declarations fragment layer_order order =
    let manifest = fragment.manifest in
    let tools : ℕ = order + length manifest.dependencies in
    let peers : ℕ = tools + length manifest.tools in
    concept_dependencies fragment "dep" layer_order 0 order manifest.dependencies
    ++ concept_dependencies fragment "tool" layer_order 0 tools manifest.tools
    ++ concept_dependencies fragment "peer" layer_order 0 peers manifest.peers

unfoldable pub declarations_from : ℕ → List Fragment → List DependencyDeclaration
unfolding fragment_declarations
declarations_from order [] = []
declarations_from order (fragment ∷ rest) =
    let these = fragment_declarations fragment (length (fragment ∷ rest)) order in
    these ++ declarations_from (order + length these) rest

unfoldable pub dependency_declarations : List Fragment → List DependencyDeclaration
unfolding declarations_from
dependency_declarations fragments = declarations_from 0 fragments
