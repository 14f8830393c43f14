-- ===== src/Workflow/Validate/Values.antt =====
-- `validateFlowValues` and its helpers in internal/workflow/flow.go.
use Prim.Native.String.{◌++◌ as append}
use tspack.Base.{
  is_among, ℕ, ◌+◌, Bool, true, false, not, ◌&&◌, ◌||◌, Option, none, some, List, [], ◌∷◌, ◌++◌,
  String, Map, str_eq, lookup, put, ltb, if◌then◌else◌,
}
use tspack.Workflow.Flow.{
  ValueRef, Predicate, Predicates, PlanStep, FlowNode, ExecutionRegion, ValueDefinition, Flow,
}
use tspack.Workflow.Snapshot.{is_empty}
use tspack.Workflow.Graph.{flow_node_reaches}
use tspack.Workflow.Validate.{note_if, is_missing, is_match, is_predicate}

abbrev pub Definitions : Type 0
Definitions = Map ValueDefinition

-- The fields of a result by its type.
abbrev fields_of : String → List String
fields_of kind =
    if str_eq kind "build" || str_eq kind "transfer"
    then "artifacts" ∷ "targets" ∷ "diagnostics" ∷ []
    else if str_eq kind "test"
    then "passed" ∷ "failed" ∷ "skipped" ∷ "durationMs" ∷ "tests" ∷ "diagnostics" ∷ []
    else if str_eq kind "audit"
    then "source" ∷ "auditLevel" ∷ "failing" ∷ "report" ∷ "diagnostics" ∷ []
    else []

unfoldable pub valid_projection : String → List String → Bool
valid_projection kind (field ∷ []) = is_among field (fields_of kind)
valid_projection kind _ = false

-- The loop over the values: its diagnostics, and the map that it leaves.
unfoldable pub definitions_notes : Definitions → List ValueDefinition → List String
unfolding valid_projection
definitions_notes definitions [] = []
definitions_notes definitions (value ∷ rest) =
    let later = definitions_notes (put value.ref.identity value definitions) rest in
    let skipped = definitions_notes definitions rest in
    if not (is_missing (lookup value.ref.identity definitions))
    then note_if true "TSPACK_WORKFLOW_VALUE_DUPLICATE"
        (append "value " (append value.ref.identity " is defined more than once"))
      ++ skipped
    else note_if
        (not (str_eq value.ref.source value.ref.identity)
          && not (valid_projection value.ref.result_type value.ref.field_path))
        "TSPACK_WORKFLOW_PROJECTION_INVALID"
        (append value.ref.identity (append " is not a field of " value.ref.result_type))
      ++ later

unfoldable pub add_definitions : Definitions → List ValueDefinition → Definitions
add_definitions definitions [] = definitions
add_definitions definitions (value ∷ rest) =
    add_definitions
      (if is_missing (lookup value.ref.identity definitions)
        then put value.ref.identity value definitions
        else definitions)
      rest

-- `definitions[identity].Producer` and `.Region`, with the zero value on a missing key.
abbrev pub producer_of : Option ValueDefinition → String
producer_of none = ""
producer_of (some d) = d.producer

abbrev region_of : Option ValueDefinition → String
region_of none = ""
region_of (some d) = d.region

abbrev is_transported : Option ValueDefinition → Bool
is_transported none = false
is_transported (some d) = d.transported

-- The search always ends, so `none` is not met.
abbrev was_found : Option Bool → Bool
was_found none = false
was_found (some b) = b

-- `producer != "" && !flowNodeReaches(flow, producer, consumer)`.
abbrev is_unproduced : Flow → String → String → Bool
is_unproduced flow producer consumer =
    not (is_empty producer) && not (was_found (flow_node_reaches flow producer consumer))

abbrev scope_note : Bool → String → String → List String
scope_note failing value consumer =
    note_if failing "TSPACK_WORKFLOW_VALUE_SCOPE_ILLEGAL"
      (append value (append " is not produced on a path reaching " consumer))

abbrev match_note : Flow → FlowNode → Option ValueDefinition → List String
match_note flow node none =
    note_if true "TSPACK_WORKFLOW_VALUE_UNKNOWN"
      (append node.identity (append " matches unknown value " node.source))
match_note flow node (some definition) =
    scope_note (is_unproduced flow definition.producer node.identity) node.source node.identity

abbrev predicate_input_note :
    Flow → Definitions → String → ValueRef → Option ValueDefinition → List String
predicate_input_note flow definitions consumer input none =
    note_if true "TSPACK_WORKFLOW_VALUE_UNKNOWN"
      (append consumer (append " predicate consumes unknown value " input.identity))
predicate_input_note flow definitions consumer input (some definition) =
    scope_note
      (is_unproduced flow (producer_of (lookup definition.ref.source definitions)) consumer)
      input.identity consumer

abbrev predicate_inputs : Flow → Definitions → String → Option ValueRef → List String
predicate_inputs flow definitions consumer none = []
predicate_inputs flow definitions consumer (some input) =
    predicate_input_note flow definitions consumer input (lookup input.identity definitions)

-- `validatePredicateValues`, with its depth, and the loop over the children.
unfoldable mutual
  pub predicate_notes : Flow → Definitions → String → ℕ → Predicate → List String
  predicate_notes flow definitions consumer depth (Predicate.predicate info children) =
      let below = children_notes flow definitions consumer (depth + 1) children in
      if ltb 8 depth
      then note_if true "TSPACK_WORKFLOW_PREDICATE_LIMIT_EXCEEDED"
          (append consumer " predicate exceeds depth limit")
      else predicate_inputs flow definitions consumer info.input ++ below

  pub children_notes : Flow → Definitions → String → ℕ → Predicates → List String
  children_notes flow definitions consumer depth Predicates.none = []
  children_notes flow definitions consumer depth (Predicates.more child rest) =
      predicate_notes flow definitions consumer depth child
      ++ children_notes flow definitions consumer depth rest

abbrev node_predicate_notes : Flow → Definitions → String → Option Predicate → List String
node_predicate_notes flow definitions consumer none = []
node_predicate_notes flow definitions consumer (some p) =
    predicate_notes flow definitions consumer 1 p

abbrev platform_of : List ExecutionRegion → String → String → String
platform_of [] identity found = found
platform_of (region ∷ rest) identity found =
    platform_of rest identity (if str_eq region.identity identity then region.platform else found)

unfoldable pub regions_share_platform : Flow → String → String → Bool
regions_share_platform flow left_identity right_identity =
    let left = platform_of flow.regions left_identity "" in
    let right = platform_of flow.regions right_identity "" in
    not (is_empty left) && str_eq left right

-- Whether the value may not cross from the region of its source.
abbrev is_crossing_illegal : Flow → FlowNode → PlanStep → ValueRef → Option ValueDefinition → Bool
is_crossing_illegal flow node effect input source =
    let is_artifact = str_eq input.category "artifactReference" in
    let transport_available =
      is_transported source
      && is_artifact
      && regions_share_platform flow (region_of source) node.region in
    not (is_empty (region_of source))
    && not (is_empty node.region)
    && not (str_eq (region_of source) node.region)
    && (is_artifact || str_eq input.category "regionLocal")
    && (not (str_eq effect.operation "transfer") || not is_artifact)
    && not transport_available

abbrev input_note :
    Flow → Definitions → FlowNode → PlanStep → ValueRef → Option ValueDefinition → List String
input_note flow definitions node effect input none =
    note_if true "TSPACK_WORKFLOW_VALUE_UNKNOWN"
      (append node.identity (append " consumes unknown value " input.identity))
input_note flow definitions node effect input (some definition) =
    let source = lookup definition.ref.source definitions in
    scope_note (is_unproduced flow (producer_of source) node.identity) input.identity node.identity
    ++ note_if (is_crossing_illegal flow node effect input source)
        "TSPACK_WORKFLOW_VALUE_REGION_ILLEGAL"
        (append input.identity (
          append " cannot cross from " (
            append (region_of source)
              (append " to " (append node.region " without semantic transport")))))

unfoldable pub inputs_notes : Flow → Definitions → FlowNode → PlanStep → List ValueRef → List String
inputs_notes flow definitions node effect [] = []
inputs_notes flow definitions node effect (input ∷ rest) =
    input_note flow definitions node effect input (lookup input.identity definitions)
    ++ inputs_notes flow definitions node effect rest

abbrev effect_notes : Flow → Definitions → FlowNode → Option PlanStep → List String
effect_notes flow definitions node none = []
effect_notes flow definitions node (some effect) =
    inputs_notes flow definitions node effect effect.inputs

-- The loop over the nodes and their inputs.
unfoldable pub uses_notes : Flow → Definitions → List FlowNode → List String
unfolding predicate_notes inputs_notes
uses_notes flow definitions [] = []
uses_notes flow definitions (node ∷ rest) =
    (if is_match node.kind then match_note flow node (lookup node.source definitions) else [])
    ++ (if is_predicate node.kind
        then node_predicate_notes flow definitions node.identity node.predicate
        else [])
    ++ effect_notes flow definitions node node.effect
    ++ uses_notes flow definitions rest
