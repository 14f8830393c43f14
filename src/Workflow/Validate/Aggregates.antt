-- ===== src/Workflow/Validate/Aggregates.antt =====
-- The second half of `validateFlowValues` in internal/workflow/flow.go: aggregates, and the nodes
-- that read them.
use Prim.Native.String.{◌++◌ as append}
use tspack.Base.{
  ltb_ℤ, is_number, bool_eq, ◌==◌, ℤ, pos, negsuc, Bool, true, false, not, ◌&&◌, ◌||◌, Option, none,
  some, List, [], ◌∷◌, ◌++◌, String, Map, str_eq, lookup, put, length, get_elem?, ltb,
  if◌then◌else◌,
}
use tspack.Workflow.Flow.{
  ValueRef, IteratorCursor, AggregateDefinition, AggregateElementProjection, FlowNode, Flow,
}
use tspack.Workflow.Snapshot.{is_empty}
use tspack.Workflow.Validate.{note_if, is_missing}
use tspack.Workflow.Validate.Values.{
  Definitions, definitions_notes, add_definitions, producer_of, uses_notes,
}

unfoldable pub elements_notes : Definitions → String → List String → List String
elements_notes definitions aggregate [] = []
elements_notes definitions aggregate (element ∷ rest) =
    note_if (is_empty (producer_of (lookup element definitions)))
      "TSPACK_WORKFLOW_AGGREGATE_ELEMENT_UNKNOWN"
      (append aggregate (append " references unknown element " element))
    ++ elements_notes definitions aggregate rest

-- The body of the loop over the aggregates, with those before.
unfoldable pub aggregate_notes :
    Definitions → Map AggregateDefinition → AggregateDefinition → List String
unfolding elements_notes
aggregate_notes definitions before a =
    note_if (not (is_missing (lookup a.identity before))) "TSPACK_WORKFLOW_AGGREGATE_DUPLICATE"
      (append "aggregate " (append a.identity " is defined more than once"))
    ++ note_if (is_empty a.identity || length a.elements == 0 || ltb 256 (length a.elements))
        "TSPACK_WORKFLOW_AGGREGATE_INVALID"
        "aggregate requires deterministic identity and bounded elements"
    ++ note_if (not (str_eq a.mode "sequential") && not (str_eq a.mode "parallel"))
        "TSPACK_WORKFLOW_FOREACH_MODE_INVALID"
        (append a.identity (append " has invalid mode " a.mode))
    ++ note_if
        (ltb_ℤ a.concurrency (pos 1)
          || ltb_ℤ (pos 32) a.concurrency
          || (str_eq a.mode "sequential" && not (is_number a.concurrency 1)))
        "TSPACK_WORKFLOW_FOREACH_CONCURRENCY_INVALID" (append a.identity " has invalid concurrency")
    ++ note_if
        (not (str_eq a.failure_policy "failFast") && not (str_eq a.failure_policy "collectAll"))
        "TSPACK_WORKFLOW_FOREACH_FAILURE_POLICY_INVALID"
        (append a.identity " has invalid failure policy")
    ++ note_if (not (bool_eq a.complete (str_eq a.failure_policy "collectAll")))
        "TSPACK_WORKFLOW_AGGREGATE_COMPLETENESS_INVALID"
        (append a.identity " completeness does not match its failure policy")
    ++ elements_notes definitions a.identity a.elements

unfoldable pub aggregates_notes :
    Definitions → Map AggregateDefinition → List AggregateDefinition → List String
unfolding aggregate_notes
aggregates_notes definitions before [] = []
aggregates_notes definitions before (a ∷ rest) =
    aggregate_notes definitions before a
    ++ aggregates_notes definitions (put a.identity a before) rest

unfoldable pub add_aggregates :
    Map AggregateDefinition → List AggregateDefinition → Map AggregateDefinition
add_aggregates before [] = before
add_aggregates before (a ∷ rest) = add_aggregates (put a.identity a before) rest

-- `aggregate.Elements[index]`, where the index is in range.
abbrev pub element_at : List String → ℤ → Option String
element_at elements (pos i) = get_elem? elements i
element_at elements (negsuc i) = none

-- The element of a complete aggregate.
abbrev pub complete_element : Option AggregateDefinition → ℤ → Option String
complete_element none index = none
complete_element (some a) index = if a.complete then element_at a.elements index else none

abbrev projection_note : FlowNode → AggregateElementProjection → Option String → List String
projection_note node p none =
    note_if true "TSPACK_WORKFLOW_AGGREGATE_PROJECTION_INVALID"
      (append node.identity " has an unknown, incomplete, or out-of-range aggregate projection")
projection_note node p (some element) =
    note_if (not (str_eq element p.value) || not (str_eq p.value node.source))
      "TSPACK_WORKFLOW_AGGREGATE_PROJECTION_IDENTITY_INVALID"
      (append node.identity " projection does not preserve the aggregate element identity")

abbrev projection_notes :
    Map AggregateDefinition → FlowNode → Option AggregateElementProjection → List String
projection_notes aggregates node none = []
projection_notes aggregates node (some p) =
    projection_note node p (complete_element (lookup p.aggregate aggregates) p.index)

abbrev or_index : ℤ → Option ℤ → ℤ
or_index i none = i
or_index i (some index) = index

-- The index of the cursor, or that of the reference it iterates over.
abbrev iteration_index : IteratorCursor → Option ValueRef → ℤ
iteration_index cursor none = cursor.index
iteration_index cursor (some ref) = or_index cursor.index ref.index

abbrev is_element : Option String → String → Bool
is_element none identity = false
is_element (some element) identity = str_eq element identity

abbrev cursor_notes : Map AggregateDefinition → FlowNode → Option IteratorCursor → List String
cursor_notes aggregates node none = []
cursor_notes aggregates node (some cursor) =
    note_if
      (not (is_empty cursor.source_aggregate)
        && not (
            is_element
              (complete_element (lookup cursor.source_aggregate aggregates)
                (iteration_index cursor cursor.value.source))
              cursor.element_identity))
      "TSPACK_WORKFLOW_AGGREGATE_ITERATION_SOURCE_INVALID"
      (append node.identity " does not consume a bounded complete aggregate element")

-- The last loop over the nodes.
unfoldable pub readers_notes : Map AggregateDefinition → List FlowNode → List String
readers_notes aggregates [] = []
readers_notes aggregates (node ∷ rest) =
    projection_notes aggregates node node.projection
    ++ cursor_notes aggregates node node.iterator
    ++ readers_notes aggregates rest

-- `validateFlowValues`.
unfoldable pub values_notes : Flow → List String
unfolding definitions_notes add_definitions uses_notes aggregates_notes add_aggregates readers_notes
values_notes flow =
    let definitions = add_definitions [] flow.values in
    definitions_notes [] flow.values
    ++ uses_notes flow definitions flow.nodes
    ++ aggregates_notes definitions [] flow.aggregates
    ++ readers_notes (add_aggregates [] flow.aggregates) flow.nodes
