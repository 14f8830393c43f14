-- ===== src/Workflow/Validate.antt =====
-- `ValidateFlow` of internal/workflow/flow.go. A loop that collects diagnostics is a list of them,
-- and a set of strings is the list of its members. Numbers that may be negative are integers.
pub mod Values
pub mod Aggregates
pub mod Whole
pub mod Keys
pub mod Parts
pub mod Cases
pub mod Sound
use Prim.Native.Char.{nul}
use Prim.Native.String.{◌++◌ as append}
use tspack.Base.{
  ltb_ℤ, is_among, ℕ, suc, ℤ, pos, negsuc, is_number, is_negative, Bool, true, false, not, ◌&&◌,
  ◌||◌, Option, none, some, List, [], ◌∷◌, ◌++◌, map, String, Map, str_eq, lookup, put, length, ltb,
  if◌then◌else◌,
}
use tspack.Base.Text.{join_nul, sort_strings}
use tspack.Workflow.Flow.{
  NodeKind, MachineEventKind, ExecutionRegion, FlowNode, Transition, Flow, ExpansionMetadata,
}
use tspack.Workflow.Snapshot.{is_empty, is_effect, is_terminal}
use tspack.Workflow.Graph.{is_join, Adjacency, Visits, adjacency_of, mark_reachable, visit}

-- `add(code, message)`, under a test.
abbrev pub note_if : Bool → String → String → List String
note_if failing code message = if failing then append code (append ": " message) ∷ [] else []

abbrev pub is_missing {ℓ} : {A : Type ℓ} → Option A → Bool
is_missing none = true
is_missing (some a) = false

abbrev pub is_match : NodeKind → Bool
is_match NodeKind.match = true
is_match _ = false

abbrev pub is_predicate : NodeKind → Bool
is_predicate NodeKind.predicate = true
is_predicate _ = false

-- Whether the transitions of a node differ by their guards.
abbrev pub is_guarded : NodeKind → Bool
is_guarded kind = is_match kind || is_predicate kind

-- `string(event)`.
abbrev pub event_name : MachineEventKind → String
event_name MachineEventKind.start = "start"
event_name MachineEventKind.continue = "continue"
event_name MachineEventKind.effect_started = "effectStarted"
event_name MachineEventKind.effect_succeeded = "effectSucceeded"
event_name MachineEventKind.effect_failed = "effectFailed"
event_name MachineEventKind.cancel_requested = "cancelRequested"
event_name MachineEventKind.timeout = "timeout"

abbrev is_expansion_invalid : ExpansionMetadata → Bool
is_expansion_invalid e =
    not (is_number e.limit 4096)
    || is_negative e.planned_iterations
    || ltb_ℤ e.limit e.planned_iterations

unfoldable pub header_notes : Flow → List String
header_notes flow =
    note_if (not (is_number flow.schema_version 4)) "TSPACK_WORKFLOW_SCHEMA_UNSUPPORTED"
      "schemaVersion must be 4"
    ++ note_if (is_expansion_invalid flow.expansion) "TSPACK_WORKFLOW_EXPANSION_INVALID"
        "expansion metadata must use the bounded workflow limit"
    ++ note_if (not (is_number flow.expansion.max_concurrency 32))
        "TSPACK_WORKFLOW_CONCURRENCY_CEILING_INVALID"
        "expansion metadata must expose the workflow concurrency ceiling"

abbrev pub Nodes : Type 0
Nodes = Map FlowNode

abbrev lacks_elements {ℓ} : {A : Type ℓ} → List A → Bool
lacks_elements [] = true
lacks_elements (x ∷ xs) = false

-- The body of the first loop over the nodes.
unfoldable pub node_notes : Nodes → FlowNode → List String
node_notes nodes node =
    note_if (is_empty node.identity) "TSPACK_WORKFLOW_NODE_IDENTITY_INVALID"
      "node identity must not be empty"
    ++ note_if (not (is_missing (lookup node.identity nodes)))
        "TSPACK_WORKFLOW_NODE_IDENTITY_DUPLICATE" (append "duplicate node " node.identity)
    ++ note_if (is_effect node.kind && is_missing node.effect) "TSPACK_WORKFLOW_EFFECT_REQUIRED"
        (append node.identity " has no effect")
    ++ note_if (is_join node.kind && lacks_elements node.wait_for) "TSPACK_WORKFLOW_JOIN_INVALID"
        (append node.identity " has no branches to join")
    ++ note_if (is_predicate node.kind && is_missing node.predicate)
        "TSPACK_WORKFLOW_PREDICATE_INVALID" (append node.identity " has no predicate")

-- That loop: its diagnostics, and the map that it leaves.
unfoldable pub nodes_notes : Nodes → List FlowNode → List String
unfolding node_notes
nodes_notes nodes [] = []
nodes_notes nodes (node ∷ rest) =
    node_notes nodes node ++ nodes_notes (put node.identity node nodes) rest

unfoldable pub add_known : Nodes → List FlowNode → Nodes
add_known nodes [] = nodes
add_known nodes (node ∷ rest) = add_known (put node.identity node nodes) rest

unfoldable pub known_nodes : Flow → Nodes
unfolding add_known
known_nodes flow = add_known [] flow.nodes

unfoldable pub regions_notes : List String → List ExecutionRegion → List String
regions_notes seen [] = []
regions_notes seen (region ∷ rest) =
    note_if (is_among region.identity seen) "TSPACK_WORKFLOW_REGION_DUPLICATE"
      (append "duplicate region " region.identity)
    ++ regions_notes (region.identity ∷ seen) rest

abbrev pub is_guarded_node : Option FlowNode → Bool
is_guarded_node none = false
is_guarded_node (some node) = is_guarded node.kind

-- `caseKey`.
unfoldable pub case_key : Nodes → Transition → String
case_key nodes t =
    let key : String = join_nul t.from (event_name t.event) in
    if is_guarded_node (lookup t.from nodes) then join_nul key t.guard else key

-- The body of the loop over the transitions, with the keys and the cases before.
unfoldable pub transition_notes : Nodes → List String → List String → Transition → List String
unfolding case_key
transition_notes nodes keys cases t =
    note_if (is_among t.identity keys) "TSPACK_WORKFLOW_TRANSITION_DUPLICATE"
      (append "duplicate transition " t.identity)
    ++ note_if (is_missing (lookup t.from nodes)) "TSPACK_WORKFLOW_TRANSITION_SOURCE_UNKNOWN"
        (append t.identity (append " has unknown source " t.from))
    ++ note_if (is_missing (lookup t.to nodes)) "TSPACK_WORKFLOW_TRANSITION_TARGET_UNKNOWN"
        (append t.identity (append " has unknown target " t.to))
    ++ note_if (is_among (case_key nodes t) cases) "TSPACK_WORKFLOW_TRANSITION_AMBIGUOUS"
        (append t.from (append " handles " (append (event_name t.event) " more than once")))

unfoldable pub transitions_notes : Nodes → List String → List String → List Transition → List String
unfolding transition_notes
transitions_notes nodes keys cases [] = []
transitions_notes nodes keys cases (t ∷ rest) =
    transition_notes nodes keys cases t
    ++ transitions_notes nodes (t.identity ∷ keys) (case_key nodes t ∷ cases) rest

-- The cases behind that loop.
unfoldable pub transition_cases : Nodes → List Transition → List String
transition_cases nodes ts = map (case_key nodes) ts

unfoldable pub references_notes : Nodes → String → List String → List String
references_notes nodes identity [] = []
references_notes nodes identity (reference ∷ rest) =
    note_if (is_missing (lookup reference nodes)) "TSPACK_WORKFLOW_NODE_REFERENCE_UNKNOWN"
      (append identity (append " references unknown node " reference))
    ++ references_notes nodes identity rest

unfoldable pub results_notes : List String → String → List MachineEventKind → List String
results_notes cases identity [] = []
results_notes cases identity (event ∷ rest) =
    note_if (not (is_among (join_nul identity (event_name event)) cases))
      "TSPACK_WORKFLOW_RESULT_UNHANDLED"
      (append identity (append " does not handle " (event_name event)))
    ++ results_notes cases identity rest

unfoldable pub outcomes_notes : List String → String → String → List String → List String
outcomes_notes cases code identity [] = []
outcomes_notes cases code identity (outcome ∷ rest) =
    note_if
      (not (
        is_among (join_nul (join_nul identity (event_name MachineEventKind.continue)) outcome)
          cases))
      code (append identity (append " does not handle " outcome))
    ++ outcomes_notes cases code identity rest

abbrev pub result_events : List MachineEventKind
result_events =
    MachineEventKind.effect_succeeded ∷ MachineEventKind.effect_failed
    ∷ MachineEventKind.cancel_requested ∷ MachineEventKind.timeout ∷ []

abbrev pub match_outcomes : List String
match_outcomes = "succeeded" ∷ "failed" ∷ "cancelled" ∷ "timedOut" ∷ []

abbrev pub predicate_outcomes : List String
predicate_outcomes = "true" ∷ "false" ∷ []

-- The body of the second loop over the nodes.
unfoldable pub handling_notes : Nodes → List String → List String → FlowNode → List String
unfolding references_notes results_notes outcomes_notes
handling_notes nodes regions cases node =
    note_if (not (is_empty node.region) && not (is_among node.region regions))
      "TSPACK_WORKFLOW_REGION_UNKNOWN"
      (append node.identity (append " selects unknown region " node.region))
    ++ references_notes nodes node.identity (node.targets ++ node.wait_for)
    ++ (if is_effect node.kind then results_notes cases node.identity result_events else [])
    ++ (if is_match node.kind
        then outcomes_notes cases "TSPACK_WORKFLOW_MATCH_NON_EXHAUSTIVE" node.identity
            match_outcomes
        else [])
    ++ (if is_predicate node.kind
        then outcomes_notes cases "TSPACK_WORKFLOW_PREDICATE_NON_EXHAUSTIVE" node.identity
            predicate_outcomes
        else [])

unfoldable pub handlings_notes : Nodes → List String → List String → List FlowNode → List String
unfolding handling_notes
handlings_notes nodes regions cases [] = []
handlings_notes nodes regions cases (node ∷ rest) =
    handling_notes nodes regions cases node ++ handlings_notes nodes regions cases rest
