-- ===== src/Workflow/Validate/Whole.antt =====
-- `ValidateFlow` of internal/workflow/flow.go as a whole, with its walks over the graph.
use tspack.Base.{
  is_among, suc, Bool, true, not, ◌&&◌, Option, none, some, List, [], ◌∷◌, ◌++◌, map, String,
  lookup, length,
}
use Prim.Native.String.{◌++◌ as append}
use tspack.Base.Text.{sort_strings}
use tspack.Workflow.Flow.{ExecutionRegion, FlowNode, Flow}
use tspack.Workflow.Snapshot.{is_terminal}
use tspack.Workflow.Graph.{Adjacency, Visits, adjacency_of, mark_reachable, visit}
use tspack.Workflow.Validate.{
  note_if, is_missing, header_notes, nodes_notes, known_nodes, regions_notes, transitions_notes,
  transition_cases, handlings_notes,
}
use tspack.Workflow.Validate.Aggregates.{values_notes}

unfoldable pub unreached_notes : List String → List FlowNode → List String
unreached_notes reachable [] = []
unreached_notes reachable (node ∷ rest) =
    note_if
      (not (is_among node.identity reachable) && not (is_terminal node.kind) && not node.cleanup)
      "TSPACK_WORKFLOW_NODE_UNREACHABLE" (append node.identity " cannot be reached from entry")
    ++ unreached_notes reachable rest

-- The set that `markReachable` fills; the depth suffices.
abbrev pub marked_or_none : Option (List String) → List String
marked_or_none none = []
marked_or_none (some reachable) = reachable

unfoldable pub reachable_from : Adjacency → String → List String
unfolding mark_reachable
reachable_from adjacency entry =
    marked_or_none (mark_reachable (suc (length adjacency)) adjacency entry [])

abbrev pub found_cycle : Option (Bool × Visits) → Bool
found_cycle none = true
found_cycle (some (found, visits)) = found

unfoldable pub cycle_notes : Adjacency → String → List String
unfolding visit
cycle_notes adjacency entry =
    note_if (found_cycle (visit (suc (length adjacency)) adjacency entry []))
      "TSPACK_WORKFLOW_CYCLE_UNBOUNDED"
      "runtime cycles are not supported until an explicit bounded loop construct exists"

abbrev pub region_names : Flow → List String
region_names flow = map (λ (region : ExecutionRegion). region.identity) flow.regions

-- The diagnostics in the order in which they are found.
unfoldable pub flow_notes : Flow → List String
unfolding header_notes nodes_notes known_nodes regions_notes transitions_notes transition_cases
    handlings_notes values_notes unreached_notes reachable_from cycle_notes adjacency_of
flow_notes flow =
    let nodes = known_nodes flow in
    let adjacency = adjacency_of flow in
    header_notes flow
    ++ (nodes_notes [] flow.nodes
        ++ (note_if (is_missing (lookup flow.entry nodes)) "TSPACK_WORKFLOW_ENTRY_UNKNOWN"
              "entry node does not exist"
            ++ (regions_notes [] flow.regions
                ++ (transitions_notes nodes [] [] flow.transitions
                    ++ (handlings_notes nodes (region_names flow)
                          (transition_cases nodes flow.transitions) flow.nodes
                        ++ (values_notes flow
                            ++ (unreached_notes (reachable_from adjacency flow.entry) flow.nodes
                                ++ cycle_notes adjacency flow.entry)))))))

unfoldable pub validate_flow : Flow → List String
unfolding sort_strings flow_notes
validate_flow flow = sort_strings (flow_notes flow)
