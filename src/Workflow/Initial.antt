-- ===== src/Workflow/Initial.antt =====
-- `NewSnapshot` of internal/workflow/machine.go, and its limits.
use tspack.Base.{ℕ, ◌+◌, List, [], ◌∷◌, String, Map, put, ◌==◌, if◌then◌else◌}
use tspack.Workflow.Flow.{
  TerminalKind, State, AggregateDefinition, AggregateElement, AggregateValue, FlowNode, Flow,
  NodeSnapshot, Snapshot,
}
use tspack.Workflow.Snapshot.{no_node}

abbrev pub default_step_limit : ℕ
default_step_limit = 10000

abbrev pub default_trace_limit : ℕ
default_trace_limit = 256

-- `if limit <= 0 { limit = … }`, for a limit that is not negative.
abbrev pub or_default : ℕ → ℕ → ℕ
or_default limit value = if limit == 0 then value else limit

initial_elements : ℕ → List String → List AggregateElement
initial_elements index [] = []
initial_elements index (element ∷ rest) =
    record { index = index; value = element; outcome = TerminalKind.unset }
    ∷ initial_elements (index + 1) rest

initial_aggregates_from : List AggregateDefinition → Map AggregateValue → Map AggregateValue
unfolding initial_elements
initial_aggregates_from [] values = values
initial_aggregates_from (definition ∷ rest) values = initial_aggregates_from rest (
    put definition.identity
      (record { identity = definition.identity; elements = initial_elements 0 definition.elements })
      values)

initial_aggregates : Flow → Map AggregateValue
unfolding initial_aggregates_from
initial_aggregates flow = initial_aggregates_from flow.aggregates []

unfoldable pub initial_nodes : List FlowNode → Map NodeSnapshot → Map NodeSnapshot
initial_nodes [] nodes = nodes
initial_nodes (node ∷ rest) nodes =
    initial_nodes rest (put node.identity (record no_node { state = State.pending }) nodes)

unfoldable pub new_snapshot : Flow → ℕ → ℕ → Snapshot
unfolding initial_nodes initial_aggregates
new_snapshot flow step_limit trace_limit = record {
  status = State.pending;
  nodes = initial_nodes flow.nodes [];
  active = [];
  values = [];
  outcomes = [];
  iterators = [];
  aggregates = initial_aggregates flow;
  cleanup_failures = [];
  step_count = 0;
  step_limit = or_default step_limit default_step_limit;
  trace = [];
  trace_limit = or_default trace_limit default_trace_limit;
  dropped_trace = 0;
}
