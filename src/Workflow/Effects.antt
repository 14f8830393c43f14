-- ===== src/Workflow/Effects.antt =====
-- The branches of `Step` in internal/workflow/machine.go that start, finish and cancel effects.
pub mod States
use tspack.Base.{
  ℕ, Bool, true, false, not, ◌&&◌, ◌||◌, Option, none, some, List, [], ◌∷◌, ◌++◌, String, Map,
  str_eq, lookup, put, ◌==◌, if◌then◌else◌,
}
use tspack.Workflow.Flow.{
  MachineEventKind, TerminalKind, State, AggregateDefinition, AggregateElement, AggregateValue,
  PlanStep, FlowNode, Flow, NativeResult, MachineEvent, NodeSnapshot, StepTrace, Snapshot, Result,
  ok, err, ◌>>=◌, not_ready_to_start, state_invalid, effect_unknown, state_unknown, nil_effect,
}
use tspack.Workflow.Snapshot.{
  is_empty, is_live, is_pending, is_waiting, is_running, is_effect, is_terminal, flow_node,
  remove_active, activate_node,
}
use tspack.Workflow.Transitions.{terminal_name, select_transition}

-- The loop over `aggregate.Elements`: the first element of that value takes the outcome.
unfoldable pub record_element :
    String → TerminalKind → List AggregateElement → Option (List AggregateElement)
record_element value outcome [] = none
record_element value outcome (element ∷ rest) =
    if str_eq element.value value
    then some (record element { outcome = outcome } ∷ rest)
    else elim (record_element value outcome rest) [
      | none ↦ none
      | some rest' ↦ some (element ∷ rest')
    ]

abbrev no_aggregate : AggregateValue
no_aggregate = record { identity = ""; elements = [] }

abbrev or_no_aggregate : Option AggregateValue → AggregateValue
or_no_aggregate none = no_aggregate
or_no_aggregate (some a) = a

unfoldable pub record_loop : List AggregateDefinition → Snapshot → String → TerminalKind → Snapshot
unfolding record_element
record_loop [] s value outcome = s
record_loop (definition ∷ rest) s value outcome =
    let aggregate : AggregateValue = or_no_aggregate (lookup definition.identity s.aggregates) in
    elim (record_element value outcome aggregate.elements) [
      | none ↦ record_loop rest s value outcome
      | some elements ↦ record s {
        aggregates =
            put definition.identity (record aggregate { elements = elements }) s.aggregates;
      }
    ]

unfoldable pub record_aggregate_outcome : Flow → Snapshot → String → TerminalKind → Snapshot
unfolding record_loop
record_aggregate_outcome flow s value outcome = record_loop flow.aggregates s value outcome

abbrev state_index : State → ℕ
state_index State.unset = 0
state_index State.pending = 1
state_index State.waiting = 2
state_index State.running = 3
state_index State.succeeded = 4
state_index State.failed = 5
state_index State.timed_out = 6
state_index State.skipped = 7
state_index State.blocked = 8
state_index State.cancelled = 9

abbrev pub state_eq : State → State → Bool
state_eq a b = state_index a == state_index b

abbrev contains_state : List State → State → Bool
contains_state [] state = false
contains_state (candidate ∷ allowed) state =
    if state_eq state candidate then true else contains_state allowed state

abbrev check_allowed :
    FlowNode → String → List State → Option NodeSnapshot → Result (FlowNode × NodeSnapshot)
check_allowed node identity allowed none = err (state_unknown identity)
check_allowed node identity allowed (some state) =
    if contains_state allowed state.state
    then ok (node, state)
    else err (state_invalid identity state.state)

abbrev check_effect :
    Snapshot → String → List State → Option FlowNode → Result (FlowNode × NodeSnapshot)
check_effect s identity allowed none = err (effect_unknown identity)
check_effect s identity allowed (some node) =
    if not (is_effect node.kind)
    then err (effect_unknown identity)
    else check_allowed node identity allowed (lookup identity s.nodes)

unfoldable pub require_effect_state :
    Flow → Snapshot → String → List State → Result (FlowNode × NodeSnapshot)
require_effect_state flow s identity allowed =
    check_effect s identity allowed (flow_node flow identity)

-- `node.Effect.Operation`, which panics on a nil pointer.
abbrev effect_operation : FlowNode → Option PlanStep → Result String
effect_operation node none = err (nil_effect node.identity)
effect_operation node (some effect) = ok effect.operation

-- The three assignments of the inner `switch event.Kind`.
abbrev finished_state : MachineEventKind → State
finished_state MachineEventKind.effect_succeeded = State.succeeded
finished_state MachineEventKind.effect_failed = State.failed
finished_state MachineEventKind.timeout = State.timed_out
finished_state MachineEventKind.cancel_requested = State.cancelled
finished_state _ = State.unset

abbrev pub result_kind : MachineEventKind → TerminalKind
result_kind MachineEventKind.effect_succeeded = TerminalKind.succeeded
result_kind MachineEventKind.effect_failed = TerminalKind.failed
result_kind MachineEventKind.timeout = TerminalKind.timed_out
result_kind MachineEventKind.cancel_requested = TerminalKind.cancelled
result_kind _ = TerminalKind.unset

abbrev is_success : MachineEventKind → Bool
is_success MachineEventKind.effect_succeeded = true
is_success _ = false

abbrev or_result : Option NativeResult → Option NativeResult → Option NativeResult
or_result none old = old
or_result (some r) old = some r

-- What becomes of the snapshot of the node whose effect ended.
abbrev finished_node : MachineEvent → NodeSnapshot → NodeSnapshot
finished_node event n = record {
  state = finished_state event.kind;
  result = or_result event.result n.result;
  error = if is_success event.kind then n.error else event.error;
}

unfoldable pub store_value : Snapshot → FlowNode → Option NativeResult → Snapshot
store_value s node none = s
store_value s node (some result) =
    if is_empty node.value then s else record s { values = put node.value result s.values }

unfoldable pub store_outcome : Flow → Snapshot → FlowNode → MachineEventKind → Snapshot
store_outcome flow s node kind =
    if is_empty node.value
    then s
    else record_aggregate_outcome flow
        (record s { outcomes = put node.value (result_kind kind) s.outcomes }) node.value
        (result_kind kind)

unfoldable pub store_cleanup : Snapshot → FlowNode → MachineEvent → Snapshot
store_cleanup s node event =
    if node.cleanup && not (is_success event.kind)
    then record s {
      cleanup_failures =
          s.cleanup_failures
          ++ record { cause = node.cleanup_cause; node = node.identity; error = event.error } ∷ [];
    }
    else s

-- All that is written before the transition is chosen.
unfoldable pub finish_node : Flow → Snapshot → FlowNode → NodeSnapshot → MachineEvent → Snapshot
unfolding store_value store_outcome store_cleanup
finish_node flow s node n event =
    let stored =
      store_cleanup (store_outcome flow (store_value s node event.result) node event.kind) node
        event in
    remove_active (record stored { nodes = put event.node (finished_node event n) stored.nodes })
      event.node

-- The snapshot and the trace that `Step` builds.
abbrev pub Progress : Type 0
Progress = Snapshot × StepTrace

unfoldable pub start_effect : Flow → MachineEvent → Progress → Result Progress
unfolding require_effect_state
start_effect flow event (s, trace) = do
  found ← require_effect_state flow s event.node (State.running ∷ State.pending ∷ [])
  if not (is_pending found.1.state) then err (not_ready_to_start event.node) else do
    operation ← effect_operation found.0 found.0.effect
    ok (
      record s { nodes = put event.node (record found.1 { state = State.running }) s.nodes },
      record trace { effect = operation },
    )

unfoldable pub finish_effect : Flow → MachineEvent → Progress → Result Progress
unfolding require_effect_state
finish_effect flow event (s, trace) = do
  found ← require_effect_state flow s event.node (State.running ∷ [])
  operation ← effect_operation found.0 found.0.effect
  chosen ← select_transition flow event.node event.kind
  ok (
    activate_node flow (finish_node flow s found.0 found.1 event) chosen.0.to,
    record trace {
      effect = operation;
      result_kind = terminal_name (result_kind event.kind);
      value_identity = if is_empty found.0.value then trace.value_identity else found.0.value;
      eligible_transitions = chosen.1;
      selected_transition = chosen.0.identity;
    },
  )

-- The loop over `next.Nodes` when the whole machine is cancelled.
unfoldable pub cancel_entry : Option FlowNode → NodeSnapshot → NodeSnapshot
cancel_entry none n = n
cancel_entry (some node) n =
    if is_terminal node.kind
    then n
    else if is_live n.state
    then record n { state = State.cancelled }
    else n

unfoldable pub cancel_entries : Flow → Map NodeSnapshot → Map NodeSnapshot
unfolding cancel_entry
cancel_entries flow [] = []
cancel_entries flow ((identity, n) ∷ rest) =
    (identity, cancel_entry (flow_node flow identity) n) ∷ cancel_entries flow rest

unfoldable pub cancel_all : Flow → Snapshot → Snapshot
unfolding cancel_entries
cancel_all flow s =
    activate_node flow (record s { nodes = cancel_entries flow s.nodes; active = [] })
      flow.terminals.cancelled
