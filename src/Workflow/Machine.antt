-- ===== src/Workflow/Machine.antt =====
-- `Step` of internal/workflow/machine.go.
pub mod States
pub mod Books
pub mod Bounds
use tspack.Base.{
  ℕ, ◌+◌, Bool, true, false, not, ◌&&◌, ◌||◌, Option, none, some, List, [], ◌∷◌, ◌++◌, String, Map,
  str_eq, lookup, put, length, leb, ◌==◌, if◌then◌else◌,
}
use tspack.Workflow.Flow.{
  MachineEventKind, TerminalKind, State, AggregateDefinition, AggregateElement, AggregateValue,
  PlanStep, FlowNode, Flow, NativeResult, MachineEvent, NodeSnapshot, StepTrace, Snapshot, Result,
  ok, err, ◌>>=◌, step_limit_exceeded, start_requires_pending, not_ready_to_start, state_invalid,
  unsupported_event, effect_unknown, state_unknown, nil_effect,
}
use tspack.Workflow.Snapshot.{
  is_empty, is_pending, is_waiting, is_running, is_effect, is_terminal, no_node, flow_node,
  remove_active, activate_node,
}
use tspack.Workflow.Transitions.{terminal_name, select_transition}
use tspack.Workflow.Initial.{default_step_limit, default_trace_limit, or_default}
use tspack.Workflow.Effects.{Progress, start_effect, finish_effect, cancel_all}
use tspack.Workflow.Settle.{settle_control}

abbrev pub drop_first : List StepTrace → List StepTrace
drop_first [] = []
drop_first (_ ∷ rest) = rest

-- The full trace drops its oldest entry.
unfoldable pub append_trace : Snapshot → StepTrace → Snapshot
append_trace s trace =
    if length s.trace == s.trace_limit
    then record s { trace = drop_first s.trace ++ trace ∷ []; dropped_trace = s.dropped_trace + 1 }
    else record s { trace = s.trace ++ trace ∷ [] }

unfoldable pub start_machine : Flow → Progress → Result Progress
start_machine flow (s, trace) =
    if not (is_pending s.status)
    then err start_requires_pending
    else ok (activate_node flow (record s { status = State.running }) flow.entry, trace)

-- The outer `switch event.Kind`.
unfoldable pub handle_event : Flow → MachineEvent → MachineEventKind → Progress → Result Progress
handle_event flow event MachineEventKind.start p = start_machine flow p
handle_event flow event MachineEventKind.effect_started p = start_effect flow event p
handle_event flow event MachineEventKind.effect_succeeded p = finish_effect flow event p
handle_event flow event MachineEventKind.effect_failed p = finish_effect flow event p
handle_event flow event MachineEventKind.timeout p = finish_effect flow event p
handle_event flow event MachineEventKind.cancel_requested p =
    if is_empty event.node then ok (cancel_all flow p.0, p.1) else finish_effect flow event p
handle_event flow event MachineEventKind.continue p =
    err (unsupported_event MachineEventKind.continue)

unfoldable pub with_limits : Snapshot → Snapshot
with_limits s = record s {
  step_limit = or_default s.step_limit default_step_limit;
  trace_limit = or_default s.trace_limit default_trace_limit;
}

abbrev pub first_trace : Snapshot → MachineEvent → StepTrace
first_trace s event = record {
  step = s.step_count + 1;
  state_before = s.active;
  event = event;
  eligible_transitions = [];
  selected_transition = "";
  effect = "";
  result_kind = "";
  value_identity = "";
  state_after = [];
}

-- `Step` behind its defaults and up to its results: `ok (next, trace)`, or the error that it
-- returns beside `current`.
unfoldable pub advance : Flow → Snapshot → MachineEvent → Result Progress
advance flow s event =
    if leb s.step_limit s.step_count then err (step_limit_exceeded s.step_limit) else (do
      handled ←
          handle_event flow event event.kind
            (record s { step_count = s.step_count + 1 }, first_trace s event)
      next ← settle_control flow handled.0
      let trace = record handled.1 { state_after = next.active }
      ok (append_trace next trace, trace))

abbrev stepped : Snapshot → Result Progress → Snapshot × Result StepTrace
stepped current (ok (next, trace)) = (next, ok trace)
stepped current (err e) = (current, err e)

unfoldable pub step : Flow → Snapshot → MachineEvent → Snapshot × Result StepTrace
unfolding advance with_limits
step flow current event = stepped (with_limits current) (advance flow (with_limits current) event)
