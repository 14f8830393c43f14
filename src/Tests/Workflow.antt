-- ===== src/Tests/Workflow.antt =====
-- A workflow with two parallel effects behind a fork, joined before the terminal.
use tspack.Base.{
  pos, ◌+◌, keep, ◌⊎◌, ◌≡◌, refl, true, false, none, some, List, [], ◌∷◌, String, lookup, put,
}
use tspack.Base.Text.{sort_strings}
use tspack.Workflow.Flow.{
  NodeKind, MachineEventKind, TerminalKind, State, PredicateKind, PredicateInfo, Predicate,
  Predicates, FlowNode, Transition, Flow, MachineEvent, Snapshot, Result, ok, err, StepTrace,
  MachineError, match_unhandled, result_unhandled,
}
use tspack.Workflow.Snapshot.{
  node_at, state_at, is_live, flow_node, set_state, contains_identity, add_active, remove_active,
  dependencies_complete, activate_found, activate_node, activate_all, stop_node, cancel_loop,
  cancel_nonterminal_nodes,
}
use tspack.Workflow.Initial.{new_snapshot, initial_nodes}
use tspack.Workflow.Settle.{
  settle_control, settle_loop, settle_fuel, follow, store_iterator, finish_machine, match_outcome,
  follow_optional, run_control, wake, wake_ready, run_ready, settle_node, settle_pass,
}
use tspack.Workflow.Settle.Ends.{IsQuiet, settle_loop_ends}
use tspack.Workflow.Transitions.{
  select_transition, select_guarded_transition, leaves, leaves_guarded, select_loop,
  optional_transition,
}
use tspack.Workflow.Transitions.Unique.{
  only, select_transition-only, select_guarded_transition-only,
}
use tspack.Workflow.Predicate.{
  evaluate_predicate, compare_fact, projected_fact, evaluate_fact, evaluate, float_lt,
}
use tspack.Workflow.Predicate.Meaning.{holds, Readable, evaluate-holds}
use tspack.Workflow.Machine.{step, append_trace, start_machine, handle_event, with_limits, advance}
use tspack.Workflow.Machine.States.{step-Frozen, step-IsQuiet, step-cancel}
use tspack.Workflow.Machine.Bounds.{IsBounded, run, run-IsBounded, step-step_count}
use tspack.Workflow.Effects.{
  record_element, record_loop, record_aggregate_outcome, require_effect_state, store_value,
  store_outcome, store_cleanup, finish_node, cancel_entry, cancel_entries, cancel_all, start_effect,
  finish_effect,
}

abbrev plain : String → NodeKind → FlowNode
plain identity kind = record {
  identity = identity;
  kind = kind;
  region = "";
  effect = none;
  value = "";
  source = "";
  projection = none;
  iterator = none;
  predicate = none;
  cleanup = false;
  cleanup_cause = TerminalKind.unset;
  targets = [];
  wait_for = [];
  terminal = TerminalKind.unset;
}

abbrev effect_node : String → String → FlowNode
effect_node identity operation = record (plain identity NodeKind.effect) {
  effect = some (record { identity = identity; operation = operation; inputs = [] });
  value = operation;
}

abbrev terminal_node : String → TerminalKind → FlowNode
terminal_node identity kind = record (plain identity NodeKind.terminal) { terminal = kind }

abbrev edge : String → MachineEventKind → String → Transition
edge from event to = record { identity = from; from = from; event = event; guard = ""; to = to }

abbrev sample : Flow
sample = record {
  schema_version = pos 4;
  identity = "sample";
  regions = [];
  values = [];
  expansion = record { planned_iterations = pos 0; limit = pos 4096; max_concurrency = pos 32 };
  entry = "entry";
  terminals = record {
    succeeded = "terminal/succeeded";
    failed = "terminal/failed";
    cancelled = "terminal/cancelled";
    timed_out = "terminal/timedOut";
  };
  aggregates = [];
  nodes =
      plain "entry" NodeKind.entry
      ∷ record (plain "fork" NodeKind.fork) { targets = "a" ∷ "b" ∷ "join" ∷ [] }
      ∷ effect_node "a" "build"
      ∷ effect_node "b" "test"
      ∷ plain "exit-a" NodeKind.branch_exit
      ∷ plain "exit-b" NodeKind.branch_exit
      ∷ record (plain "join" NodeKind.join) { wait_for = "exit-a" ∷ "exit-b" ∷ [] }
      ∷ terminal_node "terminal/succeeded" TerminalKind.succeeded
      ∷ terminal_node "terminal/failed" TerminalKind.failed
      ∷ terminal_node "terminal/cancelled" TerminalKind.cancelled
      ∷ [];
  transitions =
      edge "entry" MachineEventKind.continue "fork"
      ∷ edge "a" MachineEventKind.effect_succeeded "exit-a"
      ∷ edge "b" MachineEventKind.effect_succeeded "exit-b"
      ∷ edge "a" MachineEventKind.effect_failed "terminal/failed"
      ∷ edge "join" MachineEventKind.continue "terminal/succeeded"
      ∷ [];
}

abbrev event : MachineEventKind → String → MachineEvent
event kind node = record { kind = kind; node = node; result = none; error = "" }

abbrev new : Snapshot
new = new_snapshot sample 0 2

abbrev both : List MachineEvent
both =
    event MachineEventKind.start ""
    ∷ event MachineEventKind.effect_started "a"
    ∷ event MachineEventKind.effect_started "b"
    ∷ event MachineEventKind.effect_succeeded "b"
    ∷ event MachineEventKind.effect_succeeded "a"
    ∷ []

abbrev started : Snapshot
started = run sample new (event MachineEventKind.start "" ∷ [])

-- `run`, with all that it calls unfolded wherever this name is.
replay : Flow → Snapshot → List MachineEvent → Snapshot
unfolding lookup put node_at set_state flow_node contains_identity add_active remove_active
    dependencies_complete activate_found activate_node activate_all stop_node cancel_loop
    cancel_nonterminal_nodes sort_strings select_loop select_transition select_guarded_transition
    optional_transition compare_fact projected_fact evaluate_fact evaluate evaluate_predicate
    float_lt follow store_iterator finish_machine match_outcome follow_optional run_control wake
    wake_ready run_ready settle_node settle_pass settle_loop settle_fuel settle_control
    initial_nodes new_snapshot record_element record_loop record_aggregate_outcome
    require_effect_state store_value store_outcome store_cleanup finish_node cancel_entry
    cancel_entries cancel_all start_effect finish_effect append_trace start_machine handle_event
    with_limits advance step run
replay = run

-- After the start both effects are active and the join waits.
started_active : started.active ≡ "a" ∷ "b" ∷ []
unfolding replay
started_active = refl

both_succeed : (run sample new both).status ≡ State.succeeded
unfolding replay
both_succeed = refl

both_dropped : (run sample new both).dropped_trace ≡ 3
unfolding replay
both_dropped = refl

abbrev cancel : MachineEvent
cancel = event MachineEventKind.cancel_requested ""

abbrev cancel_trace : StepTrace
cancel_trace = record {
  step = 2;
  state_before = "a" ∷ "b" ∷ [];
  event = cancel;
  eligible_transitions = [];
  selected_transition = "";
  effect = "";
  result_kind = "";
  value_identity = "";
  state_after = [];
}

cancel_accepted : (step sample started cancel).1 ≡ ok cancel_trace
unfolding replay
cancel_accepted = refl

step-cancel_example : is_live (state_at (step sample started cancel).0 "a") ≡ false
unfolding flow_node
step-cancel_example =
    step-cancel sample started cancel cancel_trace "a" (effect_node "a" "build") refl refl
      cancel_accepted refl refl

step-IsQuiet_example : IsQuiet sample.nodes (step sample started cancel).0
step-IsQuiet_example = step-IsQuiet sample started cancel cancel_trace cancel_accepted

entry_succeeded : state_at started "entry" ≡ State.succeeded
unfolding replay
entry_succeeded = refl

entry_settled : is_live (state_at started "entry") ≡ false
unfolding replay
entry_settled = refl

step-Frozen_example : state_at (step sample started cancel).0 "entry" ≡ state_at started "entry"
step-Frozen_example = step-Frozen sample started cancel "entry" entry_settled

settle_loop_ends_example :
    (r : Result Snapshot) × (settle_loop (settle_fuel sample) sample started ≡ some r)
settle_loop_ends_example = settle_loop_ends sample started

run-IsBounded_example : IsBounded (run sample (new_snapshot sample 0 2) both)
run-IsBounded_example = run-IsBounded sample 0 2 both

step-step_count_example :
    ((b : StepTrace) × ((step sample started cancel).1 ≡ ok b)
      × ((step sample started cancel).0.step_count ≡ started.step_count + 1))
    ⊎ ((e : MachineError) × (step sample started cancel ≡ (with_limits started, err e)))
step-step_count_example = step-step_count sample started cancel

select_transition-only_example :
    select_transition sample "a" MachineEventKind.effect_failed
    ≡ only
        (result_unhandled "a" MachineEventKind.effect_failed)
        "a"
        (keep (leaves "a" MachineEventKind.effect_failed) sample.transitions)
select_transition-only_example = select_transition-only sample "a" MachineEventKind.effect_failed

-- The transition that is meant is the one found.
failure_target :
    select_transition sample "a" MachineEventKind.effect_failed
    ≡ ok (edge "a" MachineEventKind.effect_failed "terminal/failed", "a" ∷ [])
unfolding replay
failure_target = refl

select_guarded_transition-only_example :
    select_guarded_transition sample "join" MachineEventKind.continue ""
    ≡ only
        (match_unhandled "join" "")
        "join"
        (keep (leaves_guarded "join" MachineEventKind.continue "") sample.transitions)
select_guarded_transition-only_example =
    select_guarded_transition-only sample "join" MachineEventKind.continue ""

abbrev fact : PredicateInfo
fact = record {
  kind = PredicateKind.greater_than;
  input = some (record {
    identity = "v";
    source = "test";
    result_type = "test";
    field_path = "failed" ∷ [];
    category = "";
    index = none;
  });
  number = some (record { negative = false; mantissa = 1; scale = 1 });
}

abbrev none_failed : Predicate
none_failed =
    Predicate.predicate (record fact { kind = PredicateKind.not })
      (Predicates.more (Predicate.predicate fact Predicates.none) Predicates.none)

-- Two tests failed, which is more than 1 / 2.
abbrev tested : Snapshot
tested = record new {
  values =
      (
        "test",
        record {
          build = none;
          audit = none;
          test = some (record {
            passed = 5;
            failed = 2;
            skipped = 0;
            duration_ms = record { negative = false; mantissa = 1; scale = 3 };
            tests = [];
          });
        },
      )
      ∷ [];
}

none_failed-Readable : Readable tested (λ _. true) none_failed
unfolding Readable replay
none_failed-Readable = (tt, (refl, tt))

evaluate-holds_example :
    evaluate_predicate tested (some none_failed) ≡ ok (holds (λ _. true) none_failed)
evaluate-holds_example = evaluate-holds tested (λ _. true) none_failed none_failed-Readable

none_failed-false : evaluate_predicate tested (some none_failed) ≡ ok false
unfolding replay
none_failed-false = refl
