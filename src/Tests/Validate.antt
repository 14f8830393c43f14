-- ===== src/Tests/Validate.antt =====
-- A valid workflow: an effect, a match on its outcome, and the terminals.
use tspack.Base.{
  is_among, pos, ◌≡◌, refl, true, false, none, some, [], ◌∷◌, String, lookup, put, Memᴰ, Bool, inl,
}
use mathlib.Core.WellFounded.{Acc}
use tspack.Base.Text.{sort_strings}
use tspack.Workflow.Flow.{NodeKind, MachineEventKind, TerminalKind, FlowNode, Transition, Flow, ok}
use tspack.Workflow.Transitions.{select_transition, select_guarded_transition}
use tspack.Workflow.Graph.{
  adjacency_of, flow_node_reaches, mark_reachable, visit, targets_of, add_targets, add_dependencies,
  add_nodes, add_transitions, search_loop, unseen_targets, search_from, mark_all, visit_state,
  visit_all,
}
use tspack.Workflow.Validate.{
  header_notes, node_notes, nodes_notes, add_known, known_nodes, regions_notes, case_key,
  transition_notes, transitions_notes, transition_cases, references_notes, results_notes,
  outcomes_notes, handling_notes, handlings_notes,
}
use tspack.Workflow.Validate.Values.{
  valid_projection, definitions_notes, add_definitions, inputs_notes, uses_notes,
}
use tspack.Workflow.Validate.Aggregates.{
  aggregates_notes, add_aggregates, readers_notes, values_notes,
}
use tspack.Workflow.Graph.Walks.{Walk}
use tspack.Workflow.Graph.Search.{flow_node_reaches_decides}
use tspack.Workflow.Graph.Cycles.{Follows}
use tspack.Workflow.Validate.Whole.{
  unreached_notes, reachable_from, cycle_notes, flow_notes, validate_flow,
}
use tspack.Workflow.Validate.Sound.{
  validate_flow-Acc, validate_flow-Walk, select_transition-valid, select_guarded_transition-valid,
  IsClear, reachable_from_iff,
}
use tspack.Workflow.Validate.Keys.{no_nul}

abbrev plain : String → NodeKind → FlowNode
plain identity kind = record {
  identity = identity;
  kind = kind;
  region = "";
  effect = none;
  value = "";
  source = "";
  projection = none;
  iterator = none;
  predicate = none;
  cleanup = false;
  cleanup_cause = TerminalKind.unset;
  targets = [];
  wait_for = [];
  terminal = TerminalKind.unset;
}

abbrev a : FlowNode
a = record (plain "a" NodeKind.effect) {
  effect = some (record { identity = "a"; operation = "build"; inputs = [] });
}

abbrev m : FlowNode
m = record (plain "m" NodeKind.match) { source = "v" }

abbrev edge : String → MachineEventKind → String → String → Transition
edge from event guard to = record {
  identity = from;
  from = from;
  event = event;
  guard = guard;
  to = to;
}

abbrev named : String → Transition → Transition
named identity t = record t { identity = identity }

abbrev sound : Flow
sound = record {
  schema_version = pos 4;
  identity = "sound";
  regions = [];
  values =
      record {
        ref = record {
          identity = "v";
          source = "v";
          result_type = "build";
          field_path = [];
          category = "value";
          index = none;
        };
        producer = "a";
        region = "";
        transported = false;
      }
      ∷ [];
  expansion = record { planned_iterations = pos 0; limit = pos 4096; max_concurrency = pos 32 };
  entry = "a";
  terminals = record { succeeded = "s"; failed = "f"; cancelled = "f"; timed_out = "f" };
  aggregates = [];
  nodes =
      a
      ∷ m
      ∷ record (plain "s" NodeKind.terminal) { terminal = TerminalKind.succeeded }
      ∷ record (plain "f" NodeKind.terminal) { terminal = TerminalKind.failed }
      ∷ [];
  transitions =
      named "1" (edge "a" MachineEventKind.effect_succeeded "" "m")
      ∷ named "2" (edge "a" MachineEventKind.effect_failed "" "m")
      ∷ named "3" (edge "a" MachineEventKind.cancel_requested "" "m")
      ∷ named "4" (edge "a" MachineEventKind.timeout "" "m")
      ∷ named "5" (edge "m" MachineEventKind.continue "succeeded" "s")
      ∷ named "6" (edge "m" MachineEventKind.continue "failed" "f")
      ∷ named "7" (edge "m" MachineEventKind.continue "cancelled" "f")
      ∷ named "8" (edge "m" MachineEventKind.continue "timedOut" "f")
      ∷ [];
}

sound-valid : validate_flow sound ≡ []
unfolding lookup put sort_strings targets_of add_targets add_dependencies add_nodes add_transitions
    adjacency_of search_loop unseen_targets search_from flow_node_reaches mark_all mark_reachable
    visit_state visit_all visit header_notes node_notes nodes_notes add_known known_nodes
    regions_notes case_key transition_notes transitions_notes transition_cases references_notes
    results_notes outcomes_notes handling_notes handlings_notes valid_projection definitions_notes
    add_definitions inputs_notes uses_notes aggregates_notes add_aggregates readers_notes
    values_notes unreached_notes reachable_from cycle_notes flow_notes validate_flow
sound-valid = refl

plain_a : no_nul "a" ≡ true
unfolding no_nul
plain_a = refl

plain_m : no_nul "m" ≡ true
unfolding no_nul
plain_m = refl

sound-IsClear : IsClear sound
unfolding no_nul
sound-IsClear = refl

abbrev at_m : Memᴰ m sound.nodes
at_m = Memᴰ.tail (Memᴰ.head refl)

flow_node_reaches_decides_example :
    (b : Bool) × (flow_node_reaches sound "m" "s" ≡ some b)
    × ((b ≡ true → Walk (adjacency_of sound) "m" "s")
        × (Walk (adjacency_of sound) "m" "s" → b ≡ true))
flow_node_reaches_decides_example = flow_node_reaches_decides sound "m" "s"

reachable_from_iff_example :
    (is_among "s" (reachable_from (adjacency_of sound) "a") ≡ true
      → Walk (adjacency_of sound) "a" "s")
    × (Walk (adjacency_of sound) "a" "s"
        → is_among "s" (reachable_from (adjacency_of sound) "a") ≡ true)
reachable_from_iff_example = reachable_from_iff (adjacency_of sound) "a" "s"

validate_flow-Acc_example : Acc (Follows (adjacency_of sound)) "a"
validate_flow-Acc_example = validate_flow-Acc sound sound-valid

validate_flow-Walk_example : Walk (adjacency_of sound) "a" "m"
validate_flow-Walk_example = validate_flow-Walk sound m sound-valid at_m refl refl

select_transition-valid_example :
    (t : Transition) × Memᴰ t sound.transitions
    × (select_transition sound "a" MachineEventKind.timeout ≡ ok (t, t.identity ∷ []))
select_transition-valid_example =
    select_transition-valid sound a sound-valid sound-IsClear (Memᴰ.head refl) plain_a
      MachineEventKind.timeout refl (Memᴰ.tail (Memᴰ.tail (Memᴰ.tail (Memᴰ.head refl))))

select_guarded_transition-valid_example :
    (t : Transition) × Memᴰ t sound.transitions
    × (select_guarded_transition sound "m" MachineEventKind.continue "cancelled"
        ≡ ok (t, t.identity ∷ []))
select_guarded_transition-valid_example =
    select_guarded_transition-valid sound m sound-valid sound-IsClear at_m plain_m "cancelled"
      (inl (refl, Memᴰ.tail (Memᴰ.tail (Memᴰ.head refl))))
