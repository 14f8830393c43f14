-- ===== src/Workflow/Settle.antt =====
-- `settleControl` of internal/workflow/machine.go: the control nodes that are ready are run, pass
-- after pass, until a pass changes nothing. The unbounded `for` takes fuel.
pub mod Rule
pub mod States
pub mod Books
pub mod Work
pub mod Ends
use tspack.Base.{
  ℕ, zero, suc, ◌+◌, ◌*◌, Bool, true, false, not, ◌&&◌, ◌||◌, Option, none, some, List, [], ◌∷◌,
  String, lookup, put, length, if◌then◌else◌,
}
use tspack.Base.Text.{sort_strings}
use tspack.Workflow.Flow.{
  NodeKind, MachineEventKind, TerminalKind, State, Flow, FlowNode, IteratorCursor, Snapshot, Result,
  Transition, ok, err, ◌>>=◌, value_unknown, out_of_fuel,
}
use tspack.Workflow.Snapshot.{
  is_pending, is_waiting, is_effect, state_at, set_state, contains_identity, add_active,
  remove_active, dependencies_complete, activate_node, activate_all, cancel_nonterminal_nodes,
}
use tspack.Workflow.Predicate.{evaluate_predicate}
use tspack.Workflow.Transitions.{
  Selection, terminal_name, select_transition, select_guarded_transition, optional_transition,
}

-- `activateNode(flow, snapshot, transition.To)` behind a selection that may fail.
unfoldable pub follow : Flow → Snapshot → Result Selection → Result Snapshot
follow flow s selection = selection >>= λ chosen. ok (activate_node flow s chosen.0.to)

unfoldable pub store_iterator : Snapshot → String → Option IteratorCursor → Snapshot
store_iterator s identity none = s
store_iterator s identity (some cursor) = record s { iterators = put identity cursor s.iterators }

abbrev pub terminal_status : TerminalKind → State → State
terminal_status TerminalKind.succeeded status = State.succeeded
terminal_status TerminalKind.failed status = State.failed
terminal_status TerminalKind.cancelled status = State.cancelled
terminal_status TerminalKind.timed_out status = State.timed_out
terminal_status TerminalKind.unset status = status

-- The branch of a terminal node: no node stays active, and the rest is cancelled or blocked.
unfoldable pub finish_machine : Flow → Snapshot → FlowNode → Snapshot
finish_machine flow s node =
    cancel_nonterminal_nodes flow
      (record s { active = []; status = terminal_status node.terminal s.status })

abbrev pub guard_name : Bool → String
guard_name true = "true"
guard_name false = "false"

unfoldable pub match_outcome : Flow → Snapshot → FlowNode → Option TerminalKind → Result Snapshot
match_outcome flow s node none = err (value_unknown node.source)
match_outcome flow s node (some outcome) =
    follow flow s (
      select_guarded_transition flow node.identity MachineEventKind.continue
        (terminal_name outcome))

abbrev pub activate_target : Flow → Snapshot → Option Transition → Snapshot
activate_target flow s none = s
activate_target flow s (some t) = activate_node flow s t.to

unfoldable pub follow_optional : Flow → Snapshot → FlowNode → Snapshot
follow_optional flow s node =
    activate_target flow s (optional_transition flow node.identity MachineEventKind.continue)

-- The `switch node.Kind`. An effect node does not reach it.
unfoldable pub run_control : Flow → FlowNode → NodeKind → Snapshot → Result Snapshot
run_control flow node NodeKind.entry s =
    follow flow s (select_transition flow node.identity MachineEventKind.continue)
run_control flow node NodeKind.join s =
    follow flow s (select_transition flow node.identity MachineEventKind.continue)
run_control flow node NodeKind.iterator s =
    follow flow (store_iterator s node.identity node.iterator)
      (select_transition flow node.identity MachineEventKind.continue)
run_control flow node NodeKind.match s = match_outcome flow s node (lookup node.source s.outcomes)
run_control flow node NodeKind.predicate s = do
  matched ← evaluate_predicate s node.predicate
  follow flow s
      (select_guarded_transition flow node.identity MachineEventKind.continue (guard_name matched))
run_control flow node NodeKind.fork s = ok (activate_all flow s node.targets)
run_control flow node NodeKind.branch_exit s = ok (follow_optional flow s node)
run_control flow node NodeKind.terminal s = ok (finish_machine flow s node)
run_control flow node NodeKind.effect s = ok s

-- The snapshot and the flag `progress`.
abbrev pub Progress : Type 0
Progress = Snapshot × Bool

-- A waiting node whose dependencies are complete becomes pending and active.
unfoldable pub wake : FlowNode → Snapshot → Snapshot
wake node s = add_active (set_state s node.identity State.pending) node.identity

abbrev pub is_woken : FlowNode → Snapshot → Bool
is_woken node s = is_waiting (state_at s node.identity) && dependencies_complete s node.wait_for

unfoldable pub wake_ready : FlowNode → Progress → Progress
unfolding wake
wake_ready node (s, progress) = if is_woken node s then (wake node s, true) else (s, progress)

-- Whether a node is run now: pending, active, and no effect.
abbrev pub is_ready : FlowNode → Snapshot → Bool
is_ready node s =
    is_pending (state_at s node.identity)
    && contains_identity s.active node.identity
    && not (is_effect node.kind)

abbrev pub completed : FlowNode → Snapshot → Snapshot
completed node s = set_state (remove_active s node.identity) node.identity State.succeeded

unfoldable pub run_ready : Flow → FlowNode → Progress → Result Progress
run_ready flow node (s, progress) =
    if is_ready node s
    then (do s' ← run_control flow node node.kind (completed node s); ok (s', true))
    else ok (s, progress)

-- The body of the inner loop.
unfoldable pub settle_node : Flow → FlowNode → Progress → Result Progress
unfolding wake_ready run_ready
settle_node flow node p = run_ready flow node (wake_ready node p)

unfoldable pub settle_pass : Flow → List FlowNode → Progress → Result Progress
settle_pass flow [] p = ok p
settle_pass flow (node ∷ nodes) p = do p' ← settle_node flow node p; settle_pass flow nodes p'

-- The test `!progress` behind a pass: `next` is the next round of the `for`.
abbrev pub again :
    (Snapshot → Option (Result Snapshot)) → Result Progress → Option (Result Snapshot)
again next (err e) = some (err e)
again next (ok (s, true)) = next s
again next (ok (s, false)) = some (ok s)

-- `none` means that the fuel ran out.
unfoldable pub settle_loop : ℕ → Flow → Snapshot → Option (Result Snapshot)
settle_loop zero flow s = none
settle_loop (suc fuel) flow s =
    again (settle_loop fuel flow) (settle_pass flow flow.nodes (s, false))

unfoldable pub settle_fuel : Flow → ℕ
settle_fuel flow = suc (suc (length flow.nodes) * suc (length flow.nodes))

abbrev pub settled : Option (Result Snapshot) → Result Snapshot
settled none = err out_of_fuel
settled (some r) = r >>= λ s. ok (record s { active = sort_strings s.active })

unfoldable pub settle_control : Flow → Snapshot → Result Snapshot
unfolding settle_fuel settle_loop
settle_control flow s = settled (settle_loop (settle_fuel flow) flow s)
