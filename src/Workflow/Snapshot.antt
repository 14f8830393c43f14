-- ===== src/Workflow/Snapshot.antt =====
-- The snapshot operations of internal/workflow/machine.go: lookups, the active list, activation.
pub mod States
pub mod Books
use Prim.Native.Nat.{Ordering}
use Prim.Native.String.{compare}
use tspack.Base.{
  Bool, true, false, not, ◌&&◌, ◌||◌, Option, none, some, List, [], ◌∷◌, ◌++◌, String, str_eq,
  lookup, put, if◌then◌else◌,
}
use tspack.Workflow.Flow.{NodeKind, State, Flow, FlowNode, NodeSnapshot, Snapshot}

abbrev pub is_empty : String → Bool
is_empty s = str_eq s ""

abbrev pub is_pending : State → Bool
is_pending State.pending = true
is_pending _ = false

abbrev pub is_waiting : State → Bool
is_waiting State.waiting = true
is_waiting _ = false

abbrev pub is_running : State → Bool
is_running State.running = true
is_running _ = false

-- The states in which a node may still change.
abbrev pub is_live : State → Bool
is_live state = is_running state || is_pending state || is_waiting state

abbrev pub is_succeeded : State → Bool
is_succeeded State.succeeded = true
is_succeeded _ = false

abbrev pub is_cancelled : State → Bool
is_cancelled State.cancelled = true
is_cancelled _ = false

abbrev pub is_effect : NodeKind → Bool
is_effect NodeKind.effect = true
is_effect _ = false

abbrev pub is_terminal : NodeKind → Bool
is_terminal NodeKind.terminal = true
is_terminal _ = false

-- The zero value of a map read.
abbrev pub no_node : NodeSnapshot
no_node = record { state = State.unset; result = none; error = "" }

abbrev pub or_zero : Option NodeSnapshot → NodeSnapshot
or_zero none = no_node
or_zero (some n) = n

-- `snapshot.Nodes[identity]`.
unfoldable pub node_at : Snapshot → String → NodeSnapshot
node_at s identity = or_zero (lookup identity s.nodes)

-- `snapshot.Nodes[identity].State`.
abbrev pub state_at : Snapshot → String → State
state_at s identity = (node_at s identity).state

-- `state.State = v; snapshot.Nodes[identity] = state`, for the `state` read under that key.
unfoldable pub set_state : Snapshot → String → State → Snapshot
set_state s identity v = record s {
  nodes = put identity (record (node_at s identity) { state = v }) s.nodes;
}

unfoldable pub flow_node_in : List FlowNode → String → Option FlowNode
flow_node_in [] identity = none
flow_node_in (node ∷ nodes) identity =
    if str_eq node.identity identity then some node else flow_node_in nodes identity

unfoldable pub flow_node : Flow → String → Option FlowNode
unfolding flow_node_in
flow_node flow identity = flow_node_in flow.nodes identity

unfoldable pub contains_identity : List String → String → Bool
contains_identity [] identity = false
contains_identity (value ∷ values) identity =
    if str_eq value identity then true else contains_identity values identity

unfoldable pub add_active : Snapshot → String → Snapshot
add_active s identity =
    if not (contains_identity s.active identity)
    then record s { active = s.active ++ identity ∷ [] }
    else s

unfoldable pub remove_first : List String → String → List String
remove_first [] identity = []
remove_first (active ∷ rest) identity =
    if str_eq active identity then rest else active ∷ remove_first rest identity

unfoldable pub remove_active : Snapshot → String → Snapshot
unfolding remove_first
remove_active s identity = record s { active = remove_first s.active identity }

unfoldable pub dependencies_complete : Snapshot → List String → Bool
dependencies_complete s [] = true
dependencies_complete s (dependency ∷ rest) =
    if not (is_succeeded (state_at s dependency)) then false else dependencies_complete s rest

abbrev pub has_elements : List String → Bool
has_elements [] = false
has_elements (_ ∷ _) = true

-- The part of `activateNode` below the lookup of the node.
unfoldable pub activate_found : Snapshot → FlowNode → String → Snapshot
activate_found s node identity =
    if not (is_pending (state_at s identity))
    then s
    else if has_elements node.wait_for && not (dependencies_complete s node.wait_for)
    then set_state s identity State.waiting
    else add_active s identity

abbrev pub activate_if : Snapshot → Option FlowNode → String → Snapshot
activate_if s none identity = s
activate_if s (some node) identity = activate_found s node identity

unfoldable pub activate_node : Flow → Snapshot → String → Snapshot
unfolding activate_found
activate_node flow s identity = activate_if s (flow_node flow identity) identity

-- The loop over `node.Targets` of a fork.
unfoldable pub activate_all : Flow → Snapshot → List String → Snapshot
activate_all flow s [] = s
activate_all flow s (target ∷ targets) = activate_all flow (activate_node flow s target) targets

-- Whether `cancelNonterminalNodes` changes a state, and into what, under the machine's status.
abbrev pub is_stoppable : State → State → Bool
is_stoppable status state =
    if is_cancelled status
    then is_pending state || is_waiting state || is_running state
    else is_pending state || is_waiting state

abbrev pub stopped : State → State
stopped status = if is_cancelled status then State.cancelled else State.blocked

-- The body of the loop of `cancelNonterminalNodes`.
unfoldable pub stop_node : Snapshot → FlowNode → Snapshot
stop_node s node =
    if is_terminal node.kind
    then s
    else if is_stoppable s.status (state_at s node.identity)
    then set_state s node.identity (stopped s.status)
    else s

unfoldable pub cancel_loop : List FlowNode → Snapshot → Snapshot
cancel_loop [] s = s
cancel_loop (node ∷ nodes) s = cancel_loop nodes (stop_node s node)

unfoldable pub cancel_nonterminal_nodes : Flow → Snapshot → Snapshot
unfolding cancel_loop
cancel_nonterminal_nodes flow s = if is_succeeded s.status then s else cancel_loop flow.nodes s
