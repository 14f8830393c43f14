-- ===== src/Workflow/Snapshot/States.antt =====
-- How the snapshot operations of internal/workflow/machine.go change the states of the nodes.
use tspack.Base.{
  ◌≡◌, ◌∙◌, refl, true, false, Option, none, some, List, [], ◌∷◌, String, str_eq, eq_iff,
  lookup-put, arith, if◌then◌else◌,
}
use tspack.Workflow.Flow.{State, Flow, FlowNode, Snapshot}
use tspack.Workflow.Snapshot.{
  is_live, stopped, node_at, state_at, set_state, flow_node, add_active, dependencies_complete,
  activate_found, activate_if, activate_node, activate_all, stop_node, cancel_loop,
  cancel_nonterminal_nodes,
}

pub state_at-set_state :
    (s : Snapshot) (i k : String) (v : State)
    → state_at (set_state s i v) k ≡ (if str_eq i k then v else state_at s k)
unfolding node_at set_state
state_at-set_state s i k v =
    ground (arith, lookup-put i k (record (node_at s i) { state = v }) s.nodes)

pub state_at-add_active : (s : Snapshot) (i k : String) → state_at (add_active s i) k ≡ state_at s k
unfolding node_at add_active
state_at-add_active s i k = ground arith

-- A node that is neither pending, waiting nor running keeps its state.
abbrev pub Frozen : Snapshot → Snapshot → Type 0
Frozen s t = (k : String) → is_live (state_at s k) ≡ false → state_at t k ≡ state_at s k

pub Frozen-trans : (s t u : Snapshot) → Frozen s t → Frozen t u → Frozen s u
Frozen-trans s t u f g k h = g k (rw (f k h) h) ∙ f k h

-- A write to a live node freezes nothing else.
pub set_state-Frozen :
    (s : Snapshot) (i : String) (v : State)
    → is_live (state_at s i) ≡ true
    → Frozen s (set_state s i v)
set_state-Frozen s i v live k h = ground (arith, state_at-set_state s i k v, eq_iff i k)

activate_found-Frozen :
    (s : Snapshot) (node : FlowNode) (i : String) → Frozen s (activate_found s node i)
unfolding activate_found
activate_found-Frozen s node i k h =
    ground (arith, state_at-set_state s i k State.waiting, state_at-add_active s i k, eq_iff i k)

activate_if-Frozen :
    (s : Snapshot) (node : Option FlowNode) (i : String) → Frozen s (activate_if s node i)
activate_if-Frozen s none i k h = refl
activate_if-Frozen s (some node) i k h = activate_found-Frozen s node i k h

pub activate_node-Frozen :
    (flow : Flow) (s : Snapshot) (i : String) → Frozen s (activate_node flow s i)
unfolding activate_node
activate_node-Frozen flow s i = activate_if-Frozen s (flow_node flow i) i

pub activate_all-Frozen :
    (flow : Flow) (s : Snapshot) (targets : List String) → Frozen s (activate_all flow s targets)
unfolding activate_all
activate_all-Frozen flow s [] k h = refl
activate_all-Frozen flow s (i ∷ rest) k h =
    Frozen-trans s (activate_node flow s i) _ (activate_node-Frozen flow s i)
      (activate_all-Frozen flow (activate_node flow s i) rest) k h

stop_node-Frozen : (s : Snapshot) (node : FlowNode) → Frozen s (stop_node s node)
unfolding stop_node
stop_node-Frozen s node k h =
    ground (arith, state_at-set_state s node.identity k (stopped s.status), eq_iff node.identity k)

pub cancel_loop-Frozen : (nodes : List FlowNode) (s : Snapshot) → Frozen s (cancel_loop nodes s)
unfolding cancel_loop
cancel_loop-Frozen [] s k h = refl
cancel_loop-Frozen (node ∷ nodes) s k h =
    Frozen-trans s (stop_node s node) _ (stop_node-Frozen s node)
      (cancel_loop-Frozen nodes (stop_node s node)) k h

pub cancel_nonterminal_nodes-Frozen :
    (flow : Flow) (s : Snapshot) → Frozen s (cancel_nonterminal_nodes flow s)
unfolding cancel_nonterminal_nodes
cancel_nonterminal_nodes-Frozen flow s k h = ground (arith, cancel_loop-Frozen flow.nodes s k h)

-- The dependencies of a node are read off the states alone.
pub dependencies_complete-nodes :
    (s t : Snapshot)
    → s.nodes ≡ t.nodes
    → (ids : List String) → dependencies_complete s ids ≡ dependencies_complete t ids
unfolding dependencies_complete node_at
dependencies_complete-nodes s t e [] = refl
dependencies_complete-nodes s t e (i ∷ ids) =
    ground (arith, e, dependencies_complete-nodes s t e ids)
