-- ===== src/Workflow/Snapshot/Books.antt =====
-- The operations on nodes of internal/workflow/machine.go leave the step counter and the trace alone.
use tspack.Base.{ℕ, ◌≡◌, ◌∙◌, refl, Option, none, some, List, [], ◌∷◌, String, arith}
use tspack.Workflow.Flow.{Flow, FlowNode, Snapshot, StepTrace}
use tspack.Workflow.Snapshot.{
  set_state, add_active, flow_node, activate_found, activate_if, activate_node, activate_all,
  stop_node, cancel_loop, cancel_nonterminal_nodes,
}

-- The fields that only `Step` itself writes.
pub record Books : Type 0 where
  pub step_count : ℕ
  pub step_limit : ℕ
  pub trace : List StepTrace
  pub trace_limit : ℕ
  pub dropped_trace : ℕ

abbrev pub books : Snapshot → Books
books s = record {
  step_count = s.step_count;
  step_limit = s.step_limit;
  trace = s.trace;
  trace_limit = s.trace_limit;
  dropped_trace = s.dropped_trace;
}

pub books-activate_found :
    (s : Snapshot) (node : FlowNode) (i : String) → books (activate_found s node i) ≡ books s
unfolding activate_found set_state add_active
books-activate_found s node i = ground arith

pub books-activate_if :
    (s : Snapshot) (node : Option FlowNode) (i : String) → books (activate_if s node i) ≡ books s
books-activate_if s none i = refl
books-activate_if s (some node) i = books-activate_found s node i

pub books-activate_node :
    (flow : Flow) (s : Snapshot) (i : String) → books (activate_node flow s i) ≡ books s
unfolding activate_node
books-activate_node flow s i = books-activate_if s (flow_node flow i) i

pub books-activate_all :
    (flow : Flow) (s : Snapshot) (targets : List String)
    → books (activate_all flow s targets) ≡ books s
unfolding activate_all
books-activate_all flow s [] = refl
books-activate_all flow s (i ∷ rest) =
    books-activate_all flow (activate_node flow s i) rest ∙ books-activate_node flow s i

pub books-stop_node : (s : Snapshot) (node : FlowNode) → books (stop_node s node) ≡ books s
unfolding stop_node set_state
books-stop_node s node = ground arith

pub books-cancel_loop :
    (nodes : List FlowNode) (s : Snapshot) → books (cancel_loop nodes s) ≡ books s
unfolding cancel_loop
books-cancel_loop [] s = refl
books-cancel_loop (node ∷ nodes) s =
    books-cancel_loop nodes (stop_node s node) ∙ books-stop_node s node

pub books-cancel_nonterminal_nodes :
    (flow : Flow) (s : Snapshot) → books (cancel_nonterminal_nodes flow s) ≡ books s
unfolding cancel_nonterminal_nodes
books-cancel_nonterminal_nodes flow s = ground (arith, books-cancel_loop flow.nodes s)
