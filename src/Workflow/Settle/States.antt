-- ===== src/Workflow/Settle/States.antt =====
-- `settleControl` of internal/workflow/machine.go leaves the states that it may not change.
use tspack.Base.{
  ◌≡◌, ◌∙◌, refl, ap, Bool, true, false, Option, none, some, String, str_eq, eq_iff, arith,
  Bool-cases, inl, inr, ◌⊎◌, if◌then◌else◌,
}
use tspack.Workflow.Flow.{
  NodeKind, MachineEventKind, TerminalKind, State, Flow, FlowNode, Transition, IteratorCursor,
  Snapshot, Result, ok, err, >>=-eq-ok,
}
use tspack.Workflow.Snapshot.{is_pending, state_at, node_at, set_state, remove_active}
use tspack.Workflow.Snapshot.States.{
  state_at-set_state, state_at-add_active, Frozen, Frozen-trans, activate_node-Frozen,
  activate_all-Frozen, cancel_nonterminal_nodes-Frozen,
}
use tspack.Workflow.Settle.Rule.{settle_control-eq-ok, settle_loop_rule}
use tspack.Workflow.Predicate.{evaluate_predicate}
use tspack.Workflow.Transitions.{Selection, optional_transition}
use tspack.Workflow.Settle.{
  follow, store_iterator, finish_machine, match_outcome, activate_target, follow_optional,
  run_control, wake, wake_ready, is_woken, is_ready, completed, run_ready, settle_node, settle_fuel,
  settle_control,
}

follow-Frozen :
    (flow : Flow) (s : Snapshot) (chosen : Result Selection) (t : Snapshot)
    → follow flow s chosen ≡ ok t
    → Frozen s t
unfolding follow
follow-Frozen flow s (ok (t, eligible)) u h k live =
    ground (arith, activate_node-Frozen flow s t.to k live)
follow-Frozen flow s (err e) u h k live = cc

store_iterator-Frozen :
    (s : Snapshot) (i : String) (cursor : Option IteratorCursor)
    → Frozen s (store_iterator s i cursor)
unfolding store_iterator node_at
store_iterator-Frozen s i none k h = refl
store_iterator-Frozen s i (some cursor) k h = refl

match_outcome-Frozen :
    (flow : Flow) (s : Snapshot) (node : FlowNode) (outcome : Option TerminalKind) (t : Snapshot)
    → match_outcome flow s node outcome ≡ ok t
    → Frozen s t
unfolding match_outcome
match_outcome-Frozen flow s node none t h k live = cc
match_outcome-Frozen flow s node (some outcome) t h k live = follow-Frozen flow s _ t h k live

activate_target-Frozen :
    (flow : Flow) (s : Snapshot) (target : Option Transition)
    → Frozen s (activate_target flow s target)
activate_target-Frozen flow s none k h = refl
activate_target-Frozen flow s (some t) k h = activate_node-Frozen flow s t.to k h

finish_machine-Frozen :
    (flow : Flow) (s : Snapshot) (node : FlowNode) → Frozen s (finish_machine flow s node)
unfolding finish_machine node_at
finish_machine-Frozen flow s node k h = cancel_nonterminal_nodes-Frozen flow _ k h

-- No control node touches a settled node.
pub run_control-Frozen :
    (flow : Flow) (node : FlowNode) (kind : NodeKind) (s t : Snapshot)
    → run_control flow node kind s ≡ ok t
    → Frozen s t
unfolding run_control follow_optional
run_control-Frozen flow node NodeKind.entry s t h k live = follow-Frozen flow s _ t h k live
run_control-Frozen flow node NodeKind.join s t h k live = follow-Frozen flow s _ t h k live
run_control-Frozen flow node NodeKind.iterator s t h k live =
    Frozen-trans s (store_iterator s node.identity node.iterator) t
      (store_iterator-Frozen s node.identity node.iterator) (follow-Frozen flow _ _ t h) k live
run_control-Frozen flow node NodeKind.match s t h k live =
    match_outcome-Frozen flow s node _ t h k live
run_control-Frozen flow node NodeKind.predicate s t h k live =
    let (matched, _, e) = >>=-eq-ok (evaluate_predicate s node.predicate) _ h in
    follow-Frozen flow s _ t e k live
run_control-Frozen flow node NodeKind.fork s t h k live =
    ground (arith, activate_all-Frozen flow s node.targets k live)
run_control-Frozen flow node NodeKind.branch_exit s t h k live = ground (
  arith,
  activate_target-Frozen flow s (optional_transition flow node.identity MachineEventKind.continue) k
      live,
)
run_control-Frozen flow node NodeKind.terminal s t h k live =
    ground (arith, finish_machine-Frozen flow s node k live)
run_control-Frozen flow node NodeKind.effect s t h k live = ground arith

-- The node that is run ends up succeeded, and settled nodes are left alone.
pub completed-state_at :
    (node : FlowNode) (s : Snapshot) (k : String)
    → state_at (completed node s) k
      ≡ (if str_eq node.identity k then State.succeeded else state_at s k)
unfolding remove_active node_at
completed-state_at node s k =
    state_at-set_state (remove_active s node.identity) node.identity k State.succeeded

pub completed-Frozen :
    (node : FlowNode) (s : Snapshot)
    → is_pending (state_at s node.identity) ≡ true
    → Frozen s (completed node s)
completed-Frozen node s pending k h =
    ground (arith, completed-state_at node s k, eq_iff node.identity k)

pub wake-state_at :
    (node : FlowNode) (s : Snapshot) (k : String)
    → state_at (wake node s) k ≡ (if str_eq node.identity k then State.pending else state_at s k)
unfolding wake
wake-state_at node s k =
    state_at-add_active (set_state s node.identity State.pending) node.identity k
    ∙ state_at-set_state s node.identity k State.pending

pub wake_ready-cases :
    (node : FlowNode) (s t : Snapshot) (p q : Bool)
    → wake_ready node (s, p) ≡ (t, q)
    → ((t ≡ s) × (q ≡ p) × (is_woken node s ≡ false))
      ⊎ ((q ≡ true) × (is_woken node s ≡ true) × (t ≡ wake node s))
unfolding wake_ready
wake_ready-cases node s t p q h = ground arith

-- A node that was run has succeeded.
pub run_ready-cases :
    (flow : Flow) (node : FlowNode) (s t : Snapshot) (p q : Bool)
    → run_ready flow node (s, p) ≡ ok (t, q)
    → ((t ≡ s) × (q ≡ p) × (is_ready node s ≡ false))
      ⊎ ((q ≡ true)
          × (is_ready node s ≡ true)
          × (run_control flow node node.kind (completed node s) ≡ ok t))
unfolding run_ready
run_ready-cases flow node s t p q h = elim (Bool-cases (is_ready node s)) [
  | inl ready ↦
      let (s', run, e) =
        >>=-eq-ok (run_control flow node node.kind (completed node s)) _
          (rw (ready, run_ready) at h) in
      inr (cc, ready, cc)
  | inr idle ↦ inl (ground arith)
]

-- A woken node was waiting, so settled nodes are left alone.
pub wake-Frozen : (node : FlowNode) (s : Snapshot) → is_woken node s ≡ true → Frozen s (wake node s)
wake-Frozen node s woken k h = ground (arith, wake-state_at node s k, eq_iff node.identity k)

pub wake_ready-Frozen :
    (node : FlowNode) (s : Snapshot) (p : Bool) → Frozen s (wake_ready node (s, p)).0
wake_ready-Frozen node s p k h = elim (wake_ready-cases node s _ p _ refl) [
  | inl (same, _, _) ↦ cc
  | inr (_, woken, e) ↦ ground (arith, wake-Frozen node s woken k h)
]

pub run_ready-Frozen :
    (flow : Flow) (node : FlowNode) (s t : Snapshot) (p q : Bool)
    → run_ready flow node (s, p) ≡ ok (t, q)
    → Frozen s t
run_ready-Frozen flow node s t p q h = elim (run_ready-cases flow node s t p q h) [
  | inl (same, _, _) ↦ λ k live. ap (λ u. state_at u k) same
  | inr (_, ready, run) ↦
      Frozen-trans s (completed node s) t (completed-Frozen node s (ground arith))
        (run_control-Frozen flow node node.kind (completed node s) t run)
]

pub settle_node-Frozen :
    (flow : Flow) (node : FlowNode) (s t : Snapshot) (p q : Bool)
    → settle_node flow node (s, p) ≡ ok (t, q)
    → Frozen s t
unfolding settle_node
settle_node-Frozen flow node s t p q h =
    Frozen-trans s (wake_ready node (s, p)).0 t (wake_ready-Frozen node s p)
      (run_ready-Frozen flow node (wake_ready node (s, p)).0 t (wake_ready node (s, p)).1 q h)

-- Settled nodes keep their states through the whole of `settle_control`.
pub settle_control-Frozen :
    (flow : Flow) (s t : Snapshot) → settle_control flow s ≡ ok t → Frozen s t
unfolding node_at
settle_control-Frozen flow s t h =
    let (u, loop, e) = settle_control-eq-ok flow s t h in
    let frozen : Frozen s u =
      settle_loop_rule flow (Frozen s)
        (λ node _ v w p q run f. Frozen-trans s v w f (settle_node-Frozen flow node v w p q run))
        (settle_fuel flow) s u loop (λ k live. refl) in
    λ k live. rw e (frozen k live)
