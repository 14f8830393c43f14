-- ===== src/Workflow/Settle/Books.antt =====
-- `settleControl` of internal/workflow/machine.go leaves the step counter and the trace alone.
use tspack.Base.{◌≡◌, ◌∙◌, refl, ap, Bool, Option, none, some, String, arith, inl, inr}
use tspack.Workflow.Flow.{
  NodeKind, MachineEventKind, TerminalKind, Flow, FlowNode, Snapshot, Transition, IteratorCursor,
  Result, ok, err, >>=-eq-ok,
}
use tspack.Workflow.Snapshot.{set_state, add_active, remove_active}
use tspack.Workflow.Transitions.{Selection, optional_transition}
use tspack.Workflow.Predicate.{evaluate_predicate}
use tspack.Workflow.Settle.{
  follow, store_iterator, finish_machine, match_outcome, activate_target, follow_optional,
  run_control, wake, wake_ready, completed, settle_node, settle_fuel, settle_control,
}
use tspack.Workflow.Settle.Rule.{settle_control-eq-ok, settle_loop_rule}
use tspack.Workflow.Settle.States.{wake_ready-cases, run_ready-cases}
use tspack.Workflow.Snapshot.Books.{
  books, books-activate_node, books-activate_all, books-cancel_nonterminal_nodes,
}

books-finish_machine :
    (flow : Flow) (s : Snapshot) (node : FlowNode) → books (finish_machine flow s node) ≡ books s
unfolding finish_machine
books-finish_machine flow s node = books-cancel_nonterminal_nodes flow _

books-follow :
    (flow : Flow) (s : Snapshot) (chosen : Result Selection) (t : Snapshot)
    → follow flow s chosen ≡ ok t
    → books t ≡ books s
unfolding follow
books-follow flow s (ok (t, eligible)) u h = ground (arith, books-activate_node flow s t.to)
books-follow flow s (err e) u h = cc

books-store_iterator :
    (s : Snapshot) (i : String) (cursor : Option IteratorCursor)
    → books (store_iterator s i cursor) ≡ books s
unfolding store_iterator
books-store_iterator s i none = refl
books-store_iterator s i (some cursor) = refl

books-match_outcome :
    (flow : Flow) (s : Snapshot) (node : FlowNode) (outcome : Option TerminalKind) (t : Snapshot)
    → match_outcome flow s node outcome ≡ ok t
    → books t ≡ books s
unfolding match_outcome
books-match_outcome flow s node none t h = cc
books-match_outcome flow s node (some outcome) t h = books-follow flow s _ t h

books-activate_target :
    (flow : Flow) (s : Snapshot) (target : Option Transition)
    → books (activate_target flow s target) ≡ books s
books-activate_target flow s none = refl
books-activate_target flow s (some t) = books-activate_node flow s t.to

books-run_control :
    (flow : Flow) (node : FlowNode) (kind : NodeKind) (s t : Snapshot)
    → run_control flow node kind s ≡ ok t
    → books t ≡ books s
unfolding run_control follow_optional
books-run_control flow node NodeKind.entry s t h = books-follow flow s _ t h
books-run_control flow node NodeKind.join s t h = books-follow flow s _ t h
books-run_control flow node NodeKind.iterator s t h =
    books-follow flow _ _ t h ∙ books-store_iterator s node.identity node.iterator
books-run_control flow node NodeKind.match s t h = books-match_outcome flow s node _ t h
books-run_control flow node NodeKind.predicate s t h =
    let (matched, _, e) = >>=-eq-ok (evaluate_predicate s node.predicate) _ h in
    books-follow flow s _ t e
books-run_control flow node NodeKind.fork s t h =
    ground (arith, books-activate_all flow s node.targets)
books-run_control flow node NodeKind.branch_exit s t h = ground (
  arith,
  books-activate_target flow s (optional_transition flow node.identity MachineEventKind.continue),
)
books-run_control flow node NodeKind.terminal s t h =
    ground (arith, books-finish_machine flow s node)
books-run_control flow node NodeKind.effect s t h = ground arith

books-wake : (node : FlowNode) (s : Snapshot) → books (wake node s) ≡ books s
unfolding wake set_state add_active
books-wake node s = ground arith

books-completed : (node : FlowNode) (s : Snapshot) → books (completed node s) ≡ books s
unfolding set_state remove_active
books-completed node s = refl

books-settle_node :
    (flow : Flow) (node : FlowNode) (s t : Snapshot) (p q : Bool)
    → settle_node flow node (s, p) ≡ ok (t, q)
    → books t ≡ books s
unfolding settle_node
books-settle_node flow node s t p q h =
    let (u, r) = wake_ready node (s, p) in
    let woke : books u ≡ books s = elim (wake_ready-cases node s u p r refl) [
      | inl (same, _, _) ↦ ap books same
      | inr (_, _, e) ↦ ap books e ∙ books-wake node s
    ] in
    elim (run_ready-cases flow node u t r q h) [
      | inl (same, _, _) ↦ ap books same ∙ woke
      | inr (_, _, run) ↦
          books-run_control flow node node.kind (completed node u) t run
          ∙ books-completed node u
          ∙ woke
    ]

-- Settling leaves the step counter and the trace alone.
pub books-settle_control :
    (flow : Flow) (s t : Snapshot) → settle_control flow s ≡ ok t → books t ≡ books s
books-settle_control flow s t h =
    let (u, loop, e) = settle_control-eq-ok flow s t h in
    let same : books u ≡ books s =
      settle_loop_rule flow (λ v. books v ≡ books s)
        (λ node _ v w p q run kept. books-settle_node flow node v w p q run ∙ kept)
        (settle_fuel flow) s u loop refl in
    ap books e ∙ same
