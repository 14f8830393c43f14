-- ===== src/Workflow/Machine/Books.antt =====
-- The step counter and the bounded trace of `Step` in internal/workflow/machine.go.
use tspack.Base.{
  ◌≡◌, ◌∙◌, refl, ap, Option, none, some, List, [], ◌∷◌, String, arith, put, Bool-cases, inl, inr,
}
use tspack.Workflow.Flow.{
  MachineEventKind, TerminalKind, State, Flow, FlowNode, Snapshot, NodeSnapshot, NativeResult,
  MachineEvent, StepTrace, AggregateDefinition, ok,
}
use tspack.Workflow.Snapshot.{is_empty, remove_active}
use tspack.Workflow.Snapshot.Books.{books, books-activate_node}
use tspack.Workflow.Effects.{
  record_loop, record_aggregate_outcome, store_value, store_outcome, store_cleanup, finish_node,
  cancel_all, start_effect, finish_effect, result_kind,
}
use tspack.Workflow.Effects.States.{start_effect-eq-ok, finish_effect-eq-ok}
use tspack.Workflow.Machine.{start_machine, handle_event}

books-start_machine :
    (flow : Flow) (s t : Snapshot) (a b : StepTrace)
    → start_machine flow (s, a) ≡ ok (t, b)
    → books t ≡ books s
unfolding start_machine
books-start_machine flow s t a b h =
    ground (arith, books-activate_node flow (record s { status = State.running }) flow.entry)

books-record_loop :
    (definitions : List AggregateDefinition) (s : Snapshot) (value : String)
    (outcome : TerminalKind)
    → books (record_loop definitions s value outcome) ≡ books s
unfolding record_loop
books-record_loop [] s value outcome = refl
books-record_loop (d ∷ rest) s value outcome =
    ground (arith, books-record_loop rest s value outcome)

books-store_value :
    (s : Snapshot) (x : FlowNode) (r : Option NativeResult) → books (store_value s x r) ≡ books s
unfolding store_value
books-store_value s x none = refl
books-store_value s x (some r) = ground arith

books-store_outcome :
    (flow : Flow) (s : Snapshot) (x : FlowNode) (kind : MachineEventKind)
    → books (store_outcome flow s x kind) ≡ books s
unfolding store_outcome record_aggregate_outcome
books-store_outcome flow s x kind = ground (
  arith,
  books-record_loop flow.aggregates
      (record s { outcomes = put x.value (result_kind kind) s.outcomes }) x.value
      (result_kind kind),
)

books-finish_node :
    (flow : Flow) (s : Snapshot) (x : FlowNode) (n : NodeSnapshot) (event : MachineEvent)
    → books (finish_node flow s x n event) ≡ books s
unfolding finish_node remove_active store_cleanup
books-finish_node flow s x n event = ground (
  arith,
  books-store_outcome flow (store_value s x event.result) x event.kind,
  books-store_value s x event.result,
)

books-finish_effect :
    (flow : Flow) (event : MachineEvent) (s t : Snapshot) (a b : StepTrace)
    → finish_effect flow event (s, a) ≡ ok (t, b)
    → books t ≡ books s
books-finish_effect flow event s t a b h =
    let (x, n, chosen, _, _, _, _, e) = finish_effect-eq-ok flow event s t a b h in
    ap books e
    ∙ books-activate_node flow (finish_node flow s x n event) chosen.0.to
    ∙ books-finish_node flow s x n event

books-start_effect :
    (flow : Flow) (event : MachineEvent) (s t : Snapshot) (a b : StepTrace)
    → start_effect flow event (s, a) ≡ ok (t, b)
    → books t ≡ books s
books-start_effect flow event s t a b h =
    let (x, n, _, _, _, _, e) = start_effect-eq-ok flow event s t a b h in ap books e

books-cancel_all : (flow : Flow) (s : Snapshot) → books (cancel_all flow s) ≡ books s
unfolding cancel_all
books-cancel_all flow s = books-activate_node flow _ flow.terminals.cancelled

pub books-handle_event :
    (flow : Flow) (event : MachineEvent) (kind : MachineEventKind) (s t : Snapshot)
    (a b : StepTrace)
    → handle_event flow event kind (s, a) ≡ ok (t, b)
    → books t ≡ books s
unfolding handle_event
books-handle_event flow event MachineEventKind.start s t a b h = books-start_machine flow s t a b h
books-handle_event flow event MachineEventKind.effect_started s t a b h =
    books-start_effect flow event s t a b h
books-handle_event flow event MachineEventKind.cancel_requested s t a b h =
    elim (Bool-cases (is_empty event.node)) [
      | inl whole ↦ let e = rw whole at h in ground (arith, books-cancel_all flow s)
      | inr one ↦ books-finish_effect flow event s t a b (rw one at h)
    ]
books-handle_event flow event MachineEventKind.continue s t a b h = cc
books-handle_event flow event _ s t a b h = books-finish_effect flow event s t a b h
