-- ===== src/Workflow/Machine/States.antt =====
-- What `Step` of internal/workflow/machine.go does to the states of the nodes.
use tspack.Base.{
  ◌≡◌, ◌∙◌, refl, ap, subst, sym, true, false, some, String, arith, leb, Bool-cases, ◌⊎◌, inl, inr,
  ◌+◌,
}
use tspack.Workflow.Flow.{
  MachineEventKind, MachineError, State, Flow, FlowNode, Snapshot, MachineEvent, StepTrace, Result,
  ok, err, >>=-eq-ok,
}
use tspack.Workflow.Snapshot.{
  is_empty, is_live, is_terminal, is_pending, node_at, state_at, flow_node,
}
use tspack.Workflow.Snapshot.States.{Frozen, Frozen-trans, activate_node-Frozen}
use tspack.Workflow.Settle.{settle_control}
use tspack.Workflow.Settle.States.{settle_control-Frozen}
use tspack.Workflow.Settle.Ends.{IsQuiet, settle_control-IsQuiet, IsQuiet-same}
use tspack.Workflow.Effects.{Progress, cancel_all}
use tspack.Workflow.Effects.States.{
  start_effect-Frozen, finish_effect-Frozen, cancel_all-Frozen, cancel_all-dead,
}
use tspack.Workflow.Machine.{
  append_trace, start_machine, handle_event, with_limits, first_trace, advance, stepped, step,
}

start_machine-Frozen :
    (flow : Flow) (s t : Snapshot) (a b : StepTrace)
    → start_machine flow (s, a) ≡ ok (t, b)
    → Frozen s t
unfolding start_machine node_at
start_machine-Frozen flow s t a b h = elim (Bool-cases (is_pending s.status)) [
  | inl pending ↦
      let made = rw pending at h in
      λ k live.
        ground
          (arith, activate_node-Frozen flow (record s { status = State.running }) flow.entry k live)
  | inr begun ↦ let refused = rw begun at h in cc
]

handle_event-Frozen :
    (flow : Flow) (event : MachineEvent) (kind : MachineEventKind) (s t : Snapshot)
    (a b : StepTrace)
    → handle_event flow event kind (s, a) ≡ ok (t, b)
    → Frozen s t
unfolding handle_event
handle_event-Frozen flow event MachineEventKind.start s t a b h =
    start_machine-Frozen flow s t a b h
handle_event-Frozen flow event MachineEventKind.effect_started s t a b h =
    start_effect-Frozen flow event s t a b h
handle_event-Frozen flow event MachineEventKind.cancel_requested s t a b h =
    elim (Bool-cases (is_empty event.node)) [
      | inl whole ↦
          let e = rw whole at h in λ k live. ground (arith, cancel_all-Frozen flow s k live)
      | inr one ↦ finish_effect-Frozen flow event s t a b (rw one at h)
    ]
handle_event-Frozen flow event MachineEventKind.continue s t a b h = λ k live. cc
handle_event-Frozen flow event _ s t a b h = finish_effect-Frozen flow event s t a b h

-- What a successful `advance` has done: the event was handled, the control nodes were settled, and
-- the trace was appended.
pub advance-eq-ok :
    (flow : Flow) (s t : Snapshot) (event : MachineEvent) (b : StepTrace)
    → advance flow s event ≡ ok (t, b)
    → (u v : Snapshot) × (a : StepTrace) × (handle_event flow event event.kind
          (record s { step_count = s.step_count + 1 }, first_trace s event)
        ≡ ok (u, a))
      × (settle_control flow u ≡ ok v)
      × (t ≡ append_trace v b)
      × (leb s.step_limit s.step_count ≡ false)
unfolding advance
advance-eq-ok flow s t event b h = elim (Bool-cases (leb s.step_limit s.step_count)) [
  | inl out ↦ let refused = rw out at h in cc
  | inr room ↦
      let ((u, a), handled, rest) =
        >>=-eq-ok
          (handle_event flow event event.kind
            (record s { step_count = s.step_count + 1 }, first_trace s event))
          _ (rw room at h) in
      let (v, settled, made) = >>=-eq-ok (settle_control flow u) _ rest in
      (u, v, a, handled, settled, ground arith, room)
]

advance-Frozen :
    (flow : Flow) (s t : Snapshot) (event : MachineEvent) (b : StepTrace)
    → advance flow s event ≡ ok (t, b)
    → Frozen s t
unfolding append_trace node_at
advance-Frozen flow s t event b h =
    let (u, v, a, handled, settled, e, _) = advance-eq-ok flow s t event b h in
    let counted : Snapshot = record s { step_count = s.step_count + 1 } in
    let steady : Frozen counted v =
      Frozen-trans counted u v
        (handle_event-Frozen flow event event.kind counted u (first_trace s event) a handled)
        (settle_control-Frozen flow u v settled) in
    λ k live. ground (arith, steady k live)

-- `step` gives the snapshot of `advance`, or the snapshot that it was given, with its limits.
pub step-cases :
    (flow : Flow) (s : Snapshot) (event : MachineEvent)
    → ((t : Snapshot) × (b : StepTrace) × (advance flow (with_limits s) event ≡ ok (t, b))
        × (step flow s event ≡ (t, ok b)))
      ⊎ ((e : MachineError) × (step flow s event ≡ (with_limits s, err e)))
unfolding step
step-cases flow s event = go (advance flow (with_limits s) event) refl
  where
    go :
        (r : Result Progress)
        → advance flow (with_limits s) event ≡ r
        → ((t : Snapshot) × (b : StepTrace) × (advance flow (with_limits s) event ≡ ok (t, b))
            × (stepped (with_limits s) r ≡ (t, ok b)))
          ⊎ ((e : MachineError) × (stepped (with_limits s) r ≡ (with_limits s, err e)))
    go (ok (t, b)) e = inl (t, b, e, refl)
    go (err x) e = inr (x, refl)

-- The state that a successful `step` returns is the one that `advance` built.
pub step-eq-ok :
    (flow : Flow) (s : Snapshot) (event : MachineEvent) (b : StepTrace)
    → (step flow s event).1 ≡ ok b
    → advance flow (with_limits s) event ≡ ok ((step flow s event).0, b)
step-eq-ok flow s event b h = elim (step-cases flow s event) [
  | inl (t, b', run, e) ↦ cc
  | inr (x, e) ↦ cc
]

-- A step, whether it succeeds or fails, leaves the state of each node that is not pending, waiting
-- or running as it was: what has succeeded, failed, timed out or been cancelled or blocked stays so.
pub step-Frozen :
    (flow : Flow) (s : Snapshot) (event : MachineEvent) (k : String)
    → is_live (state_at s k) ≡ false
    → state_at (step flow s event).0 k ≡ state_at s k
unfolding with_limits node_at
step-Frozen flow s event k live = elim (step-cases flow s event) [
  | inl (t, b, run, e) ↦
      ap (λ r. state_at r.0 k) e ∙ advance-Frozen flow (with_limits s) t event b run k live
  | inr (x, e) ↦ ap (λ r. state_at r.0 k) e
]

-- After a successful step no node of the flow waits with all its dependencies succeeded, and no
-- control node is pending and active.
pub step-IsQuiet :
    (flow : Flow) (s : Snapshot) (event : MachineEvent) (b : StepTrace)
    → (step flow s event).1 ≡ ok b
    → IsQuiet flow.nodes (step flow s event).0
unfolding append_trace
step-IsQuiet flow s event b h =
    let t = (step flow s event).0 in
    let (u, v, a, _, settled, e, _) =
      advance-eq-ok flow (with_limits s) t event b (step-eq-ok flow s event b h) in
    IsQuiet-same flow.nodes v t (ground arith) (ground arith)
      (settle_control-IsQuiet flow u v settled)

handle_event-cancel :
    (flow : Flow) (event : MachineEvent) (s t : Snapshot) (a b : StepTrace)
    → event.node ≡ ""
    → handle_event flow event MachineEventKind.cancel_requested (s, a) ≡ ok (t, b)
    → t ≡ cancel_all flow s
unfolding handle_event
handle_event-cancel flow event s t a b whole h =
    let e : is_empty event.node ≡ true = ap is_empty whole in let made = rw e at h in ground arith

-- After a successful cancel request for the whole machine, no node of the flow but a terminal is
-- pending, waiting or running.
pub step-cancel :
    (flow : Flow) (s : Snapshot) (event : MachineEvent) (b : StepTrace) (i : String) (x : FlowNode)
    → event.kind ≡ MachineEventKind.cancel_requested
    → event.node ≡ ""
    → (step flow s event).1 ≡ ok b
    → flow_node flow i ≡ some x
    → is_terminal x.kind ≡ false
    → is_live (state_at (step flow s event).0 i) ≡ false
unfolding append_trace node_at
step-cancel flow s event b i x kind whole h found control =
    let limited = with_limits s in
    let counted : Snapshot = record limited { step_count = limited.step_count + 1 } in
    let (u, v, a, handled, settled, e, _) =
      advance-eq-ok flow limited (step flow s event).0 event b (step-eq-ok flow s event b h) in
    let cancelled : u ≡ cancel_all flow counted =
      handle_event-cancel flow event counted u (first_trace limited event) a whole (
        subst (λ k. handle_event flow event k (counted, first_trace limited event) ≡ ok (u, a)) kind
          handled) in
    let dead : is_live (state_at u i) ≡ false =
      subst (λ w. is_live (state_at w i) ≡ false) (sym cancelled)
        (cancel_all-dead flow counted i x found control) in
    let kept = settle_control-Frozen flow u v settled i dead in ground arith
