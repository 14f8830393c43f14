-- ===== src/Workflow/Machine/Bounds.antt =====
-- The step limit and the bounded trace of internal/workflow/machine.go.
use tspack.Base.{
  ℕ, ◌+◌, ◌≤◌, ◌<◌, ◌≡◌, ◌∙◌, ap, subst, sym, List, [], ◌∷◌, ◌++◌, arith, leb, false, length,
  length-append, ◌⊎◌, inl, inr,
}
use tspack.Workflow.Flow.{MachineError, Flow, Snapshot, MachineEvent, StepTrace, ok, err}
use tspack.Workflow.Snapshot.Books.{books}
use tspack.Workflow.Settle.Books.{books-settle_control}
use tspack.Workflow.Initial.{new_snapshot}
use tspack.Workflow.Machine.{drop_first, append_trace, with_limits, first_trace, advance, step}
use tspack.Workflow.Machine.Books.{books-handle_event}
use tspack.Workflow.Machine.States.{advance-eq-ok, step-cases}

-- What the limits and counters of a machine say: the trace never passes its limit, every step is in
-- the trace or counted as dropped, and no more steps were made than allowed.
pub record IsBounded (s : Snapshot) : Type 0 where
  pub traced : length s.trace ≤ s.trace_limit
  pub accounted : length s.trace + s.dropped_trace ≡ s.step_count
  pub limited : s.step_count ≤ s.step_limit

pub with_limits-IsBounded : (s : Snapshot) → IsBounded s → IsBounded (with_limits s)
unfolding with_limits
with_limits-IsBounded s h = ground arith

trace_limit-pos : (s : Snapshot) → 0 < (with_limits s).trace_limit
unfolding with_limits
trace_limit-pos s = ground arith

length-drop_first :
    (xs : List StepTrace) (x : StepTrace)
    → 0 < length xs
    → length (drop_first xs ++ x ∷ []) ≡ length xs
length-drop_first [] x h = absurd (omega arith)
length-drop_first (y ∷ ys) x h = length-append ys (x ∷ []) ∙ omega arith

-- A successful `advance` adds the books of one step to those of the snapshot.
books-advance :
    (flow : Flow) (s t : Snapshot) (event : MachineEvent) (b : StepTrace)
    → advance flow s event ≡ ok (t, b)
    → (v : Snapshot) × (t ≡ append_trace v b)
      × (books v ≡ books (record s { step_count = s.step_count + 1 }))
      × (leb s.step_limit s.step_count ≡ false)
books-advance flow s t event b h =
    let (u, v, a, handled, settled, e, room) = advance-eq-ok flow s t event b h in
    let counted : Snapshot = record s { step_count = s.step_count + 1 } in
    (
      v,
      e,
      books-settle_control flow u v settled
          ∙ books-handle_event flow event event.kind counted u (first_trace s event) a handled,
      room,
    )

advance-IsBounded :
    (flow : Flow) (s t : Snapshot) (event : MachineEvent) (b : StepTrace)
    → advance flow s event ≡ ok (t, b)
    → IsBounded s
    → 0 < s.trace_limit
    → IsBounded t × (t.step_count ≡ s.step_count + 1)
unfolding append_trace
advance-IsBounded flow s t event b run h roomy =
    let (v, e, same, room) = books-advance flow s t event b run in
    ground (
      arith,
      length-append v.trace (b ∷ []),
      length-drop_first v.trace b,
      ap (λ k. k.step_count) same,
      ap (λ k. k.step_limit) same,
      ap (λ k. k.trace) same,
      ap (λ k. k.trace_limit) same,
      ap (λ k. k.dropped_trace) same,
    )

-- A successful step counts one step; a failed one returns the counter unchanged.
pub step-step_count :
    (flow : Flow) (s : Snapshot) (event : MachineEvent)
    → ((b : StepTrace) × ((step flow s event).1 ≡ ok b)
        × ((step flow s event).0.step_count ≡ s.step_count + 1))
      ⊎ ((e : MachineError) × (step flow s event ≡ (with_limits s, err e)))
unfolding append_trace with_limits
step-step_count flow s event = elim (step-cases flow s event) [
  | inl (t, b, run, e) ↦
      let (v, made, same, _) = books-advance flow (with_limits s) t event b run in
      inl (
        b,
        ap (λ r. r.1) e,
        ap (λ r. r.0.step_count) e ∙ ground (arith, ap (λ k. k.step_count) same),
      )
  | inr (x, e) ↦ inr (x, e)
]

-- A step, whether it succeeds or fails, keeps the bounds.
pub step-IsBounded :
    (flow : Flow) (s : Snapshot) (event : MachineEvent)
    → IsBounded s
    → IsBounded (step flow s event).0
step-IsBounded flow s event h =
    let limited = with_limits-IsBounded s h in
    elim (step-cases flow s event) [
      | inl (t, b, run, e) ↦
          subst (λ r. IsBounded r.0) (sym e)
            (advance-IsBounded flow (with_limits s) t event b run limited (trace_limit-pos s)).0
      | inr (x, e) ↦ subst (λ r. IsBounded r.0) (sym e) limited
    ]

-- The snapshots after a sequence of events, each step from where the last one left the machine.
unfoldable pub run : Flow → Snapshot → List MachineEvent → Snapshot
run flow s [] = s
run flow s (event ∷ events) = run flow (step flow s event).0 events

run_from-IsBounded :
    (flow : Flow) (s : Snapshot) (events : List MachineEvent)
    → IsBounded s
    → IsBounded (run flow s events)
unfolding run
run_from-IsBounded flow s [] h = h
run_from-IsBounded flow s (event ∷ events) h =
    run_from-IsBounded flow (step flow s event).0 events (step-IsBounded flow s event h)

new_snapshot-IsBounded :
    (flow : Flow) (steps traces : ℕ) → IsBounded (new_snapshot flow steps traces)
unfolding new_snapshot
new_snapshot-IsBounded flow steps traces = ground arith

-- From a new machine, whatever its limits and the events it is given: the trace is at most as long
-- as its limit, its length and the count of dropped entries make up the steps, and the steps made
-- are at most the step limit.
pub run-IsBounded :
    (flow : Flow) (steps traces : ℕ) (events : List MachineEvent)
    → IsBounded (run flow (new_snapshot flow steps traces) events)
run-IsBounded flow steps traces events =
    run_from-IsBounded flow (new_snapshot flow steps traces) events
      (new_snapshot-IsBounded flow steps traces)
