-- ===== src/Workflow/Transitions/Unique.antt =====
-- The loops that choose a transition in internal/workflow/machine.go find the only eligible one.
use tspack.Base.{
  ◌≡◌, ◌∙◌, refl, ap, sym, Bool, true, List, [], ◌∷◌, ◌++◌, map, String, arith, keep, Bool-cases,
  inl, inr, if◌then◌else◌,
}
use mathlib.Core.List.{append_assoc, append-nil}
use tspack.Workflow.Flow.{
  MachineEventKind, Flow, Transition, MachineError, Result, ok, err, result_unhandled,
  match_unhandled, transition_ambiguous,
}
use tspack.Workflow.Snapshot.{is_empty}
use tspack.Workflow.Transitions.{
  Selection, no_transition, leaves, leaves_guarded, select_loop, selection_result,
  select_transition, select_guarded_transition,
}

-- The only element of a list of transitions, with its identity.
abbrev pub only : MachineError → String → List Transition → Result Selection
only missing from [] = err missing
only missing from (t ∷ []) = ok (t, t.identity ∷ [])
only missing from (_ ∷ _ ∷ _) = err (transition_ambiguous from)

module _ (test : Transition → Bool) where
  eligible-select_loop :
      (selected : Transition) (eligible : List String) (ts : List Transition)
      → (select_loop test selected eligible ts).1 ≡ eligible ++ map (λ t. t.identity) (keep test ts)
  unfolding select_loop
  eligible-select_loop selected eligible [] = sym (append-nil eligible)
  eligible-select_loop selected eligible (t ∷ ts) = elim (Bool-cases (test t)) [
    | inl passes ↦ rw passes (
        eligible-select_loop (if is_empty selected.identity then t else selected)
          (eligible ++ t.identity ∷ []) ts
        ∙ append_assoc eligible _ _)
    | inr fails ↦ rw fails (eligible-select_loop selected eligible ts)
  ]

  selected-select_loop_none :
      (selected : Transition) (eligible : List String) (ts : List Transition)
      → keep test ts ≡ []
      → (select_loop test selected eligible ts).0 ≡ selected
  unfolding select_loop
  selected-select_loop_none selected eligible [] h = refl
  selected-select_loop_none selected eligible (t ∷ ts) h =
      ground (arith, selected-select_loop_none selected eligible ts)

  selected-select_loop :
      (selected t : Transition) (eligible : List String) (ts : List Transition)
      → is_empty selected.identity ≡ true
      → keep test ts ≡ t ∷ []
      → (select_loop test selected eligible ts).0 ≡ t
  unfolding select_loop
  selected-select_loop selected t eligible [] h e = cc
  selected-select_loop selected t eligible (x ∷ ts) h e = ground (
    arith,
    selected-select_loop selected t eligible ts,
    selected-select_loop_none x (eligible ++ x.identity ∷ []) ts,
  )

selection_result-map :
    (missing : MachineError) (from : String) (selected : Transition) (kept : List Transition)
    → ((t : Transition) → kept ≡ t ∷ [] → selected ≡ t)
    → selection_result missing from (selected, map (λ t. t.identity) kept) ≡ only missing from kept
selection_result-map missing from selected [] h = refl
selection_result-map missing from selected (t ∷ []) h =
    ap (λ (x : Transition). Result.ok (x, t.identity ∷ [])) (h t refl)
selection_result-map missing from selected (t ∷ u ∷ rest) h = refl

selection-only :
    (test : Transition → Bool) (missing : MachineError) (from : String) (ts : List Transition)
    → selection_result missing from (select_loop test no_transition [] ts)
      ≡ only missing from (keep test ts)
selection-only test missing from ts =
    ap (λ l. selection_result missing from ((select_loop test no_transition [] ts).0, l))
      (eligible-select_loop test no_transition [] ts)
    ∙ selection_result-map missing from (select_loop test no_transition [] ts).0 (keep test ts)
        (λ t e. selected-select_loop test no_transition t [] ts refl e)

-- `select_transition` returns the only transition that leaves the node on the event, with its
-- identity; it fails as unhandled where there is none, and as ambiguous where there are more.
pub select_transition-only :
    (flow : Flow) (from : String) (event : MachineEventKind)
    → select_transition flow from event
      ≡ only (result_unhandled from event) from (keep (leaves from event) flow.transitions)
unfolding select_transition
select_transition-only flow from event =
    selection-only (leaves from event) (result_unhandled from event) from flow.transitions

-- `select_guarded_transition` does so among the transitions with the guard.
pub select_guarded_transition-only :
    (flow : Flow) (from : String) (event : MachineEventKind) (guard : String)
    → select_guarded_transition flow from event guard
      ≡ only
          (match_unhandled from guard)
          from
          (keep (leaves_guarded from event guard) flow.transitions)
unfolding select_guarded_transition
select_guarded_transition-only flow from event guard =
    selection-only (leaves_guarded from event guard) (match_unhandled from guard) from
      flow.transitions
