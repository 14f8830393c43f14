-- ===== src/Workflow/Transitions.antt =====
-- The choice of a transition in internal/workflow/machine.go.
pub mod Unique
use tspack.Base.{
  ℕ, Bool, not, ◌&&◌, Option, none, some, List, [], ◌∷◌, ◌++◌, String, str_eq, ◌==◌, if◌then◌else◌,
}
use tspack.Workflow.Flow.{
  TerminalKind, MachineEventKind, Flow, Transition, Result, ok, err, MachineError, result_unhandled,
  match_unhandled, transition_ambiguous,
}
use tspack.Workflow.Snapshot.{is_empty}

abbrev pub event_index : MachineEventKind → ℕ
event_index MachineEventKind.start = 0
event_index MachineEventKind.continue = 1
event_index MachineEventKind.effect_started = 2
event_index MachineEventKind.effect_succeeded = 3
event_index MachineEventKind.effect_failed = 4
event_index MachineEventKind.cancel_requested = 5
event_index MachineEventKind.timeout = 6

abbrev pub event_eq : MachineEventKind → MachineEventKind → Bool
event_eq a b = event_index a == event_index b

-- `string(outcome)`.
abbrev pub terminal_name : TerminalKind → String
terminal_name TerminalKind.unset = ""
terminal_name TerminalKind.succeeded = "succeeded"
terminal_name TerminalKind.failed = "failed"
terminal_name TerminalKind.cancelled = "cancelled"
terminal_name TerminalKind.timed_out = "timedOut"

-- The zero value of the variable `selected`.
abbrev pub no_transition : Transition
no_transition = record {
  identity = "";
  from = "";
  event = MachineEventKind.start;
  guard = "";
  to = "";
}

abbrev pub Selection : Type 0
Selection = Transition × List String

abbrev pub leaves : String → MachineEventKind → Transition → Bool
leaves from event t = str_eq t.from from && event_eq t.event event

abbrev pub leaves_guarded : String → MachineEventKind → String → Transition → Bool
leaves_guarded from event guard t =
    str_eq t.from from && event_eq t.event event && str_eq t.guard guard

-- The loop of `selectTransition` and `selectGuardedTransition`, over its two variables.
unfoldable pub select_loop :
    (Transition → Bool) → Transition → List String → List Transition → Selection
select_loop test selected eligible [] = (selected, eligible)
select_loop test selected eligible (t ∷ rest) =
    if not (test t)
    then select_loop test selected eligible rest
    else select_loop test (if is_empty selected.identity then t else selected)
        (eligible ++ t.identity ∷ []) rest

-- The checks behind the loop: nothing eligible, or more than one.
abbrev pub selection_result : MachineError → String → Selection → Result Selection
selection_result missing from (selected, []) = err missing
selection_result missing from (selected, identity ∷ []) = ok (selected, identity ∷ [])
selection_result missing from (selected, _ ∷ _ ∷ _) = err (transition_ambiguous from)

unfoldable pub select_transition : Flow → String → MachineEventKind → Result Selection
unfolding select_loop
select_transition flow from event =
    selection_result (result_unhandled from event) from
      (select_loop (leaves from event) no_transition [] flow.transitions)

unfoldable pub select_guarded_transition :
    Flow → String → MachineEventKind → String → Result Selection
unfolding select_loop
select_guarded_transition flow from event guard =
    selection_result (match_unhandled from guard) from
      (select_loop (leaves_guarded from event guard) no_transition [] flow.transitions)

optional_loop : String → MachineEventKind → List Transition → Option Transition
optional_loop from event [] = none
optional_loop from event (t ∷ rest) =
    if leaves from event t then some t else optional_loop from event rest

unfoldable pub optional_transition : Flow → String → MachineEventKind → Option Transition
unfolding optional_loop
optional_transition flow from event = optional_loop from event flow.transitions
