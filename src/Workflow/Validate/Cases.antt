-- ===== src/Workflow/Validate/Cases.antt =====
-- What the loops of `ValidateFlow` in internal/workflow/flow.go over handled cases rule out when they
-- find nothing.
use tspack.Base.Text.{join_nul}
use tspack.Base.{
  is_among, ◌≡◌, ◌∙◌, refl, ap, sym, subst, true, false, not, ◌&&◌, List, [], ◌∷◌, String, Memᴰ,
  str_eq, eq_iff, arith, if◌then◌else◌, Bool-cases, inl, inr,
}
use tspack.Workflow.Flow.{MachineEventKind, FlowNode, Transition}
use tspack.Workflow.Snapshot.{is_effect, is_terminal}
use tspack.Workflow.Validate.{
  Nodes, transition_cases, case_key, results_notes, outcomes_notes, handling_notes, handlings_notes,
  result_events, match_outcomes, predicate_outcomes, is_match, is_predicate, event_name,
}
use tspack.Workflow.Validate.Whole.{unreached_notes}
use tspack.Workflow.Validate.Parts.{append-nil-both, note_if-nil}

-- A case is the key of some transition.
pub case-transition :
    (nodes : Nodes) (key : String) (ts : List Transition)
    → is_among key (transition_cases nodes ts) ≡ true
    → (t : Transition) × Memᴰ t ts × (case_key nodes t ≡ key)
unfolding transition_cases
case-transition nodes key [] h = cc
case-transition nodes key (t ∷ ts) h = elim (Bool-cases (str_eq (case_key nodes t) key)) [
  | inl same ↦ (t, Memᴰ.head refl, ground (arith, eq_iff (case_key nodes t) key))
  | inr other ↦ let (u, at, e) = case-transition nodes key ts (ground arith) in (u, Memᴰ.tail at, e)
]

pub results-handled :
    (cases : List String) (identity : String) (events : List MachineEventKind)
    (e : MachineEventKind)
    → results_notes cases identity events ≡ []
    → Memᴰ e events
    → is_among (join_nul identity (event_name e)) cases ≡ true
unfolding results_notes
results-handled cases identity [] e h m = elim m [ ]
results-handled cases identity (x ∷ events) e h (Memᴰ.head same) =
    subst (λ y. is_among (join_nul identity (event_name y)) cases ≡ true) (sym same)
      (ground
        (arith, note_if-nil _ _ _ (append-nil-both _ (results_notes cases identity events) h).0))
results-handled cases identity (x ∷ events) e h (Memᴰ.tail m) =
    results-handled cases identity events e
      (append-nil-both _ (results_notes cases identity events) h).1 m

pub outcomes-handled :
    (cases : List String) (code identity : String) (outcomes : List String) (o : String)
    → outcomes_notes cases code identity outcomes ≡ []
    → Memᴰ o outcomes
    → is_among (join_nul (join_nul identity (event_name MachineEventKind.continue)) o) cases ≡ true
unfolding outcomes_notes
outcomes-handled cases code identity [] o h m = elim m [ ]
outcomes-handled cases code identity (x ∷ outcomes) o h (Memᴰ.head same) =
    subst
      (λ y.
        is_among (join_nul (join_nul identity (event_name MachineEventKind.continue)) y) cases
        ≡ true)
      (sym same)
      (ground (
        arith,
        note_if-nil _ _ _ (append-nil-both _ (outcomes_notes cases code identity outcomes) h).0,
      ))
outcomes-handled cases code identity (x ∷ outcomes) o h (Memᴰ.tail m) =
    outcomes-handled cases code identity outcomes o
      (append-nil-both _ (outcomes_notes cases code identity outcomes) h).1 m

pub handlings-each :
    (nodes : Nodes) (regions cases : List String) (rest : List FlowNode) (node : FlowNode)
    → handlings_notes nodes regions cases rest ≡ []
    → Memᴰ node rest
    → handling_notes nodes regions cases node ≡ []
unfolding handlings_notes
handlings-each nodes regions cases [] node h m = elim m [ ]
handlings-each nodes regions cases (n ∷ rest) node h (Memᴰ.head e) =
    subst (λ x. handling_notes nodes regions cases x ≡ []) (sym e)
      (append-nil-both (handling_notes nodes regions cases n) _ h).0
handlings-each nodes regions cases (n ∷ rest) node h (Memᴰ.tail m) =
    handlings-each nodes regions cases rest node
      (append-nil-both (handling_notes nodes regions cases n) _ h).1 m

module _ (nodes : Nodes) (regions cases : List String) (node : FlowNode)
    (clean : handling_notes nodes regions cases node ≡ []) where
  pub handling-results :
      is_effect node.kind ≡ true → results_notes cases node.identity result_events ≡ []
  unfolding handling_notes
  handling-results effect =
      let (front, _) = append-nil-both _ _ clean in
      let (front', _) = append-nil-both _ _ front in
      let (_, results) = append-nil-both _ _ front' in
      sym (ap (λ b. if b then results_notes cases node.identity result_events else []) effect)
      ∙ results

  pub handling-match :
      is_match node.kind ≡ true
      → outcomes_notes cases "TSPACK_WORKFLOW_MATCH_NON_EXHAUSTIVE" node.identity match_outcomes
        ≡ []
  unfolding handling_notes
  handling-match kind =
      let (front, _) = append-nil-both _ _ clean in
      let (_, found) = append-nil-both _ _ front in
      sym (
        ap
          (λ b.
            if b
            then outcomes_notes cases "TSPACK_WORKFLOW_MATCH_NON_EXHAUSTIVE" node.identity
                match_outcomes
            else [])
          kind)
      ∙ found

  pub handling-predicate :
      is_predicate node.kind ≡ true
      → outcomes_notes cases "TSPACK_WORKFLOW_PREDICATE_NON_EXHAUSTIVE" node.identity
          predicate_outcomes
        ≡ []
  unfolding handling_notes
  handling-predicate kind =
      let (_, found) = append-nil-both _ _ clean in
      sym (
        ap
          (λ b.
            if b
            then outcomes_notes cases "TSPACK_WORKFLOW_PREDICATE_NON_EXHAUSTIVE" node.identity
                predicate_outcomes
            else [])
          kind)
      ∙ found

pub unreached-each :
    (reachable : List String) (rest : List FlowNode) (node : FlowNode)
    → unreached_notes reachable rest ≡ []
    → Memᴰ node rest
    → is_terminal node.kind ≡ false
    → node.cleanup ≡ false
    → is_among node.identity reachable ≡ true
unfolding unreached_notes
unreached-each reachable [] node h m kind cleanup = elim m [ ]
unreached-each reachable (n ∷ rest) node h (Memᴰ.head e) kind cleanup =
    let (here, later) = append-nil-both _ (unreached_notes reachable rest) h in
    let reached =
      subst
        (λ x.
          not (is_among x.identity reachable) && not (is_terminal x.kind) && not x.cleanup ≡ false)
        (sym e) (note_if-nil _ _ _ here) in
    ground arith
unreached-each reachable (n ∷ rest) node h (Memᴰ.tail m) kind cleanup =
    unreached-each reachable rest node (append-nil-both _ (unreached_notes reachable rest) h).1 m
      kind cleanup
