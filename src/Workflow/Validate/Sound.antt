-- ===== src/Workflow/Validate/Sound.antt =====
-- What a flow without diagnostics of `ValidateFlow` in internal/workflow/flow.go promises to the
-- machine of internal/workflow/machine.go.
use tspack.Base.Text.{join_nul}
use mathlib.Core.WellFounded.{Acc}
use tspack.Base.{
  all-Mem, is_among, suc, ◌≡◌, ◌∙◌, refl, ap, sym, subst, true, false, some, [], ◌∷◌, String, Memᴰ,
  lookup, length, all, arith, inl, inr, ◌⊎◌,
}
use tspack.Workflow.Flow.{
  NodeKind, MachineEventKind, FlowNode, Transition, Flow, ok, result_unhandled, match_unhandled,
}
use tspack.Workflow.Snapshot.{is_effect, is_terminal}
use tspack.Workflow.Transitions.{
  leaves, leaves_guarded, select_transition, select_guarded_transition,
}
use tspack.Workflow.Transitions.Unique.{
  only, select_transition-only, select_guarded_transition-only,
}
use tspack.Workflow.Graph.{adjacency_of, Adjacency, visit}
use tspack.Workflow.Graph.Walks.{Walk}
use tspack.Workflow.Graph.Cycles.{Follows, visit-Acc}
use tspack.Workflow.Graph.Ends.{visit_returns, mark_reachable_returns}
use tspack.Workflow.Graph.Marking.{mark_reachable_iff}
use tspack.Workflow.Validate.{
  known_nodes, nodes_notes, transitions_notes, transition_cases, handlings_notes, is_match,
  is_predicate, is_guarded, match_outcomes, predicate_outcomes, result_events, event_name,
  header_notes, note_if, is_missing, regions_notes,
}
use tspack.Workflow.Validate.Aggregates.{values_notes}
use tspack.Workflow.Validate.Whole.{
  unreached_notes, reachable_from, marked_or_none, cycle_notes, found_cycle, region_names,
  flow_notes, validate_flow,
}
use tspack.Workflow.Validate.Keys.{
  no_nul, leaves-case_key, leaves_guarded-case_key, case_key-leaves, case_key-leaves_guarded,
}
use tspack.Workflow.Validate.Parts.{
  append-nil-both, note_if-nil, sort_strings-nil, lookup-add_known, keep-only,
}
use tspack.Workflow.Validate.Cases.{
  case-transition, results-handled, outcomes-handled, handlings-each, handling-results,
  handling-match, handling-predicate, unreached-each,
}

-- The parts of a validation that found nothing.
record Clean (flow : Flow) : Type 0 where
  nodes : nodes_notes [] flow.nodes ≡ []
  transitions : transitions_notes (known_nodes flow) [] [] flow.transitions ≡ []
  handlings :
      handlings_notes
        (known_nodes flow)
        (region_names flow)
        (transition_cases (known_nodes flow) flow.transitions)
        flow.nodes
      ≡ []
  reached : unreached_notes (reachable_from (adjacency_of flow) flow.entry) flow.nodes ≡ []
  acyclic : cycle_notes (adjacency_of flow) flow.entry ≡ []

validate_flow-Clean : (flow : Flow) → validate_flow flow ≡ [] → Clean flow
unfolding validate_flow flow_notes
validate_flow-Clean flow h =
    let known = known_nodes flow in
    let adjacency = adjacency_of flow in
    let (_, r1) = append-nil-both (header_notes flow) _ (sort_strings-nil (flow_notes flow) h) in
    let (nodes, r2) = append-nil-both (nodes_notes [] flow.nodes) _ r1 in
    let (_, r3) =
      append-nil-both
        (note_if (is_missing (lookup flow.entry known)) "TSPACK_WORKFLOW_ENTRY_UNKNOWN"
          "entry node does not exist")
        _ r2 in
    let (_, r4) = append-nil-both (regions_notes [] flow.regions) _ r3 in
    let (transitions, r5) = append-nil-both (transitions_notes known [] [] flow.transitions) _ r4 in
    let (handlings, r6) =
      append-nil-both
        (handlings_notes known (region_names flow) (transition_cases known flow.transitions)
          flow.nodes)
        _ r5 in
    let (_, r7) = append-nil-both (values_notes flow) _ r6 in
    let (reached, acyclic) =
      append-nil-both (unreached_notes (reachable_from adjacency flow.entry) flow.nodes)
        (cycle_notes adjacency flow.entry) r7 in
    record {
      nodes = nodes;
      transitions = transitions;
      handlings = handlings;
      reached = reached;
      acyclic = acyclic;
    }

-- No walk along a valid flow from its entry goes on for ever.
pub validate_flow-Acc :
    (flow : Flow) → validate_flow flow ≡ [] → Acc (Follows (adjacency_of flow)) flow.entry
unfolding cycle_notes
validate_flow-Acc flow h =
    let c = validate_flow-Clean flow h in
    let adjacency = adjacency_of flow in
    let (b, next, e) = visit_returns adjacency flow.entry in
    let quiet : b ≡ false =
      sym (ap found_cycle e)
      ∙ note_if-nil (found_cycle (visit (suc (length adjacency)) adjacency flow.entry []))
          "TSPACK_WORKFLOW_CYCLE_UNBOUNDED"
          "runtime cycles are not supported until an explicit bounded loop construct exists"
          c.acyclic in
    visit-Acc (suc (length adjacency)) adjacency flow.entry next
      (e ∙ ap (λ x. some (x, next)) quiet)

-- The names that `markReachable` collects from a node are just those that a walk leads to.
pub reachable_from_iff :
    (adjacency : Adjacency) (v u : String)
    → (is_among u (reachable_from adjacency v) ≡ true → Walk adjacency v u)
      × (Walk adjacency v u → is_among u (reachable_from adjacency v) ≡ true)
unfolding reachable_from
reachable_from_iff adjacency v u =
    let (next, e) = mark_reachable_returns adjacency v in
    let (sound, complete) = mark_reachable_iff adjacency (suc (length adjacency)) v next e u in
    (
      λ at. sound (subst (λ o. is_among u (marked_or_none o) ≡ true) e at),
      λ w. subst (λ o. is_among u (marked_or_none o) ≡ true) (sym e) (complete w),
    )

-- A walk leads from the entry of a valid flow to each node but terminals and cleanups.
pub validate_flow-Walk :
    (flow : Flow) (node : FlowNode)
    → validate_flow flow ≡ []
    → Memᴰ node flow.nodes
    → is_terminal node.kind ≡ false
    → node.cleanup ≡ false
    → Walk (adjacency_of flow) flow.entry node.identity
validate_flow-Walk flow node h m kind cleanup =
    let c = validate_flow-Clean flow h in
    let adjacency = adjacency_of flow in
    (reachable_from_iff adjacency flow.entry node.identity).0 (
      unreached-each (reachable_from adjacency flow.entry) flow.nodes node c.reached m kind cleanup)

-- No source of a transition has a NUL.
abbrev pub IsClear : Flow → Type 0
IsClear flow = all (λ t. no_nul t.from) flow.transitions ≡ true

module _ (flow : Flow) (node : FlowNode) (valid : validate_flow flow ≡ []) (clear : IsClear flow)
    (m : Memᴰ node flow.nodes) (plain : no_nul node.identity ≡ true) where
  node-known : lookup node.identity (known_nodes flow) ≡ some node
  unfolding known_nodes
  node-known = lookup-add_known [] flow.nodes node (validate_flow-Clean flow valid).nodes m

  effect-plain : is_effect node.kind ≡ true → is_guarded node.kind ≡ false
  effect-plain effect = effect_kind node.kind effect
    where
      effect_kind : (k : NodeKind) → is_effect k ≡ true → is_guarded k ≡ false
      effect_kind NodeKind.effect h = refl
      effect_kind NodeKind.entry h = refl
      effect_kind NodeKind.fork h = refl
      effect_kind NodeKind.join h = refl
      effect_kind NodeKind.branch_exit h = refl
      effect_kind NodeKind.iterator h = refl
      effect_kind NodeKind.terminal h = refl
      effect_kind NodeKind.match h = cc
      effect_kind NodeKind.predicate h = cc

  -- In a valid flow whose identities have no NUL, `selectTransition` finds a transition for each
  -- effect and each of the results that the machine reports.
  pub select_transition-valid :
      (e : MachineEventKind)
      → is_effect node.kind ≡ true
      → Memᴰ e result_events
      → (t : Transition) × Memᴰ t flow.transitions
        × (select_transition flow node.identity e ≡ ok (t, t.identity ∷ []))
  select_transition-valid e effect among =
      let c = validate_flow-Clean flow valid in
      let nodes = known_nodes flow in
      let cases = transition_cases nodes flow.transitions in
      let clean = handlings-each nodes (region_names flow) cases flow.nodes node c.handlings m in
      let handled =
        results-handled cases node.identity result_events e
          (handling-results nodes (region_names flow) cases node clean effect) among in
      let key = join_nul node.identity (event_name e) in
      let (t, at, named) = case-transition nodes key flow.transitions handled in
      let passes =
        leaves-case_key nodes t node.identity e
          (all-Mem (λ (t : Transition). no_nul t.from) flow.transitions t clear at) plain named in
      (
        t,
        at,
        select_transition-only flow node.identity e
            ∙ ap (only (result_unhandled node.identity e) node.identity) (
                keep-only nodes (leaves node.identity e) key [] [] flow.transitions t
                  (λ u. case_key-leaves nodes u node e node-known (effect-plain effect))
                  c.transitions at passes),
      )

  -- The transition of a guarded node for an outcome that is among the cases.
  guarded-valid :
      (o : String)
      → is_guarded node.kind ≡ true
      → is_among
          (join_nul (join_nul node.identity (event_name MachineEventKind.continue)) o)
          (transition_cases (known_nodes flow) flow.transitions)
        ≡ true
      → (t : Transition) × Memᴰ t flow.transitions
        × (select_guarded_transition flow node.identity MachineEventKind.continue o
            ≡ ok (t, t.identity ∷ []))
  guarded-valid o guarded handled =
      let c = validate_flow-Clean flow valid in
      let nodes = known_nodes flow in
      let key = join_nul (join_nul node.identity (event_name MachineEventKind.continue)) o in
      let (t, at, named) = case-transition nodes key flow.transitions handled in
      let passes =
        leaves_guarded-case_key nodes t node.identity MachineEventKind.continue o
          (all-Mem (λ (t : Transition). no_nul t.from) flow.transitions t clear at) plain named in
      (
        t,
        at,
        select_guarded_transition-only flow node.identity MachineEventKind.continue o
            ∙ ap (only (match_unhandled node.identity o) node.identity) (
                keep-only nodes (leaves_guarded node.identity MachineEventKind.continue o) key [] []
                  flow.transitions t
                  (λ u.
                    case_key-leaves_guarded nodes u node MachineEventKind.continue o node-known
                      guarded)
                  c.transitions at passes),
      )

  -- In a valid flow whose identities have no NUL, `selectGuardedTransition` finds a transition for
  -- each match and each outcome, and for each predicate and each truth value.
  pub select_guarded_transition-valid :
      (o : String)
      → ((is_match node.kind ≡ true) × Memᴰ o match_outcomes)
        ⊎ ((is_predicate node.kind ≡ true) × Memᴰ o predicate_outcomes)
      → (t : Transition) × Memᴰ t flow.transitions
        × (select_guarded_transition flow node.identity MachineEventKind.continue o
            ≡ ok (t, t.identity ∷ []))
  select_guarded_transition-valid o h =
      let c = validate_flow-Clean flow valid in
      let nodes = known_nodes flow in
      let cases = transition_cases nodes flow.transitions in
      let clean = handlings-each nodes (region_names flow) cases flow.nodes node c.handlings m in
      elim h [
        | inl (kind, among) ↦ guarded-valid o (ground arith) (
            outcomes-handled cases "TSPACK_WORKFLOW_MATCH_NON_EXHAUSTIVE" node.identity
              match_outcomes o (handling-match nodes (region_names flow) cases node clean kind)
              among)
        | inr (kind, among) ↦ guarded-valid o (ground arith) (
            outcomes-handled cases "TSPACK_WORKFLOW_PREDICATE_NON_EXHAUSTIVE" node.identity
              predicate_outcomes o
              (handling-predicate nodes (region_names flow) cases node clean kind) among)
      ]
