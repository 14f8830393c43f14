-- ===== src/Workflow/Effects/States.antt =====
-- How the effect events of `Step` in internal/workflow/machine.go change the states of the nodes.
use mathlib.Core.Option
use tspack.Base.{
  ◌≡◌, ◌∙◌, refl, ap, subst, sym, true, false, Option, none, some, List, [], ◌∷◌, String, eq_iff,
  lookup, put, lookup-put, arith, Bool-cases, inl, inr, Map,
}
use tspack.Workflow.Flow.{
  MachineEventKind, TerminalKind, State, Flow, FlowNode, NodeSnapshot, Snapshot, MachineEvent,
  StepTrace, NativeResult, AggregateDefinition, ok, >>=-eq-ok,
}
use tspack.Workflow.Snapshot.{
  is_live, is_pending, is_running, is_effect, is_terminal, or_zero, node_at, state_at, flow_node,
  activate_node, remove_active,
}
use tspack.Workflow.Snapshot.States.{Frozen, Frozen-trans, activate_node-Frozen}
use tspack.Workflow.Transitions.{Selection, select_transition}
use tspack.Workflow.Effects.{
  contains_state, check_allowed, check_effect, require_effect_state, effect_operation,
  finished_node, finish_node, record_loop, record_aggregate_outcome, store_value, store_outcome,
  store_cleanup, cancel_entry, cancel_entries, cancel_all, start_effect, finish_effect, result_kind,
}

check_allowed-eq-ok :
    (node : FlowNode) (i : String) (allowed : List State) (o : Option NodeSnapshot) (x : FlowNode)
    (n : NodeSnapshot)
    → check_allowed node i allowed o ≡ ok (x, n)
    → (o ≡ some n) × (x ≡ node) × (contains_state allowed n.state ≡ true)
check_allowed-eq-ok node i allowed none x n h = cc
check_allowed-eq-ok node i allowed (some m) x n h = ground arith

check_effect-eq-ok :
    (s : Snapshot) (i : String) (allowed : List State) (o : Option FlowNode) (x : FlowNode)
    (n : NodeSnapshot)
    → check_effect s i allowed o ≡ ok (x, n)
    → (o ≡ some x)
      × (is_effect x.kind ≡ true)
      × (lookup i s.nodes ≡ some n)
      × (contains_state allowed n.state ≡ true)
check_effect-eq-ok s i allowed none x n h = cc
check_effect-eq-ok s i allowed (some node) x n h = elim (Bool-cases (is_effect node.kind)) [
  | inl effect ↦
      let (found, same, fits) =
        check_allowed-eq-ok node i allowed (lookup i s.nodes) x n (rw effect at h) in
      (cc, rw same effect, found, fits)
  | inr other ↦ let refused = rw other at h in cc
]

-- What a successful `require_effect_state` has found: an effect node of the flow with an allowed
-- state in the snapshot.
pub require_effect_state-eq-ok :
    (flow : Flow) (s : Snapshot) (i : String) (allowed : List State) (x : FlowNode)
    (n : NodeSnapshot)
    → require_effect_state flow s i allowed ≡ ok (x, n)
    → (flow_node flow i ≡ some x)
      × (is_effect x.kind ≡ true)
      × (lookup i s.nodes ≡ some n)
      × (contains_state allowed n.state ≡ true)
unfolding require_effect_state
require_effect_state-eq-ok flow s i allowed x n h =
    check_effect-eq-ok s i allowed (flow_node flow i) x n h

nodes-record_loop :
    (definitions : List AggregateDefinition) (s : Snapshot) (value : String)
    (outcome : TerminalKind)
    → (record_loop definitions s value outcome).nodes ≡ s.nodes
unfolding record_loop
nodes-record_loop [] s value outcome = refl
nodes-record_loop (d ∷ rest) s value outcome =
    ground (arith, nodes-record_loop rest s value outcome)

nodes-store_value :
    (s : Snapshot) (x : FlowNode) (r : Option NativeResult) → (store_value s x r).nodes ≡ s.nodes
unfolding store_value
nodes-store_value s x none = refl
nodes-store_value s x (some r) = ground arith

nodes-store_outcome :
    (flow : Flow) (s : Snapshot) (x : FlowNode) (kind : MachineEventKind)
    → (store_outcome flow s x kind).nodes ≡ s.nodes
unfolding store_outcome record_aggregate_outcome
nodes-store_outcome flow s x kind = ground (
  arith,
  nodes-record_loop flow.aggregates
      (record s { outcomes = put x.value (result_kind kind) s.outcomes }) x.value
      (result_kind kind),
)

nodes-store_cleanup :
    (s : Snapshot) (x : FlowNode) (event : MachineEvent) → (store_cleanup s x event).nodes ≡ s.nodes
unfolding store_cleanup
nodes-store_cleanup s x event = ground arith

-- Ending an effect writes the finished node, and no other.
pub nodes-finish_node :
    (flow : Flow) (s : Snapshot) (x : FlowNode) (n : NodeSnapshot) (event : MachineEvent)
    → (finish_node flow s x n event).nodes ≡ put event.node (finished_node event n) s.nodes
unfolding finish_node remove_active
nodes-finish_node flow s x n event =
    let a = store_value s x event.result in
    let b = store_outcome flow a x event.kind in
    ap (put event.node (finished_node event n)) (
      nodes-store_cleanup b x event
      ∙ nodes-store_outcome flow a x event.kind
      ∙ nodes-store_value s x event.result)

-- A map that differs at one live node freezes the others.
put-Frozen :
    (s t : Snapshot) (i : String) (n m : NodeSnapshot)
    → lookup i s.nodes ≡ some n
    → is_live n.state ≡ true
    → t.nodes ≡ put i m s.nodes
    → Frozen s t
unfolding node_at
put-Frozen s t i n m found live e k h =
    ground (arith, eq_iff i k, lookup-put i k m s.nodes, ap (lookup k) e)

-- An effect that was started was pending, and is running.
pub start_effect-eq-ok :
    (flow : Flow) (event : MachineEvent) (s t : Snapshot) (a b : StepTrace)
    → start_effect flow event (s, a) ≡ ok (t, b)
    → (x : FlowNode) × (n : NodeSnapshot) × (flow_node flow event.node ≡ some x)
      × (is_effect x.kind ≡ true)
      × (lookup event.node s.nodes ≡ some n)
      × (is_pending n.state ≡ true)
      × (t ≡ record s { nodes = put event.node (record n { state = State.running }) s.nodes })
unfolding start_effect
start_effect-eq-ok flow event s t a b h =
    let ((x, n), found, rest) =
      >>=-eq-ok (require_effect_state flow s event.node (State.running ∷ State.pending ∷ [])) _ h in
    let (is_node, effect, held, _) =
      require_effect_state-eq-ok flow s event.node (State.running ∷ State.pending ∷ []) x n found in
    elim (Bool-cases (is_pending n.state)) [
      | inl pending ↦
          let (operation, _, made) =
            >>=-eq-ok (effect_operation x x.effect) _ (rw pending at rest) in
          (x, n, is_node, effect, held, pending, ground arith)
      | inr busy ↦ let refused = rw busy at rest in cc
    ]

-- An effect that ended was running, and one transition leaves its node on the event.
pub finish_effect-eq-ok :
    (flow : Flow) (event : MachineEvent) (s t : Snapshot) (a b : StepTrace)
    → finish_effect flow event (s, a) ≡ ok (t, b)
    → (x : FlowNode) × (n : NodeSnapshot) × (chosen : Selection) × (flow_node flow event.node
        ≡ some x)
      × (lookup event.node s.nodes ≡ some n)
      × (is_running n.state ≡ true)
      × (select_transition flow event.node event.kind ≡ ok chosen)
      × (t ≡ activate_node flow (finish_node flow s x n event) chosen.0.to)
unfolding finish_effect
finish_effect-eq-ok flow event s t a b h =
    let ((x, n), found, rest) =
      >>=-eq-ok (require_effect_state flow s event.node (State.running ∷ [])) _ h in
    let (is_node, effect, held, allowed) =
      require_effect_state-eq-ok flow s event.node (State.running ∷ []) x n found in
    let (operation, _, rest') = >>=-eq-ok (effect_operation x x.effect) _ rest in
    let (chosen, selected, made) =
      >>=-eq-ok (select_transition flow event.node event.kind) _ rest' in
    (x, n, chosen, is_node, held, ground arith, selected, ground arith)

pub start_effect-Frozen :
    (flow : Flow) (event : MachineEvent) (s t : Snapshot) (a b : StepTrace)
    → start_effect flow event (s, a) ≡ ok (t, b)
    → Frozen s t
start_effect-Frozen flow event s t a b h =
    let (x, n, _, _, held, pending, e) = start_effect-eq-ok flow event s t a b h in
    put-Frozen s t event.node n (record n { state = State.running }) held (ground arith)
      (ap (λ u. u.nodes) e)

pub finish_effect-Frozen :
    (flow : Flow) (event : MachineEvent) (s t : Snapshot) (a b : StepTrace)
    → finish_effect flow event (s, a) ≡ ok (t, b)
    → Frozen s t
finish_effect-Frozen flow event s t a b h =
    let (x, n, chosen, _, held, running, _, e) = finish_effect-eq-ok flow event s t a b h in
    let ended = finish_node flow s x n event in
    subst (Frozen s) (sym e) (
      Frozen-trans s ended (activate_node flow ended chosen.0.to)
        (put-Frozen s ended event.node n (finished_node event n) held (ground arith)
          (nodes-finish_node flow s x n event))
        (activate_node-Frozen flow ended chosen.0.to))

cancel_entry-state :
    (x : Option FlowNode) (n : NodeSnapshot)
    → is_live n.state ≡ false
    → (cancel_entry x n).state ≡ n.state
unfolding cancel_entry
cancel_entry-state none n h = refl
cancel_entry-state (some x) n h = ground arith

-- Cancelling the machine maps each entry of `Nodes` by its node.
pub lookup-cancel_entries :
    (flow : Flow) (k : String) (m : Map NodeSnapshot)
    → lookup k (cancel_entries flow m) ≡ Option.map (cancel_entry (flow_node flow k)) (lookup k m)
unfolding cancel_entries lookup
lookup-cancel_entries flow k [] = refl
lookup-cancel_entries flow k ((i, n) ∷ m) =
    ground (arith, eq_iff i k, lookup-cancel_entries flow k m)

abbrev pub entry_state : Option FlowNode → Option NodeSnapshot → State
entry_state x o = (or_zero (Option.map (cancel_entry x) o)).state

entry_state-settled :
    (x : Option FlowNode) (o : Option NodeSnapshot)
    → is_live (or_zero o).state ≡ false
    → entry_state x o ≡ (or_zero o).state
entry_state-settled x none h = refl
entry_state-settled x (some n) h = cancel_entry-state x n h

abbrev cancelled : Flow → Snapshot → Snapshot
cancelled flow s = record s { nodes = cancel_entries flow s.nodes; active = [] }

cancelled-state_at :
    (flow : Flow) (s : Snapshot) (k : String)
    → state_at (cancelled flow s) k ≡ entry_state (flow_node flow k) (lookup k s.nodes)
unfolding node_at
cancelled-state_at flow s k = ap (λ o. (or_zero o).state) (lookup-cancel_entries flow k s.nodes)

cancelled-Frozen : (flow : Flow) (s : Snapshot) → Frozen s (cancelled flow s)
unfolding node_at
cancelled-Frozen flow s k h =
    cancelled-state_at flow s k ∙ entry_state-settled (flow_node flow k) (lookup k s.nodes) h

pub cancel_all-Frozen : (flow : Flow) (s : Snapshot) → Frozen s (cancel_all flow s)
unfolding cancel_all
cancel_all-Frozen flow s =
    Frozen-trans s (cancelled flow s) _ (cancelled-Frozen flow s)
      (activate_node-Frozen flow (cancelled flow s) flow.terminals.cancelled)

entry_state-dead :
    (x : FlowNode) (o : Option NodeSnapshot)
    → is_terminal x.kind ≡ false
    → is_live (entry_state (some x) o) ≡ false
unfolding cancel_entry
entry_state-dead x none h = refl
entry_state-dead x (some n) h = ground arith

-- After a cancel of the whole machine no node but a terminal is live.
pub cancel_all-dead :
    (flow : Flow) (s : Snapshot) (i : String) (x : FlowNode)
    → flow_node flow i ≡ some x
    → is_terminal x.kind ≡ false
    → is_live (state_at (cancel_all flow s) i) ≡ false
unfolding cancel_all
cancel_all-dead flow s i x found h =
    let e : state_at (cancelled flow s) i ≡ entry_state (some x) (lookup i s.nodes) =
      cancelled-state_at flow s i ∙ ap (λ o. entry_state o (lookup i s.nodes)) found in
    let dead : is_live (state_at (cancelled flow s) i) ≡ false =
      subst (λ v. is_live v ≡ false) (sym e) (entry_state-dead x (lookup i s.nodes) h) in
    subst (λ v. is_live v ≡ false)
      (sym (activate_node-Frozen flow (cancelled flow s) flow.terminals.cancelled i dead)) dead
