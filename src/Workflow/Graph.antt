-- ===== src/Workflow/Graph.antt =====
-- The walks over a flow in internal/workflow/flow.go: the adjacency that `ValidateFlow` and
-- `flowNodeReaches` build, the search of the latter, and the closures `markReachable` and `visit`
-- of the former. A set of names is the list of its members. `none` means that the fuel ran out.
pub mod Walks
pub mod Search
pub mod Cycles
pub mod Ends
pub mod Marking
use tspack.Base.{
  is_among, ℕ, zero, suc, ◌+◌, Bool, true, false, Option, none, some, List, [], ◌∷◌, ◌++◌, String,
  Map, str_eq, lookup, put, length, any, ◌==◌, if◌then◌else◌,
}
use tspack.Workflow.Flow.{NodeKind, FlowNode, Transition, Flow}

abbrev pub Adjacency : Type 0
Adjacency = Map (List String)

abbrev or_no_targets : Option (List String) → List String
or_no_targets none = []
or_no_targets (some targets) = targets

-- `adjacency[identity]`.
unfoldable pub targets_of : Adjacency → String → List String
targets_of adjacency identity = or_no_targets (lookup identity adjacency)

-- `adjacency[from] = append(adjacency[from], targets...)`.
unfoldable pub add_targets : Adjacency → String → List String → Adjacency
unfolding targets_of
add_targets adjacency from targets = put from (targets_of adjacency from ++ targets) adjacency

unfoldable pub add_dependencies : Adjacency → String → List String → Adjacency
add_dependencies adjacency identity [] = adjacency
add_dependencies adjacency identity (dependency ∷ rest) =
    add_dependencies (add_targets adjacency dependency (identity ∷ [])) identity rest

abbrev pub is_join : NodeKind → Bool
is_join NodeKind.join = true
is_join _ = false

unfoldable pub add_nodes : Adjacency → List FlowNode → Adjacency
unfolding add_dependencies
add_nodes adjacency [] = adjacency
add_nodes adjacency (node ∷ nodes) =
    let next = add_targets adjacency node.identity node.targets in
    add_nodes
      (if is_join node.kind then add_dependencies next node.identity node.wait_for else next) nodes

unfoldable pub add_transitions : Adjacency → List Transition → Adjacency
add_transitions adjacency [] = adjacency
add_transitions adjacency (t ∷ rest) =
    add_transitions (add_targets adjacency t.from (t.to ∷ [])) rest

unfoldable pub adjacency_of : Flow → Adjacency
unfolding add_nodes add_transitions add_targets
adjacency_of flow = add_transitions (add_nodes [] flow.nodes) flow.transitions

-- The loop of `flowNodeReaches`, over `seen` and `pending`.
unfoldable pub search_loop : ℕ → Adjacency → String → List String → List String → Option Bool
search_loop zero adjacency target seen pending = none
search_loop (suc fuel) adjacency target seen [] = some false
search_loop (suc fuel) adjacency target seen (identity ∷ pending) =
    let skipped = search_loop fuel adjacency target seen pending in
    let expanded =
      search_loop fuel adjacency target (identity ∷ seen)
        (pending ++ targets_of adjacency identity) in
    if str_eq identity target
    then some true
    else if is_among identity seen
    then skipped
    else expanded

-- The targets of the names that are not yet seen.
unfoldable pub unseen_targets : List String → Adjacency → ℕ
unseen_targets seen [] = 0
unseen_targets seen ((name, targets) ∷ rest) =
    (if is_among name seen then 0 else length targets) + unseen_targets seen rest

unfoldable pub search_from : Adjacency → String → String → Option Bool
unfolding search_loop unseen_targets
search_from adjacency from target =
    search_loop (suc (suc (unseen_targets [] adjacency))) adjacency target [] (from ∷ [])

unfoldable pub flow_node_reaches : Flow → String → String → Option Bool
unfolding adjacency_of search_from
flow_node_reaches flow from target = search_from (adjacency_of flow) from target

abbrev pub and_mark :
    Option (List String) → (List String → Option (List String)) → Option (List String)
and_mark none next = none
and_mark (some reachable) next = next reachable

-- The loop over the targets in `markReachable`, with its recursive call.
unfoldable pub mark_all :
    (String → List String → Option (List String)) → List String → List String → Option (List String)
mark_all mark [] reachable = some reachable
mark_all mark (target ∷ targets) reachable =
    and_mark (mark target reachable) (mark_all mark targets)

unfoldable pub mark_reachable : ℕ → Adjacency → String → List String → Option (List String)
unfolding mark_all
mark_reachable zero adjacency identity reachable = none
mark_reachable (suc fuel) adjacency identity reachable =
    let marked =
      mark_all (mark_reachable fuel adjacency) (targets_of adjacency identity)
        (identity ∷ reachable) in
    if is_among identity reachable then some reachable else marked

-- `visitState`: 1 for a name on the stack and 2 for one that is done.
abbrev pub Visits : Type 0
Visits = Map ℕ

abbrev or_unvisited : Option ℕ → ℕ
or_unvisited none = 0
or_unvisited (some n) = n

unfoldable pub visit_state : Visits → String → ℕ
visit_state visits identity = or_unvisited (lookup identity visits)

abbrev pub and_visit :
    Option (Bool × Visits) → (Visits → Option (Bool × Visits)) → Option (Bool × Visits)
and_visit none next = none
and_visit (some (true, visits)) next = some (true, visits)
and_visit (some (false, visits)) next = next visits

-- The loop over the targets in `visit`, with its recursive call.
unfoldable pub visit_all :
    (String → Visits → Option (Bool × Visits)) → List String → Visits → Option (Bool × Visits)
visit_all visit [] visits = some (false, visits)
visit_all visit (target ∷ targets) visits =
    and_visit (visit target visits) (visit_all visit targets)

-- `visitState[identity] = 2` behind the loop.
abbrev pub leave : String → Option (Bool × Visits) → Option (Bool × Visits)
leave identity none = none
leave identity (some (true, visits)) = some (true, visits)
leave identity (some (false, visits)) = some (false, put identity 2 visits)

unfoldable pub visit : ℕ → Adjacency → String → Visits → Option (Bool × Visits)
unfolding visit_all visit_state
visit zero adjacency identity visits = none
visit (suc fuel) adjacency identity visits =
    let below =
      visit_all (visit fuel adjacency) (targets_of adjacency identity) (put identity 1 visits) in
    if visit_state visits identity == 1
    then some (true, visits)
    else if visit_state visits identity == 2
    then some (false, visits)
    else leave identity below
