-- ===== src/Lib.antt =====
-- A model of tspack, a package and workflow tool for TypeScript projects, and of what makes its
-- core right. Paths are from the root of the repository.
--
-- The parts and their files:
--   Base, Base/*            lists, members, maps and text that the components share. A Go map is an
--                           association list with one entry per key (Base/Maps).
--   Workflow/Flow           the types of internal/workflow/flow.go and executor.go that the
--                           workflow machine reads and writes, and its errors.
--   Workflow/Snapshot       reads and writes of a snapshot in internal/workflow/machine.go:
--                           flowNode, addActive, removeActive, dependenciesComplete,
--                           activateNode, cancelNonterminalNodes.
--   Workflow/Predicate      evaluatePredicate and projectedFact.
--   Workflow/Transitions    selectTransition, selectGuardedTransition, optionalTransition.
--   Workflow/Settle         settleControl, which runs the control nodes until nothing changes.
--   Workflow/Initial        NewSnapshot and initialAggregates.
--   Workflow/Effects        the events of effects: requireEffectState, recordAggregateOutcome,
--                           and the cases of Step for a start, a result and a cancel request.
--   Workflow/Machine        Step with its guards, and appendTrace. Step calls the effect events
--                           and then settleControl, which calls the transitions and predicates.
--   Workflow/Graph          the adjacency of a flow in internal/workflow/flow.go, flowNodeReaches,
--                           and the walks markReachable and visit of ValidateFlow.
--   Workflow/Validate       ValidateFlow and validateFlowValues, which call the walks. The
--                           machine is meant to run flows without diagnostics only.
--   Workflow/Plan           BuildPlan of internal/workflow/plan.go, on the declarations of
--                           internal/manifest/ir.go.
--   Authoring/Declaration   the declarations of internal/authoring/types.go and their normal form.
--   Authoring/Tape          Build and HasFatalConflicts of internal/authoring/tape.go.
--   Concepts/*              internal/concepts: the types (Fragment), reflect.DeepEqual on them
--                           (Equality), ResolveWithRegistry (Resolve), the lowering to
--                           declarations of the authoring tape (Declarations), Merge (Merge,
--                           Merge/Unnamed, Merge/Whole), and BuildConceptIR, which resolves and
--                           then merges.
--   Resolver/Occupancy      internal/resolver/occupancy_controller.go.
--   Identity/Names          the JSR names of internal/packageidentity/identity.go.
--   Identity/Instances      internal/packageidentity/instance.go, with the digest as a parameter.
--   Patch/Hunks             the loops of applyFile in internal/patchapply/patchapply.go.
--   Tests/*                 concrete runs, and the theorems at concrete inputs.
-- The modules below a component prove what their names say: Workflow/Settle/Ends the
-- termination of settleControl, Workflow/Machine/Bounds the bounds of the trace, and so on.
--
-- State and errors. A snapshot is a record that each operation takes and returns; Step returns
-- the snapshot beside its result, since a caller keeps the copy of a failed step. An error is a
-- constructor of MachineError and carries the parts of its message; messages for people are left
-- out. `nil_effect` is the panic on a nil effect. cloneSnapshot is a deep copy, so it is the
-- identity here.
--
-- Numbers. A product of `Decide` wraps as an int of 64 bits (Base/Words). Elsewhere int is ℕ and
-- does not overflow: orders, counts and limits are never negative in a snapshot that NewSnapshot
-- made, and a limit of 0 stands for every limit that is not positive. A number that ValidateFlow
-- tests for a negative value, the index of a cursor and the concurrency of an aggregate included,
-- is an integer. A finite float64 is a signed mantissa over a power of two.
--
-- Fuel. settle_control gives the loop of settleControl one more than (N + 1) (N + 1) passes for N
-- nodes: a pass that changes something settles a node or wakes one. `out_of_fuel` is the
-- model's own error. decimal has fuel one above the number, which has no more digits than that.
-- The walks of ValidateFlow have a depth of one more than the keys of the adjacency, since each
-- nested call marks one key more; the search of flowNodeReaches has two more passes than the
-- adjacency has targets, since a node is expanded once.
--
-- Sets. A set of names is the list of its members, with the newest first.
--
-- Text. A string is a native string, and in Identity/Names the list of its code points. In
-- Patch/Hunks the difference of lines that the hunks before made is two counts, since it can be
-- negative. BuildPlan upper-cases the first byte of an operation, which is taken to begin with an
-- ASCII character.
--
-- Maps and slices. Where reflect.DeepEqual of Merge compares a slice or a map, a nil one is
-- `none`: the allowed values of a variable, and the values and entries of a slot. Elsewhere in
-- Concepts a nil slice is the empty one. A loop over a map goes over its entries in the order of
-- the list, whatever that order is.
--
-- Sorting. sort.Strings and sort.SliceStable are insertion sorts.
--
-- Not modelled: running out of memory, with the panic of make on a count in the header of a hunk
-- that is too large for a slice; fields that the modelled code neither reads nor copies; BuildFlow, which compiles a
-- declared workflow to a flow; the parser of patches; the graph and the resolver of packages; input
-- and output, processes, the command line, the reading of manifests and lock files, and the
-- TypeScript sources.
pub mod Base
pub mod Workflow
pub mod Authoring
pub mod Concepts
pub mod Resolver
pub mod Identity
pub mod Patch
pub mod Tests
